-- ===== src/Tests/Access.antt =====
-- Examples of the resolution of a request's permission filter.
use mathlib.Core.Option.{get_or}
use ohev.Authz.{
  resolve_permission_filter, policy_attr_for, restricting_role, principal_groups, load_roles,
  groups_of, depends_roles,
}
use ohev.Authz.Verdict.{resolve_permission_filter-granted, granted, verdict}
use ohev.Filter.{none_filter, Filter, Item}
use ohev.Prelude.{◌≡◌, Option, true}
use ohev.Result.{ok}
use ohev.Security.{update}
use ohev.Security.Decision.{allows}
use ohev.Tests.{
  sample_tables, sample_registry, job_model, restricted_token, Value, sample_values, named_item,
  value_eq,
}
use ohev.Text.{text_eq, codes}

abbrev foreign_job : Item Value
foreign_job = named_item 5 8 (codes "job")

abbrev own_job : Item Value
own_job = named_item 4 7 (codes "job")

resolve_permission_filter-granted_example :
    verdict sample_values
      (resolve_permission_filter sample_values sample_registry job_model update sample_tables
        restricted_token)
      own_job
    ≡ ok true
unfolding granted policy_attr_for depends_roles load_roles principal_groups groups_of
    restricting_role allows value_eq text_eq
resolve_permission_filter-granted_example =
    resolve_permission_filter-granted sample_values sample_registry job_model update sample_tables
      restricted_token own_job

abbrev resolved : Filter Value
resolved =
    get_or
      (resolve_permission_filter sample_values sample_registry job_model update sample_tables
        restricted_token)
      none_filter
