-- ===== src/Tests/Flags.antt =====
-- Examples of link tables and feature flags.
use ohev.Flag.{
  enabled_for_roles, FlagStore, apply_role_batch, sorted_set, create_role_assignment,
  batch_create_role, apply_role_op, add_id, FeatureFlag, delete_flag,
}
use ohev.Flag.Assign.{IsGuarded, apply_role_batch-IsGuarded, same_row}
use ohev.Flag.Enabled.{is_for_roles, enabled_for_roles-has_id, is_global, is_for_user, IsAscending}
use ohev.Flag.History.{roles_applied, then_write, flag_deleted, no_write, FlagWrites-IsSound}
use ohev.Flag.Keys.{IsSound, HasNoRepeat}
use ohev.Link.{create_op, Assignment, has_id, create_assignment, flush_assignment, LinkFilters}
use ohev.Link.Pairs.{HasUniqueJoins}
use ohev.Prelude.{ℕ, true, refl, any, none, Bool, ◌∷◌, ◌⊎◌, false, All, some, ◌≡◌, [], ◌||◌}
use ohev.Result.{ok}
use ohev.Table.{get, all_rows, scalar_one_or_none}

abbrev link_of : ℕ → ℕ → ℕ → Assignment
link_of i left right = record { id = i; left_id = left; right_id = right }

abbrev all_granted : LinkFilters
all_granted = record { create_filter = some all_rows; delete_filter = some all_rows }

abbrev flag_of : ℕ → Bool → FeatureFlag
flag_of i on = record { id = i; enabled = on; description = none }

-- Flag 5 is on for everyone, flag 3 for role 1 and flag 4 for user 7.
abbrev sample_flags : FlagStore
sample_flags = record {
  flags = flag_of 5 true ∷ flag_of 3 false ∷ flag_of 4 false ∷ [];
  role_assignments = link_of 1 3 1 ∷ [];
  user_assignments = link_of 2 4 7 ∷ [];
  roles = 1 ∷ 2 ∷ [];
  users = 7 ∷ [];
}

sample_enabled : enabled_for_roles all_rows (1 ∷ []) (some 7) sample_flags ≡ 3 ∷ 4 ∷ 5 ∷ []
unfolding enabled_for_roles sorted_set add_id
sample_enabled = refl

enabled_for_roles-has_id_example :
    IsAscending (enabled_for_roles all_rows (1 ∷ []) (some 7) sample_flags)
    × ((i : ℕ)
        → has_id i (enabled_for_roles all_rows (1 ∷ []) (some 7) sample_flags) ≡ (
            any (is_global all_rows i) sample_flags.flags
            || (any (is_for_roles (1 ∷ []) i) sample_flags.role_assignments
                || any (is_for_user (some 7) i) sample_flags.user_assignments)))
enabled_for_roles-has_id_example = enabled_for_roles-has_id all_rows (1 ∷ []) (some 7) sample_flags

abbrev flags_after : FlagStore
flags_after = record sample_flags { role_assignments = link_of 1 3 1 ∷ link_of 3 4 2 ∷ [] }

sample_batch :
    apply_role_batch all_granted
      (some all_rows)
      (some all_rows)
      (create_op (link_of 3 4 2) ∷ [])
      sample_flags
    ≡ ok (some (link_of 3 4 2) ∷ [], flags_after)
unfolding apply_role_batch apply_role_op batch_create_role create_role_assignment create_assignment
    flush_assignment get scalar_one_or_none
sample_batch = refl

apply_role_batch-IsGuarded_example :
    All
      (λ (l : Assignment).
        (any (same_row l) sample_flags.role_assignments ≡ true)
        ⊎ IsGuarded all_granted
            (some all_rows)
            (some all_rows)
            sample_flags.flags
            sample_flags.roles
            l)
      flags_after.role_assignments
apply_role_batch-IsGuarded_example =
    apply_role_batch-IsGuarded all_granted (some all_rows) (some all_rows)
      (create_op (link_of 3 4 2) ∷ []) sample_flags sample_batch

-- Flag 3 goes, and its assignment to role 1 with it.
abbrev flags_left : FlagStore
flags_left = record flags_after {
  flags = flag_of 5 true ∷ flag_of 4 false ∷ [];
  role_assignments = link_of 3 4 2 ∷ [];
}

sample_flag_deleted : delete_flag all_rows 3 flags_after ≡ ok flags_left
unfolding delete_flag get scalar_one_or_none
sample_flag_deleted = refl

sample_flags-IsSound : IsSound sample_flags
unfolding HasNoRepeat HasUniqueJoins
sample_flags-IsSound =
    ((refl, (refl, (refl, tt))), ((refl, tt), (refl, tt)), ((refl, tt), (refl, tt)))

FlagWrites-IsSound_example : IsSound flags_left
FlagWrites-IsSound_example =
    FlagWrites-IsSound
      (then_write
        (then_write no_write (
          roles_applied all_granted (some all_rows) (some all_rows) (create_op (link_of 3 4 2) ∷ [])
            sample_flags sample_batch))
        (flag_deleted all_rows 3 flags_after sample_flag_deleted))
      sample_flags-IsSound
