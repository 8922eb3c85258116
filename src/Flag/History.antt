-- ===== src/Flag/History.antt =====
-- Sequences of writes of the flag services.
use ohev.Flag.{
  create_flag, FeatureFlagUpdate, FeatureFlag, FlagFilters, delete_role_assignment, delete_flag,
  delete_user_assignment, apply_flag_batch, apply_user_batch, create_user_assignment, FlagStore,
  create_role_assignment, update_flag, apply_role_batch, FlagOp,
}
use ohev.Flag.Batches.{apply_role_batch-IsSound, apply_user_batch-IsSound, apply_flag_batch-IsSound}
use ohev.Flag.Keys.{IsSound}
use ohev.Flag.Sound.{
  create_user-IsSound, create_role-IsSound, delete_flag-IsSound, create_flag-IsSound,
  update_flag-IsSound, delete_role-IsSound, delete_user-IsSound,
}
use ohev.Link.{Assignment, LinkFilters, LinkOp}
use ohev.Prelude.{Option, List, ◌≡◌, ℕ}
use ohev.Result.{ok}
use ohev.Table.{Scope}

-- One successful write of a service, or a whole batch.
pub data FlagWrite : FlagStore → FlagStore → Type 0 where
  flag_created :
      (scope : Scope FeatureFlag) (flag : FeatureFlag) (store : FlagStore) {made : FeatureFlag}
      {after : FlagStore}
      → create_flag scope flag store ≡ ok (made, after)
      → FlagWrite store after
  flag_updated :
      (scope : Scope FeatureFlag) (i : ℕ) (payload : FeatureFlagUpdate) (store : FlagStore)
      {made : FeatureFlag} {after : FlagStore}
      → update_flag scope i payload store ≡ ok (made, after)
      → FlagWrite store after
  flag_deleted :
      (scope : Scope FeatureFlag) (i : ℕ) (store : FlagStore) {after : FlagStore}
      → delete_flag scope i store ≡ ok after
      → FlagWrite store after
  role_assigned :
      (scope : Scope Assignment) (flag_filter : Option (Scope FeatureFlag))
      (role_filter : Option (Scope ℕ)) (link : Assignment) (store : FlagStore) {made : Assignment}
      {after : FlagStore}
      → create_role_assignment scope flag_filter role_filter link store ≡ ok (made, after)
      → FlagWrite store after
  role_unassigned :
      (scope : Scope Assignment) (i : ℕ) (store : FlagStore) {after : FlagStore}
      → delete_role_assignment scope i store ≡ ok after
      → FlagWrite store after
  user_assigned :
      (scope : Scope Assignment) (flag_filter : Option (Scope FeatureFlag))
      (user_filter : Option (Scope ℕ)) (link : Assignment) (store : FlagStore) {made : Assignment}
      {after : FlagStore}
      → create_user_assignment scope flag_filter user_filter link store ≡ ok (made, after)
      → FlagWrite store after
  user_unassigned :
      (scope : Scope Assignment) (i : ℕ) (store : FlagStore) {after : FlagStore}
      → delete_user_assignment scope i store ≡ ok after
      → FlagWrite store after
  flags_applied :
      (filters : FlagFilters) (ops : List FlagOp) (store : FlagStore)
      {results : List (Option FeatureFlag)} {after : FlagStore}
      → apply_flag_batch filters ops store ≡ ok (results, after)
      → FlagWrite store after
  roles_applied :
      (filters : LinkFilters) (flag_filter : Option (Scope FeatureFlag))
      (role_filter : Option (Scope ℕ)) (ops : List LinkOp) (store : FlagStore)
      {results : List (Option Assignment)} {after : FlagStore}
      → apply_role_batch filters flag_filter role_filter ops store ≡ ok (results, after)
      → FlagWrite store after
  users_applied :
      (filters : LinkFilters) (flag_filter : Option (Scope FeatureFlag))
      (user_filter : Option (Scope ℕ)) (ops : List LinkOp) (store : FlagStore)
      {results : List (Option Assignment)} {after : FlagStore}
      → apply_user_batch filters flag_filter user_filter ops store ≡ ok (results, after)
      → FlagWrite store after

pub data FlagWrites (store : FlagStore) : FlagStore → Type 0 where
  no_write : FlagWrites store store
  then_write :
      {mid after : FlagStore} → FlagWrites store mid → FlagWrite mid after → FlagWrites store after

FlagWrite-IsSound :
    {store after : FlagStore} → FlagWrite store after → IsSound store → IsSound after
FlagWrite-IsSound (flag_created scope flag store e) s = create_flag-IsSound scope flag store e s
FlagWrite-IsSound (flag_updated scope i payload store e) s =
    update_flag-IsSound scope i payload store e s
FlagWrite-IsSound (flag_deleted scope i store e) s = delete_flag-IsSound scope i store e s
FlagWrite-IsSound (role_assigned scope flag_filter role_filter link store e) s =
    create_role-IsSound scope flag_filter role_filter link store e s
FlagWrite-IsSound (role_unassigned scope i store e) s = delete_role-IsSound scope i store e s
FlagWrite-IsSound (user_assigned scope flag_filter user_filter link store e) s =
    create_user-IsSound scope flag_filter user_filter link store e s
FlagWrite-IsSound (user_unassigned scope i store e) s = delete_user-IsSound scope i store e s
FlagWrite-IsSound (flags_applied filters ops store e) s =
    apply_flag_batch-IsSound filters ops store e s
FlagWrite-IsSound (roles_applied filters flag_filter role_filter ops store e) s =
    apply_role_batch-IsSound filters flag_filter role_filter ops store e s
FlagWrite-IsSound (users_applied filters flag_filter user_filter ops store e) s =
    apply_user_batch-IsSound filters flag_filter user_filter ops store e s

-- After any successful writes and batches of the flag services, as before them, flags have distinct ids, no flag
-- is twice assigned to a role or to a user, and the flag and the role or the user of each assignment
-- exist.
pub FlagWrites-IsSound :
    {store after : FlagStore} → FlagWrites store after → IsSound store → IsSound after
FlagWrites-IsSound no_write s = s
FlagWrites-IsSound (then_write writes write) s =
    FlagWrite-IsSound write (FlagWrites-IsSound writes s)
