-- ===== src/Flag/Batches.antt =====
-- The batches of the flag services keep the constraints of their tables.
use mathlib.Core.Path.{subst}
use ohev.Flag.{
  FeatureFlag, update_flag, apply_user_op, apply_user_batch, create_flag_op, delete_user_assignment,
  delete_flag, update_flag_op, apply_flag_batch, apply_role_batch, batch_create_role, FlagStore,
  apply_flag_op, delete_flag_op, FlagOp, create_flag, batch_create_user, apply_role_op, FlagFilters,
  delete_role_assignment,
}
use ohev.Flag.Keys.{IsSound}
use ohev.Flag.Sound.{
  create_flag-IsSound, create_role-IsSound, create_user-IsSound, delete_flag-IsSound,
  delete_role-IsSound, delete_user-IsSound, update_flag-IsSound,
}
use ohev.Link.{create_op, LinkOp, Assignment, delete_op, LinkFilters}
use ohev.Prelude.{Option, ◌∷◌, ◌≡◌, ℕ, some, List, []}
use ohev.Result.{second_eq, ok, >>=-eq-ok}
use ohev.Table.{Scope, granted}

flag_op-IsSound :
    (filters : FlagFilters) (op : FlagOp) (store : FlagStore) {result : Option FeatureFlag}
    {after : FlagStore}
    → apply_flag_op filters op store ≡ ok (result, after)
    → IsSound store
    → IsSound after
unfolding apply_flag_op
flag_op-IsSound filters (create_flag_op flag) store e s =
    let (filt, g, e1) = >>=-eq-ok (granted filters.on_create) _ e in
    let (made, c, e2) = >>=-eq-ok (create_flag filt flag store) _ e1 in
    subst IsSound (second_eq e2) (create_flag-IsSound filt flag store c s)
flag_op-IsSound filters (update_flag_op i payload) store e s =
    let (filt, g, e1) = >>=-eq-ok (granted filters.on_update) _ e in
    let (made, c, e2) = >>=-eq-ok (update_flag filt i payload store) _ e1 in
    subst IsSound (second_eq e2) (update_flag-IsSound filt i payload store c s)
flag_op-IsSound filters (delete_flag_op i) store e s =
    let (filt, g, e1) = >>=-eq-ok (granted filters.on_delete) _ e in
    let (left, d, e2) = >>=-eq-ok (delete_flag filt i store) _ e1 in
    subst IsSound (second_eq e2) (delete_flag-IsSound filt i store d s)

pub apply_flag_batch-IsSound :
    (filters : FlagFilters) (ops : List FlagOp) (store : FlagStore)
    {results : List (Option FeatureFlag)} {after : FlagStore}
    → apply_flag_batch filters ops store ≡ ok (results, after)
    → IsSound store
    → IsSound after
unfolding apply_flag_batch
apply_flag_batch-IsSound filters [] store e s = subst IsSound (second_eq e) s
apply_flag_batch-IsSound filters (op ∷ ops) store e s =
    let (done, d, e1) = >>=-eq-ok (apply_flag_op filters op store) _ e in
    let (rest, r, e2) = >>=-eq-ok (apply_flag_batch filters ops done.1) _ e1 in
    subst IsSound (second_eq e2)
      (apply_flag_batch-IsSound filters ops done.1 r (flag_op-IsSound filters op store d s))

role_op-IsSound :
    (filters : LinkFilters) (flag_filter : Option (Scope FeatureFlag))
    (role_filter : Option (Scope ℕ)) (op : LinkOp) (store : FlagStore) {result : Option Assignment}
    {after : FlagStore}
    → apply_role_op filters flag_filter role_filter op store ≡ ok (result, after)
    → IsSound store
    → IsSound after
unfolding apply_role_op batch_create_role
role_op-IsSound filters flag_filter role_filter (create_op link) store e s =
    let (made, c, e1) =
      >>=-eq-ok (batch_create_role filters flag_filter role_filter link store) _ e in
    let (filt, g, c1) = >>=-eq-ok (granted filters.create_filter) _ c in
    let (read_flag, gf, c2) = >>=-eq-ok (granted flag_filter) _ c1 in
    let (read_role, gr, c3) = >>=-eq-ok (granted role_filter) _ c2 in
    subst IsSound (second_eq e1)
      (create_role-IsSound filt (some read_flag) (some read_role) link store c3 s)
role_op-IsSound filters flag_filter role_filter (delete_op i) store e s =
    let (filt, g, e1) = >>=-eq-ok (granted filters.delete_filter) _ e in
    let (left, d, e2) = >>=-eq-ok (delete_role_assignment filt i store) _ e1 in
    subst IsSound (second_eq e2) (delete_role-IsSound filt i store d s)

pub apply_role_batch-IsSound :
    (filters : LinkFilters) (flag_filter : Option (Scope FeatureFlag))
    (role_filter : Option (Scope ℕ)) (ops : List LinkOp) (store : FlagStore)
    {results : List (Option Assignment)} {after : FlagStore}
    → apply_role_batch filters flag_filter role_filter ops store ≡ ok (results, after)
    → IsSound store
    → IsSound after
unfolding apply_role_batch
apply_role_batch-IsSound filters flag_filter role_filter [] store e s =
    subst IsSound (second_eq e) s
apply_role_batch-IsSound filters flag_filter role_filter (op ∷ ops) store e s =
    let (done, d, e1) = >>=-eq-ok (apply_role_op filters flag_filter role_filter op store) _ e in
    let (rest, r, e2) =
      >>=-eq-ok (apply_role_batch filters flag_filter role_filter ops done.1) _ e1 in
    subst IsSound (second_eq e2) (
      apply_role_batch-IsSound filters flag_filter role_filter ops done.1 r
        (role_op-IsSound filters flag_filter role_filter op store d s))

user_op-IsSound :
    (filters : LinkFilters) (flag_filter : Option (Scope FeatureFlag))
    (user_filter : Option (Scope ℕ)) (op : LinkOp) (store : FlagStore) {result : Option Assignment}
    {after : FlagStore}
    → apply_user_op filters flag_filter user_filter op store ≡ ok (result, after)
    → IsSound store
    → IsSound after
unfolding apply_user_op batch_create_user
user_op-IsSound filters flag_filter user_filter (create_op link) store e s =
    let (made, c, e1) =
      >>=-eq-ok (batch_create_user filters flag_filter user_filter link store) _ e in
    let (filt, g, c1) = >>=-eq-ok (granted filters.create_filter) _ c in
    let (read_flag, gf, c2) = >>=-eq-ok (granted flag_filter) _ c1 in
    let (read_user, gr, c3) = >>=-eq-ok (granted user_filter) _ c2 in
    subst IsSound (second_eq e1)
      (create_user-IsSound filt (some read_flag) (some read_user) link store c3 s)
user_op-IsSound filters flag_filter user_filter (delete_op i) store e s =
    let (filt, g, e1) = >>=-eq-ok (granted filters.delete_filter) _ e in
    let (left, d, e2) = >>=-eq-ok (delete_user_assignment filt i store) _ e1 in
    subst IsSound (second_eq e2) (delete_user-IsSound filt i store d s)

pub apply_user_batch-IsSound :
    (filters : LinkFilters) (flag_filter : Option (Scope FeatureFlag))
    (user_filter : Option (Scope ℕ)) (ops : List LinkOp) (store : FlagStore)
    {results : List (Option Assignment)} {after : FlagStore}
    → apply_user_batch filters flag_filter user_filter ops store ≡ ok (results, after)
    → IsSound store
    → IsSound after
unfolding apply_user_batch
apply_user_batch-IsSound filters flag_filter user_filter [] store e s =
    subst IsSound (second_eq e) s
apply_user_batch-IsSound filters flag_filter user_filter (op ∷ ops) store e s =
    let (done, d, e1) = >>=-eq-ok (apply_user_op filters flag_filter user_filter op store) _ e in
    let (rest, r, e2) =
      >>=-eq-ok (apply_user_batch filters flag_filter user_filter ops done.1) _ e1 in
    subst IsSound (second_eq e2) (
      apply_user_batch-IsSound filters flag_filter user_filter ops done.1 r
        (user_op-IsSound filters flag_filter user_filter op store d s))
