-- ===== src/Tests/Groups.antt =====
-- Examples of the groups: a member is added, and the group is deleted.
use ohev.Group.{GroupUserCreate, create_link, flush_link, delete_group, Store, new_link}
use ohev.Group.Members.{AllRefer, HasUniquePairs, IsConsistent}
use ohev.Group.Writes.{here, next, group_deleted, link_created, Writes-IsConsistent}
use ohev.Prelude.{◌∷◌, ◌≡◌, ◌++◌, none, refl, []}
use ohev.Result.{ok}
use ohev.Table.{get, scalar_one_or_none, all_rows}

abbrev sample_store : Store
sample_store = record {
  groups = record { id = 9; name = "staff"; creator_id = 7; description = none } ∷ [];
  users = 7 ∷ 8 ∷ [];
  links = record { id = 1; group_id = 9; user_id = 7; creator_id = 7 } ∷ [];
}

abbrev added : GroupUserCreate
added = record { group_id = 9; user_id = 8 }

abbrev grown_store : Store
grown_store = record sample_store { links = sample_store.links ++ new_link added 7 2 ∷ [] }

abbrev empty_store : Store
empty_store = record { groups = []; users = 7 ∷ 8 ∷ []; links = [] }

sample_added : create_link all_rows added 7 2 sample_store ≡ ok (new_link added 7 2, grown_store)
unfolding create_link flush_link
sample_added = refl

sample_deleted : delete_group all_rows 9 grown_store ≡ ok empty_store
unfolding delete_group get scalar_one_or_none
sample_deleted = refl

sample-IsConsistent : IsConsistent sample_store
unfolding HasUniquePairs AllRefer
sample-IsConsistent = ((refl, tt), (refl, tt))

Writes-IsConsistent_example : IsConsistent empty_store
Writes-IsConsistent_example =
    Writes-IsConsistent
      (next (next here (link_created all_rows added 7 2 sample_store sample_added))
        (group_deleted all_rows 9 grown_store sample_deleted))
      sample-IsConsistent
