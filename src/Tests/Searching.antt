-- ===== src/Tests/Searching.antt =====
-- Examples of the filters and the permission policies.
use ohev.Filter.{
  all_filter, none_filter, scope_match, creator_match, like_pattern, Item, or_filters, nil, Filter,
  and_filters, base, acl, Filters, cons, event_access_filter,
}
use ohev.Filter.Eval.{sql_condition, matches, SqlCondition}
use ohev.Filter.Like.{like_tokens, like_tokens-like_pattern, any_run, literal}
use ohev.Filter.Normal.{and_filter, or_filter}
use ohev.Filter.Normal.Conjunction.{matches-and_filter}
use ohev.Filter.Normal.Disjunction.{matches-or_filter}
use ohev.Prelude.{map, true, false, refl, ◌∷◌, none, ◌≡◌, ◌++◌, some, []}
use ohev.Result.{ok, Result, err}
use ohev.Tests.{
  text_value, Value, value_eq, item_entity, sample_values, named_item, number, owned_event,
}
use ohev.Text.{codes, text_eq}

-- name contains "an", and the creator is 7 or the id is 4
abbrev searched : Filter Value
searched = and_filters (
    cons (base ((codes "name__contains", some (text_value (codes "an"))) ∷ []))
      (cons (scope_match (creator_match (number 7)) all_filter (acl (number 4 ∷ []))) nil))

abbrev banana : Item Value
banana = named_item 4 8 (codes "banana")

abbrev condition_of : Result (SqlCondition Value) → SqlCondition Value
condition_of (ok c) = c
condition_of (err e) = none

abbrev searched_condition : SqlCondition Value
searched_condition = condition_of (sql_condition sample_values item_entity searched)

owned_event_test : matches sample_values (event_access_filter (number 7)) owned_event ≡ ok true
unfolding matches value_eq text_eq
owned_event_test = refl

foreign_event_test : matches sample_values (event_access_filter (number 8)) owned_event ≡ ok false
unfolding matches value_eq text_eq
foreign_event_test = refl

abbrev nested : Filters Value
nested =
    cons (and_filters (cons all_filter (cons (creator_match (number 8)) nil)))
      (cons (acl (number 4 ∷ [])) nil)

matches-and_filter_example : matches sample_values (and_filter nested) banana ≡ ok true
unfolding matches value_eq text_eq
matches-and_filter_example = matches-and_filter sample_values nested banana refl

abbrev alternatives : Filters Value
alternatives =
    cons none_filter
      (cons (or_filters (cons (creator_match (number 7)) (cons (acl (number 4 ∷ [])) nil))) nil)

matches-or_filter_example : matches sample_values (or_filter alternatives) banana ≡ ok true
unfolding matches value_eq text_eq
matches-or_filter_example = matches-or_filter sample_values alternatives banana refl

like_tokens-like_pattern_example :
    like_tokens (like_pattern (codes "a_%")) ≡ any_run ∷ (map literal (codes "a_%") ++ any_run ∷ [])
like_tokens-like_pattern_example = like_tokens-like_pattern (codes "a_%")
