-- ===== src/ApiKeys/Lifecycle.antt =====
-- An API key from its creation to its deletion, at `TokenService.authenticate`.
use mathlib.Core.Path.{subst}
use ohev.ApiKeys.{ApiKeyRow, find_by_hash, with_keys, has_hash, key_id, generate_api_key_value}
use ohev.Prelude.{
  false, ℕ, inr, ◌≡◌, ◌∷◌, true, refl, ap, inl, some, Bool, any, arith, none, Bool-cases, List, [],
  length, ◌∙◌, not, ◌≤◌, sym, ◌==◌, filter, any-filter, ==_iff, Option,
}
use ohev.Result.{invalid_token, err, ok, >>=-eq-ok, ok_eq}
use ohev.Table.{delete, get, Scope}
use ohev.Table.Keys.{get-id}
use ohev.Text.{starts_with, Text}
use ohev.Tokens.{Environment, authenticate, authenticate_api_key, AuthToken, ApiKey, api_key}

-- The token that a key's value gives.
abbrev pub token_of : ApiKey → AuthToken
token_of key = record {
  id = key.id;
  user_id = key.creator_id;
  enabled = key.enabled;
  expires_at = key.expires_at;
  token_type = api_key;
  role_id = key.role_id;
  created_at = key.created_at;
  updated_at = key.updated_at;
}

lost_key :
    (env : Environment) (rows : List ApiKeyRow) (now : ℕ) (bytes : List ℕ) (allow : Bool)
    → find_by_hash (env.hash (generate_api_key_value bytes)) rows ≡ none
    → authenticate (with_keys rows env) now (generate_api_key_value bytes) allow ≡ err invalid_token
unfolding authenticate authenticate_api_key starts_with generate_api_key_value
lost_key env rows now bytes allow f = rw f refl

-- No two rows have one hash, as the unique constraint says.
abbrev pub HasUniqueHashes : List ApiKeyRow → Type 0
HasUniqueHashes rows = (hash : Text) → length (filter (has_hash hash) rows) ≤ 1

none_left :
    (hash : Text) (rows : List ApiKeyRow)
    → any (has_hash hash) rows ≡ false
    → find_by_hash hash rows ≡ none
unfolding find_by_hash
none_left hash [] e = refl
none_left hash (r ∷ rows) e = ground (arith, none_left hash rows)

any_none :
    (p : ApiKeyRow → Bool) (rows : List ApiKeyRow) → length (filter p rows) ≤ 0 → any p rows ≡ false
any_none p [] e = refl
any_none p (r ∷ rows) e = elim (Bool-cases (p r)) [
  | inl h ↦ absurd (ground arith)
  | inr h ↦ rw h (any_none p rows (ground arith))
]

find_by_hash-deleted :
    (hash : Text) (rows : List ApiKeyRow) (key : ApiKey)
    → length (filter (has_hash hash) rows) ≤ 1
    → find_by_hash hash rows ≡ some key
    → find_by_hash hash (filter (λ r. not (key_id r == key.id)) rows) ≡ none
unfolding find_by_hash
find_by_hash-deleted hash [] key u f = cc
find_by_hash-deleted hash (r ∷ rows) key u f = elim (Bool-cases (has_hash hash r)) [
  | inl h ↦
      let same_key : some r.key ≡ some key = sym (rw h refl) ∙ f in
      let same_id : (key_id r == key.id) ≡ true = (==_iff _ _).1 (ap id_of same_key) in
      let alone : any (has_hash hash) rows ≡ false = any_none (has_hash hash) rows (ground arith) in
      rw same_id (
        none_left hash (filter (λ r. not (key_id r == key.id)) rows)
          (any-filter (has_hash hash) (λ r. not (key_id r == key.id)) rows alone))
  | inr h ↦
      let found_later : find_by_hash hash rows ≡ some key = sym (rw h refl) ∙ f in
      let rest = find_by_hash-deleted hash rows key (ground arith) found_later in
      elim (Bool-cases (key_id r == key.id)) [ inl k ↦ rw k rest | inr k ↦ rw (k, h) rest ]
]
  where
    id_of : Option ApiKey → ℕ
    id_of none = 0
    id_of (some key) = key.id

-- Once a key was deleted, its value is refused, at any time and for any endpoint: if the key of the
-- value was the one with the id, and hashes were unique, the deletion leaves none that the value
-- authenticates.
pub delete-authenticate :
    (env : Environment) (scope : Scope ApiKeyRow) (bytes : List ℕ) (rows after : List ApiKeyRow)
    (key : ApiKey) (now : ℕ) (allow_refresh : Bool)
    → HasUniqueHashes rows
    → find_by_hash (env.hash (generate_api_key_value bytes)) rows ≡ some key
    → delete key_id scope key.id rows ≡ ok after
    → authenticate (with_keys after env) now (generate_api_key_value bytes) allow_refresh
      ≡ err invalid_token
unfolding delete
delete-authenticate env scope bytes rows after key now allow u f e =
    let (row, got, e1) = >>=-eq-ok (get key_id scope key.id rows) _ e in
    let gone =
      find_by_hash-deleted (env.hash (generate_api_key_value bytes)) rows key
        (u (env.hash (generate_api_key_value bytes))) f in
    let same_id = get-id key_id scope key.id rows row got in
    lost_key env after now bytes allow (
      subst (λ l. find_by_hash (env.hash (generate_api_key_value bytes)) l ≡ none)
        (subst (λ i. filter (λ s. not (key_id s == i)) rows ≡ after) same_id (ok_eq e1)) gone)
