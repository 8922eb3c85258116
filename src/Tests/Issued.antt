-- ===== src/Tests/Issued.antt =====
-- Examples of API keys and OAuth clients from their creation on.
use ohev.ApiKeys.{
  ApiKeyRow, ApiKeyCreate, KeyScope, with_keys, new_row, key_id, generate_api_key_value,
  find_by_hash,
}
use ohev.ApiKeys.Lifecycle.{delete-authenticate, HasUniqueHashes}
use ohev.Login.Carried.{rotated}
use ohev.Login.Clients.{authenticate_client}
use ohev.Login.Manage.{ClientCreate, create_oauth_client, new_client}
use ohev.Login.Managed.{create_oauth_client-authenticate}
use ohev.Login.Store.{AuthStore}
use ohev.Prelude.{
  ◌++◌, ◌≡◌, ◌∷◌, List, ℕ, true, none, length-filter, refl, some, false, [], if◌then◌else◌,
}
use ohev.Result.{invalid_client, err, ok, invalid_token}
use ohev.Table.{delete, all_rows}
use ohev.Tests.Keys.{old_ring, sample_environment}
use ohev.Tests.Logins.{login_config, login-IsRotation, login_store}
use ohev.Text.{Text, text_eq, codes, text_eq_refl}
use ohev.Tokens.{authenticate}

abbrev key_payload : ApiKeyCreate
key_payload = record { name = none; enabled = true; expires_at = some 900; role_id = some 5 }

abbrev open_scope : KeyScope
open_scope = record { prospective = λ payload creator. true; scope = all_rows }

abbrev key_bytes : List ℕ
key_bytes = 1 ∷ 2 ∷ []

abbrev issued_row : ApiKeyRow
issued_row =
    new_row sample_environment.hash key_payload 7 (generate_api_key_value key_bytes)
      (record { id = 21; at = 100 })

one_key : HasUniqueHashes (issued_row ∷ [])
one_key hash = length-filter (λ r. text_eq r.key_hash hash) (issued_row ∷ [])

issued_found :
    find_by_hash (sample_environment.hash (generate_api_key_value key_bytes)) (issued_row ∷ [])
    ≡ some issued_row.key
unfolding find_by_hash
issued_found = rw (text_eq_refl (generate_api_key_value key_bytes)) refl

issued_deleted : delete key_id all_rows 21 (issued_row ∷ []) ≡ ok []
unfolding delete
issued_deleted = refl

delete-authenticate_example :
    authenticate (with_keys [] sample_environment) 200 (generate_api_key_value key_bytes) false
    ≡ err invalid_token
delete-authenticate_example =
    delete-authenticate sample_environment all_rows key_bytes (issued_row ∷ []) [] issued_row.key
      200 false one_key issued_found issued_deleted

abbrev client_payload : ClientCreate
client_payload = record {
  client_id = codes "cli";
  client_secret = codes "s9";
  name = none;
  redirect_uris = codes "https://*.z" ∷ [];
  enabled = true;
}

abbrev store_after : AuthStore
store_after = record login_store {
  clients = login_store.clients ++ new_client login_config client_payload 2 100 ∷ [];
  redirect_uris =
      login_store.redirect_uris ++ record { client_id = 2; uri = codes "https://*.z" } ∷ [];
}

client_created :
    create_oauth_client login_config all_rows client_payload 2 100 login_store
    ≡ ok (new_client login_config client_payload 2 100, store_after)
unfolding create_oauth_client
client_created = refl

create_oauth_client-authenticate_example :
    authenticate_client
      (rotated login_config old_ring)
      (codes "cli")
      (codes "s9")
      store_after.clients
    ≡ (if text_eq (codes "s9") (codes "s9")
        then ok (new_client login_config client_payload 2 100)
        else err invalid_client)
create_oauth_client-authenticate_example =
    create_oauth_client-authenticate login_config client_payload 2 100 all_rows old_ring
      (codes "s9") login_store (new_client login_config client_payload 2 100, store_after)
      login-IsRotation refl refl refl client_created
