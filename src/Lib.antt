-- ===== src/Lib.antt =====
-- Verification of the backend in src/openhands/ev2: authorization by search filters, the job queue,
-- the resource services, the credentials and the keys behind them, feature flags, warm sandboxes,
-- logins and OAuth access tokens, and the periodic upkeep of tables.
--
-- How the program fits together. A request carries a credential; `TokenService.authenticate`
-- (auth/auth_tokens.py) resolves it to a token. `depends_permissions` (auth/auth_dependencies.py)
-- loads the roles of the token's user, reduces each role's policy (security/security_models.py) to
-- a search filter (util/search_filter.py), joins them, narrows by the role of the API key, and
-- hands the filter to a service as its `perm_filter`. The service adds `filter_sql` to every query
-- and tests `matches` before a create. Jobs are rows that runners claim, complete and recover
-- (job/job_service.py, job/job_runner_service.py), possibly several runners at once.
--
-- Which file models which part:
--   Result, Sql, Text, Prelude: exceptions as values, SQL's truth values, text as code points, and
--     what the other files share.
--   Filter: util/search_filter.py, with the filters of security/security_models.py and of the three
--     packages that register a policy. `Filter` has a constructor for each class; Filter/Eval has
--     `matches`, `sql_condition`, `negated_sql_condition`, `filter_sql`; Filter/Normal has
--     `and_filter` and `or_filter`; Filter/Agreement, Filter/Like and Security/Scoping hold the
--     proofs.
--   Security: security/security_models.py, `to_search_filter` of each policy, with the policies
--     that api_key/api_key_security.py, conversation_record/conversation_record_security.py and
--     event/event_security.py register.
--   Authz: auth/auth_dependencies.py, from `depends_roles` to `depends_permissions`.
--   Table: the queries that the services share (`get`, `get_many`, `search`, `count`, `delete`), as
--     functions on a list of rows and a `Scope`, which is the service's filter.
--   Job: job/job_service.py. A transaction is a function from the table to a result and a table;
--     Job/Lifecycle has a step for each transaction of a runner or of the recovery sweep.
--     The steps are operations of `JobService` whose transaction is committed; `claim_and_run` is the
--     caller in job/job_runner_service.py, which does not commit.
--   Group: the writes of group/group_service.py on a `Store` of groups, memberships and user ids.
--     Group/Writes has a step for each write and each batch; the database's constraints are in
--     `flush_link` and `delete_group`.
--   ApiKeys: api_key/api_key_service.py, its writes; ApiKeys/Lifecycle joins them with Tokens.
--   Tokens: auth/auth_tokens.py, `authenticate` and the base52 text of API keys, and
--     `depends_access_token` of auth/auth_dependencies.py.
--   Encryption: encryption/encryption_service.py, the key ring, JWE tokens and encrypted values,
--     and the tokens that auth/auth_tokens.py mints. `Encryption.Minted` joins them with Tokens.
--   Login: auth/auth_service.py, `AuthService`, over the tables of `Login.Store.AuthStore`.
--     Login/Codes has the tokens that carry a login, Login/Clients, /Callback, /Exchange, /Refresh
--     and /Revoke the endpoints, Login/Provision and /Usernames the local user, Login/Manage the
--     OAuth clients, Login/Redirect the patterns of redirect URIs, Login/Scopes and /Pkce what
--     their names say; the other files hold the proofs. Login/History has a step for each operation
--     that writes.
--   OAuth: oauth/oauth_session_service.py, `get_valid_access_token` and the refresh behind it, over
--     the encrypted values of Encryption.
--   Link, Flag: role/user_role_service.py and feature_flag/feature_flag_service.py. `Link.Links` is
--     a link table with the ids that it may refer to; `Flag.FlagStore` has flags and two link
--     tables. Flag/History has a step for each write and each batch.
--   Users: user/user_service.py, over the users of Login.Store.
--   Sandbox: sandbox/sandbox_service.py, the base class over the hooks of a provider.
--   Prune, Partition, Usage: the periodic work of security/acl_prune_service.py on the lists of ids
--     in policies, of `ensure_partitions` in job/job_service.py, and of `aggregate_minute` in
--     llm/llm_usage_service.py.
--   Tests: concrete inputs for the theorems.
--
-- Parameters. Python's comparisons of values, `str`, `lower` and the like, and PostgreSQL's
-- comparisons of a column with a bound value are the fields of `Filter.Values`, as are the two
-- tables that subqueries read; what the code relies on is `Filter.Agreement.Agrees`. An item whose
-- relationships were not loaded has no value under their paths. Decryption, the hash, the parsing
-- of UUIDs and the rows read are the fields of `Tokens.Environment`. The JWE format and its
-- cryptography are `Encryption.Crypto`, with `IsCrypto` what the code relies on; the hooks of a
-- sandbox provider are `Sandbox.Provider`, with `Sandbox.Reach.IsPool` and `IsWorking`; the names
-- of partitions are `Partition.Naming`. What a login takes from outside is in
-- `Login.Codes.AuthConfig`: the parser of UUIDs, the text of a SHA-256 digest, the encoding of a
-- JWT. The identity provider's answers are arguments of the operations, as are the drawn UUIDs and
-- the time of an operation; bcrypt is `Users.Hashing`. Ids are natural numbers, as UUIDs compared
-- as numbers.
--
-- Times count microseconds, as a `datetime` does; the claims of a token keep whole seconds, and
-- configured lifetimes count seconds.
--
-- Fuel. `Table.Pages.follow` counts the requests of a client that follows cursors: more than the
-- number of wanted rows is enough, since every page but the last has at least one row. The loop of
-- `_base52_encode` divides its number each round, so a fuel greater than the number is enough. The
-- loops of `refresh_warm_sandboxes` count up or down to the target, and have one unit of fuel more
-- than their distance from it. The loop of `_unique_username` has one round more than there are
-- users, and `digits_onto` divides its number each round.
--
-- Not modelled: HTTP routing, the renewal of cookies and sessions at a request, the formatting of
-- URLs, the discovery document, the Docker and Kubernetes drivers, snapshots, storage of events and
-- secrets, the caches of a request, the verification of JWS tokens, and the timestamps that the
-- database maintains.
pub mod ApiKeys
pub mod Authz
pub mod Encryption
pub mod Filter
pub mod Flag
pub mod Group
pub mod Job
pub mod Link
pub mod Login
pub mod OAuth
pub mod Partition
pub mod Prelude
pub mod Prune
pub mod Result
pub mod Sandbox
pub mod Security
pub mod Sql
pub mod Table
pub mod Tests
pub mod Text
pub mod Tokens
pub mod Usage
pub mod Users
