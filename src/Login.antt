-- ===== src/Login.antt =====
-- src/openhands/ev2/auth/auth_service.py
pub mod Redirect
pub mod Wildcard
pub mod Scopes
pub mod Pkce
pub mod Store
pub mod Usernames
pub mod Fresh
pub mod Codes
pub mod Clients
pub mod Manage
pub mod Managed
pub mod Pages
pub mod Exchange
pub mod Refresh
pub mod Provision
pub mod Callback
pub mod Revoke
pub mod Carried
pub mod States
pub mod Granted
pub mod Authorized
pub mod Permitted
pub mod Flow
pub mod Revoked
pub mod Bearer
pub mod Sound
pub mod Provisioned
pub mod Writes
pub mod Removals
pub mod History
