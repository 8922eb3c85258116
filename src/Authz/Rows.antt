-- ===== src/Authz/Rows.antt =====
-- What a query under the resolved filter returns.
use ohev.Filter.{Filter}
use ohev.Result.{Result}
use ohev.Text.{Text}
