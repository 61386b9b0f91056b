-- ===== src/Gateway/Accounts/Keyed.antt =====
-- `_identify` of src/resgraph/gateway/server.py over `resolve_account` of
-- src/resgraph/gateway/accounts.py.
use resgraph.Prelude.{Option}
