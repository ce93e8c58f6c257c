-- ===== src/Provider.antt =====
-- The HAProxy provider (provider/haproxy/haproxy.go): `write`, `applyHaproxyConfig`, `ApplyConfig`,
-- and the timer of `Run`. The file system and the reload command are parameters; the text that
-- `text/template` makes of the selected data is the template's.
pub mod Selection
pub mod Unique
pub mod Apply
pub mod Failure
pub mod Custom
