-- ===== src/Drain.antt =====
-- The drain manager of the HAProxy provider (provider/haproxy/haproxy.go and drain_recovery.go):
-- its state, and the runtime socket, pid file and process list that it talks to.
pub mod State
pub mod Runtime
pub mod Desired
pub mod Servers
pub mod Mark
pub mod Reconcile
pub mod Stats
pub mod Endpoints
