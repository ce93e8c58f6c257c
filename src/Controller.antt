-- ===== src/Controller.antt =====
-- The load balancer controller (controller/rancher/rancher.go): links, endpoints, rules, the build
-- of a configuration, and the sync.
pub mod Sorting
pub mod Links
pub mod Endpoints
pub mod Rules
pub mod Build
pub mod Sync
pub mod Certificates
