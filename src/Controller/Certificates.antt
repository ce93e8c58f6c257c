-- ===== src/Controller/Certificates.antt =====
-- The certificate fetcher (controller/rancher/certificate_fetcher.go). The file system and the
-- control plane are parameters; the paths are worked out as `path/filepath` does on Unix.
pub mod Paths
pub mod Read
pub mod Within
pub mod Poll
pub mod Fetch
pub mod Rooted
pub mod Inside
pub mod Pages
