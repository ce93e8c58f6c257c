-- ===== src/Tests.antt =====
-- The theorems on concrete inputs, and runs of the definitions.
mod Machine
mod Drains
mod Providers
mod Queues
mod Replies
mod Texts
mod Controls
mod Clients
mod Metadatas
mod Configs
mod Routers
mod Certificates
