-- ===== src/Jetstream.antt =====
-- services/gateway/internal/jetstream/jetstream.go: the subjects of job events, publishing,
-- the provisioning and the ordered consumers.
pub mod Subject
pub mod Publish
pub mod Provision
