-- ===== src/Catalog.antt =====
-- services/gateway/internal/catalog/catalog.go: the model catalog. The YAML parser, the case
-- mappings of package unicode, the wire format and the KV bucket are parameters.
pub mod Load
pub mod Search
pub mod Seed
