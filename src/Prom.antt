-- ===== src/Prom.antt =====
-- pkg/operator/prestostore: importing Prometheus metrics.
pub mod Chunks
pub mod Import
pub mod Importer
