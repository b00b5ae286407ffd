-- ===== src/Importer.antt =====
-- persistence/InfluxDBImporter.cpp.
pub mod Buffer
pub mod Fetch
pub mod Import
pub mod Progress
pub mod Service
