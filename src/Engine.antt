-- ===== src/Engine.antt =====
-- include/lundi/engine: the buffers, the number formatter, the header scan and the date cache.
pub mod Itoa
pub mod DateCache
pub mod Scan
pub mod Buffer
