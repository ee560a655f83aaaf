-- ===== src/Mapping.antt =====
-- The mappings from edges to children behind the larger node kinds (rart/src/mapping), over arrays
-- with a bit for each slot that is in use (rart/src/utils/bitarray.rs).
pub mod BitArray
pub mod Slots
pub mod Positions
pub mod Direct
pub mod Indexed
