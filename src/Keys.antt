-- ===== src/Keys.antt =====
-- Key types and prefix types behind interfaces: the traits `KeyTrait` (rart/src/keys/mod.rs) and
-- `Partial` (rart/src/partials/mod.rs) as records of operations, with laws that tie an
-- implementation to the byte string operations of `Partials`, which the tree uses.
pub mod Slices
pub mod Interface
pub mod Join
pub mod Cuts
pub mod VectorKey
pub mod ArrayPrefix
pub mod ArrayKey
pub mod OverflowPrefix
pub mod OverflowKey
pub mod Builder
pub mod Numbers
pub mod Text
