-- ===== src/Tree/Insert.antt =====
-- The proofs about `insert_recurse`: what each branch computes, and what the new node stands for.
pub mod Steps
pub mod Splits
pub mod Effect
pub mod Total
