-- ===== src/Keys/Interface.antt =====
-- The traits `Partial` (rart/src/partials/mod.rs) and `KeyTrait` (rart/src/keys/mod.rs) as records
-- of operations, and what an implementation owes to the tree: it computes what the byte string
-- operations of `Partials` compute, panics included, wherever its laws have no condition.
use Prim.Native.Nat.{Ordering}
use rart_rs.Prelude.{ℕ, ◌+◌, ◌≤◌, ◌<◌, ◌≡◌, Bool, ◌++◌, length, take, Run, done, run_map}
use rart_rs.Partials
use rart_rs.Partials.{Bytes}
use rart_rs.Keys.Slices.{slice, bytes_eq, bytes_cmp}

-- `prefix_length_key` is given the key's `length_at` and its bytes.
pub record PartialOps (P : Type 0) : Type 0 where
  pub from_slice : Bytes → Run P
  pub to_slice : P → Run Bytes
  pub partial_before : P → ℕ → Run P
  pub partial_from : P → ℕ → ℕ → Run P
  pub partial_after : P → ℕ → Run P
  pub partial_extended_with : P → P → Run P
  pub at : P → ℕ → Run ℕ
  pub len : P → ℕ
  pub prefix_length_common : P → P → Run ℕ
  pub prefix_length_key : P → (ℕ → Run ℕ) → Run Bytes → ℕ → Run ℕ
  pub prefix_length_slice : P → Bytes → Run ℕ

pub record KeyOps (K P : Type 0) : Type 0 where
  pub new_from_slice : Bytes → Run K
  pub new_from_partial : P → Run K
  pub extend_from_partial : K → P → Run K
  pub truncate : K → ℕ → Run K
  pub at : K → ℕ → Run ℕ
  pub length_at : K → ℕ → Run ℕ
  pub to_partial : K → ℕ → Run P
  pub matches_slice : K → Bytes → Run Bool
  pub as_ref : K → Run Bytes
  pub cmp : K → K → Run Ordering

-- `Stands p s`: the prefix `p` is well formed and has the bytes `s`. `fresh s` is a prefix as the
-- implementation builds it for `s`. `fits n`: n bytes can be held; `joins n`: a prefix of n bytes
-- may come of two.
pub record IsPartial {P : Type 0} (ops : PartialOps P) (Stands : P → Bytes → Type 0)
    (fresh : Bytes → P) (fits joins : ℕ → Type 0) : Type 0 where
  pub stands_fresh : (s : Bytes) → fits (length s) → Stands (fresh s) s
  pub stands_fits : (p : P) (s : Bytes) → Stands p s → fits (length s)
  pub fits_less : (m n : ℕ) → m ≤ n → fits n → fits m
  pub builds : (s : Bytes) → fits (length s) → ops.from_slice s ≡ done (fresh s)
  pub reads : (p : P) (s : Bytes) → Stands p s → ops.to_slice p ≡ done s
  pub measures : (p : P) (s : Bytes) → Stands p s → ops.len p ≡ length s
  pub before :
      (p : P) (s : Bytes) (n : ℕ)
      → Stands p s
      → ops.partial_before p n ≡ run_map fresh (Partials.partial_before s n)
  pub middle :
      (p : P) (s : Bytes) (start n : ℕ)
      → Stands p s
      → ops.partial_from p start n ≡ run_map fresh (slice s start (start + n))
  pub after :
      (p : P) (s : Bytes) (n : ℕ)
      → Stands p s
      → ops.partial_after p n ≡ run_map fresh (Partials.partial_after s n)
  pub extended :
      (p q : P) (s t : Bytes)
      → Stands p s
      → Stands q t
      → joins (length s + length t)
      → ops.partial_extended_with p q ≡ done (fresh (s ++ t))
  pub byte_at : (p : P) (s : Bytes) (i : ℕ) → Stands p s → ops.at p i ≡ Partials.at s i
  pub common :
      (p q : P) (s t : Bytes)
      → Stands p s
      → Stands q t
      → ops.prefix_length_common p q ≡ done (Partials.prefix_length_slice s t)
  pub common_slice :
      (p : P) (s t : Bytes)
      → Stands p s
      → ops.prefix_length_slice p t ≡ done (Partials.prefix_length_slice s t)
  pub common_key :
      (p : P) (s key : Bytes) (depth : ℕ)
      → Stands p s
      → ops.prefix_length_key p (Partials.length_at key) (done key) depth
        ≡ Partials.prefix_length_key s key depth

-- A key reads a byte in range; what it does out of range differs.
pub record IsKey {K P : Type 0} (ops : KeyOps K P) (Stands : K → Bytes → Type 0)
    (StandsPartial : P → Bytes → Type 0) (fresh : Bytes → P) (fits : ℕ → Type 0) : Type 0 where
  pub stands_fits : (k : K) (s : Bytes) → Stands k s → fits (length s)
  pub builds :
      (s : Bytes) → fits (length s) → (k : K) × (ops.new_from_slice s ≡ done k) × Stands k s
  pub builds_partial :
      (p : P) (s : Bytes)
      → StandsPartial p s
      → fits (length s)
      → (k : K) × (ops.new_from_partial p ≡ done k) × Stands k s
  pub extended :
      (k : K) (p : P) (s t : Bytes)
      → Stands k s
      → StandsPartial p t
      → fits (length s + length t)
      → (k' : K) × (ops.extend_from_partial k p ≡ done k') × Stands k' (s ++ t)
  pub cut :
      (k : K) (s : Bytes) (n : ℕ)
      → Stands k s
      → n ≤ length s
      → (k' : K) × (ops.truncate k n ≡ done k') × Stands k' (take n s)
  pub byte_at :
      (k : K) (s : Bytes) (i : ℕ) → Stands k s → i < length s → ops.at k i ≡ Partials.at s i
  pub rest_length :
      (k : K) (s : Bytes) (n : ℕ) → Stands k s → ops.length_at k n ≡ Partials.length_at s n
  pub rest :
      (k : K) (s : Bytes) (n : ℕ)
      → Stands k s
      → ops.to_partial k n ≡ run_map fresh (Partials.to_partial s n)
  pub matches : (k : K) (s t : Bytes) → Stands k s → ops.matches_slice k t ≡ done (bytes_eq s t)
  pub reads : (k : K) (s : Bytes) → Stands k s → ops.as_ref k ≡ done s
  pub orders :
      (k l : K) (s t : Bytes) → Stands k s → Stands l t → ops.cmp k l ≡ done (bytes_cmp s t)
