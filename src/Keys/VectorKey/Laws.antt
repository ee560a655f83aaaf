-- ===== src/Keys/VectorKey/Laws.antt =====
-- The boxed slices keep to the interfaces, and hold any number of bytes.
use rart_rs.Prelude.{
  ℕ, ◌+◌, ◌-◌, min, ◌≡◌, ◌≢◌, refl, ◌∙◌, ap, true, false, ◌&&◌, ◌++◌, length, take, drop, leb, ◌==◌,
  done, panic, ◌>>=◌, Run, run_map, arith, length-drop, ==_refl, Bool-cases, inl, inr, Bool,
}
use rart_rs.Partials
use rart_rs.Partials.{Bytes}
use rart_rs.Keys.Slices.{
  slice, zeros, leb-le, leb-lt, slice_lem, slice_out, slice_to_lem, drop-take, bytes_eq,
  bytes_eq_iff, write_end,
}
use rart_rs.Keys.Interface.{IsPartial, IsKey}
use rart_rs.Keys.Numbers.{from_be_bytes}
use rart_rs.Keys.VectorKey.{
  VectorKey, partial_from, prefix_length_key, vector_partial, vector_key, truncate,
  extend_from_partial, matches_slice, new_from_slice, new_from_partial, to_be_u64,
}

run_map_id : (r : Run Bytes) → r ≡ run_map (λ s. s) r
run_map_id (done s) = refl
run_map_id panic = refl

partial_from_lem : (s : Bytes) (i n : ℕ) → partial_from s i n ≡ slice s i (i + n)
unfolding partial_from
partial_from_lem s i n = elim (Bool-cases (leb (i + n) (length s))) [
  | inl h ↦ rw h
  | inr h ↦ rw (h, slice_out s i (i + n) (ground arith))
]

prefix_length_key_lem :
    (s key : Bytes) (depth : ℕ)
    → prefix_length_key s (Partials.length_at key) (done key) depth
      ≡ Partials.prefix_length_key s key depth
unfolding prefix_length_key Partials.prefix_length_key
prefix_length_key_lem s key depth = elim (Bool-cases (leb depth (length key))) [
  | inl h ↦ rw (
    h,
    slice_to_lem s (min (length s) (length key - depth)) (omega arith),
    slice_lem key depth (depth + min (length s) (length key - depth)) (omega arith) (ground arith),
    slice_to_lem (drop depth key) (min (length s) (length key - depth))
        (omega (arith, length-drop {0} depth key)),
    drop-take depth (min (length s) (length key - depth)) key,
  )
  | inr h ↦ rw h
]

matches_lem : (s t : Bytes) → matches_slice s t ≡ done (bytes_eq s t)
unfolding matches_slice
matches_lem s t = elim (Bool-cases (bytes_eq s t)) [
  | inl h ↦ rw (h, (bytes_eq_iff s t).0 h, ==_refl (length t))
  | inr h ↦ rw h (ap done (and_false (length s == length t)))
]
  where
    and_false : (b : Bool) → (b && false) ≡ false
    and_false true = refl
    and_false false = refl

vector_partial-IsPartial :
    IsPartial vector_partial (λ p s. p ≡ s) (λ s. s) (λ n. Unit {0}) (λ n. Unit {0})
vector_partial-IsPartial = record {
  stands_fresh = λ s h. refl;
  stands_fits = λ p s e. tt;
  fits_less = λ m n h k. tt;
  builds = λ s h. refl;
  reads = λ p s e. ap done e;
  measures = λ p s e. ap length e;
  before = λ p s n e. rw e (run_map_id (Partials.partial_before s n));
  middle = λ p s i n e. rw e (partial_from_lem s i n ∙ run_map_id (slice s i (i + n)));
  after = λ p s n e. rw e (run_map_id (Partials.partial_after s n));
  extended = λ p q s t e e' h. rw (e, e');
  byte_at = λ p s i e. rw e;
  common = λ p q s t e e'. rw (e, e');
  common_slice = λ p s t e. rw e;
  common_key = λ p s key depth e. rw e (prefix_length_key_lem s key depth);
}

vector_key_keeps : IsKey vector_key (λ k s. k ≡ s) (λ p s. p ≡ s) (λ s. s) (λ n. Unit {0})
unfolding new_from_slice new_from_partial extend_from_partial truncate
vector_key_keeps = record {
  stands_fits = λ k s e. tt;
  builds = λ s h. (s, refl, refl);
  builds_partial = λ p s e h. (p, refl, e);
  extended = λ k p s t e e' h. (k ++ p, refl, rw (e, e'));
  cut = λ k s n e h. (take n k, refl, rw e);
  byte_at = λ k s i e h. rw e;
  rest_length = λ k s n e. rw e;
  rest = λ k s n e. rw e (run_map_id (Partials.to_partial s n));
  matches = λ k s t e. rw e (matches_lem s t);
  reads = λ k s e. ap done e;
  orders = λ k l s t e e'. rw (e, e');
}

-- The operations on boxed prefixes compute what those on byte strings do, panics included, and those
-- on boxed keys do, at a byte or a cut in range, for any length.
pub vector_key-IsKey :
    IsPartial vector_partial (λ p s. p ≡ s) (λ s. s) (λ n. Unit {0}) (λ n. Unit {0})
    × IsKey vector_key (λ k s. k ≡ s) (λ p s. p ≡ s) (λ s. s) (λ n. Unit {0})
vector_key-IsKey = (vector_partial-IsPartial, vector_key_keeps)

-- A key of eight bytes is read, and one of any other length panics, a shorter one too.
pub vector_to_be_u64_lem :
    (k : VectorKey)
    → (length k ≡ 8 → to_be_u64 k ≡ done (from_be_bytes k)) × (length k ≢ 8 → to_be_u64 k ≡ panic)
unfolding to_be_u64
vector_to_be_u64_lem k = (
  λ h.
      let none_left : 8 - length k ≡ 0 = omega arith in
      rw (leb-le 8 (length k) (omega arith), leb-le (length k) 8 (omega arith))
        (ap (λ r. r >>= λ a. done (from_be_bytes a)) (write_end 8 k (omega arith))
          ∙ ap (λ n. done (from_be_bytes (zeros n ++ k))) none_left),
  λ h. elim (Bool-cases (leb 8 (length k))) [
    | inl l ↦ rw (l, leb-lt (length k) 8 (ground arith))
    | inr l ↦ rw l
  ],
)
