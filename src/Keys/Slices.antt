-- ===== src/Keys/Slices.antt =====
-- Slices of byte arrays, and copies into them, with the range checks of the language.
use rart_rs.Prelude.{
  ℕ, zero, suc, ◌+◌, ◌-◌, ◌≤◌, ◌<◌, ◌≡◌, ◌≢◌, refl, sym, ◌∙◌, ap, Bool, true, false, ◌&&◌, [], ◌∷◌,
  ◌++◌, length, take, drop, replicate, get_elem?, leb, ◌==◌, done, panic, none, Bool-cases, inl,
  inr, ◌>>◌, check, Run, arith, append_assoc, append-nil, ◌↔◌, length-append, take-length_append,
  drop-length_append, drop-drop,
}
use Prim.Native.Nat.{compare, Ordering}
use native.Mathlib.Nat.{suc-add}
use rart_rs.Partials.{Bytes, slice_to}

-- `&s[start..end]`.
unfoldable pub slice : Bytes → ℕ → ℕ → Run Bytes
slice s start end = do
  check (leb start end)
  check (leb end (length s))
  done (drop start (take end s))

-- `arr[pos..pos + src.len()].copy_from_slice(src)`.
unfoldable pub write : Bytes → ℕ → Bytes → Run Bytes
write arr pos src = do
  check (leb (pos + length src) (length arr))
  done (take pos arr ++ (src ++ drop (pos + length src) arr))

abbrev pub zeros : ℕ → Bytes
zeros n = replicate n 0

unfoldable pub bytes_eq : Bytes → Bytes → Bool
bytes_eq [] [] = true
bytes_eq [] (y ∷ t) = false
bytes_eq (x ∷ s) [] = false
bytes_eq (x ∷ s) (y ∷ t) = x == y && bytes_eq s t

-- The order of byte slices: by the first byte at which they differ, else the shorter first.
abbrev pub then_with : Ordering → Ordering → Ordering
then_with Ordering.lt o = Ordering.lt
then_with Ordering.eq o = o
then_with Ordering.gt o = Ordering.gt

unfoldable pub bytes_cmp : Bytes → Bytes → Ordering
bytes_cmp [] [] = Ordering.eq
bytes_cmp [] (y ∷ t) = Ordering.lt
bytes_cmp (x ∷ s) [] = Ordering.gt
bytes_cmp (x ∷ s) (y ∷ t) = then_with (compare x y) (bytes_cmp s t)

pub leb-le : (a b : ℕ) → a ≤ b → leb a b ≡ true
leb-le a b h = ground arith

pub length-zeros : (n : ℕ) → length (zeros n) ≡ n
length-zeros zero = refl
length-zeros (suc n) = omega (arith, length-zeros n)

pub drop-zeros : (m n : ℕ) → drop m (zeros n) ≡ zeros (n - m)
drop-zeros zero n = ap zeros (omega arith)
drop-zeros (suc m) zero = ap zeros (let e : 0 ≡ 0 - suc m = omega arith in e)
drop-zeros (suc m) (suc n) = drop-zeros m n ∙ ap zeros (omega arith)

pub take-append : (n : ℕ) (s t : Bytes) → n ≤ length s → take n (s ++ t) ≡ take n s
take-append zero s t h = refl
take-append (suc n) [] t h = absurd (omega arith)
take-append (suc n) (x ∷ s) t h = ap (λ l. x ∷ l) (take-append n s t (omega arith))

pub take_all : (n : ℕ) (s : Bytes) → length s ≤ n → take n s ≡ s
take_all zero [] h = refl
take_all zero (x ∷ s) h = absurd (omega arith)
take_all (suc n) [] h = refl
take_all (suc n) (x ∷ s) h = ap (λ l. x ∷ l) (take_all n s (omega arith))

pub get_elem?-append :
    (s t : Bytes) (i : ℕ) → suc i ≤ length s → get_elem? (s ++ t) i ≡ get_elem? s i
get_elem?-append [] t i h = absurd (omega arith)
get_elem?-append (x ∷ s) t zero h = refl
get_elem?-append (x ∷ s) t (suc i) h = get_elem?-append s t i (omega arith)

-- What stands behind the first part of an array is not read.
pub slice_to-append : (s t : Bytes) (n : ℕ) → n ≤ length s → slice_to (s ++ t) n ≡ done (take n s)
slice_to-append s t n h =
    rw (leb-le n (length (s ++ t)) (omega (arith, length-append {0} s t)), take-append n s t h)

pub slice_to_lem : (s : Bytes) (n : ℕ) → n ≤ length s → slice_to s n ≡ done (take n s)
slice_to_lem s n h = rw (leb-le n (length s) h)

pub slice_to_whole : (s t : Bytes) → slice_to (s ++ t) (length s) ≡ done s
slice_to_whole s t =
    slice_to-append s t (length s) (omega arith) ∙ ap done (take_all (length s) s (omega arith))

pub slice-append :
    (s t : Bytes) (i j : ℕ) → i ≤ j → j ≤ length s → slice (s ++ t) i j ≡ done (drop i (take j s))
unfolding slice
slice-append s t i j h k = rw (
  leb-le i j h,
  leb-le j (length (s ++ t)) (omega (arith, length-append {0} s t)),
  take-append j s t k,
)

pub slice_lem :
    (s : Bytes) (i j : ℕ) → i ≤ j → j ≤ length s → slice s i j ≡ done (drop i (take j s))
unfolding slice
slice_lem s i j h k = rw (leb-le i j h, leb-le j (length s) k)

take-nil : (m : ℕ) → take {A = ℕ} m [] ≡ []
take-nil zero = refl
take-nil (suc m) = refl

-- A window of a string, seen from where it begins.
pub drop-take : (i n : ℕ) (s : Bytes) → drop i (take (i + n) s) ≡ take n (drop i s)
drop-take zero n s = ap (λ m. take m s) (omega arith)
drop-take (suc i) n [] = ap (λ m. drop (suc i) (take m [])) (suc-add i n) ∙ sym (take-nil n)
drop-take (suc i) n (x ∷ s) =
    ap (λ m. drop (suc i) (take m (x ∷ s))) (suc-add i n) ∙ drop-take i n s

-- A copy to the front of a zeroed array.
pub write-zeros :
    (size : ℕ) (s : Bytes)
    → length s ≤ size
    → write (zeros size) 0 s ≡ done (s ++ zeros (size - length s))
unfolding write
write-zeros size s h =
    rw
      (
        leb-le (0 + length s) (length (zeros size)) (omega (arith, length-zeros size)),
        drop-zeros (0 + length s) size,
      )
      (ap (λ n. done (s ++ zeros (size - n))) (omega arith))

-- A copy behind it.
pub write_behind :
    (s t : Bytes) (room : ℕ)
    → length t ≤ room
    → write (s ++ zeros room) (length s) t ≡ done ((s ++ t) ++ zeros (room - length t))
unfolding write
write_behind s t room h = rw (
  leb-le (length s + length t) (length (s ++ zeros room))
      (omega (arith, length-append {0} s (zeros room), length-zeros room)),
  take-length_append s (zeros room),
  ← drop-drop (length s) (length t) (s ++ zeros room),
  drop-length_append s (zeros room),
  drop-zeros (length t) room,
  append_assoc s t (zeros (room - length t)),
)

pub leb-lt : (a b : ℕ) → b < a → leb a b ≡ false
leb-lt a b h = ground arith

pub slice_out : (s : Bytes) (i j : ℕ) → length s < j → slice s i j ≡ panic
unfolding slice
slice_out s i j h = elim (Bool-cases (leb i j)) [
  | inl e ↦ rw (e, leb-lt j (length s) h)
  | inr e ↦ rw e
]

pub get_elem?_out : (s : Bytes) (i : ℕ) → length s ≤ i → get_elem? s i ≡ none
get_elem?_out [] i h = refl
get_elem?_out (x ∷ s) zero h = absurd (omega arith)
get_elem?_out (x ∷ s) (suc i) h = get_elem?_out s i (omega arith)

pub slice_to_out : (s : Bytes) (n : ℕ) → length s < n → slice_to s n ≡ panic
slice_to_out s n h = rw (leb-lt n (length s) h)

get_elem?-take : (n : ℕ) (s : Bytes) (i : ℕ) → i < n → get_elem? (take n s) i ≡ get_elem? s i
get_elem?-take zero s i h = absurd (omega arith)
get_elem?-take (suc n) [] i h = refl
get_elem?-take (suc n) (x ∷ s) zero h = refl
get_elem?-take (suc n) (x ∷ s) (suc i) h = get_elem?-take n s i (omega arith)

pub eq_of_done {ℓ} : {A : Type ℓ} (a b : A) → done a ≡ done b → a ≡ b
eq_of_done a b h = cc

pub panic-ne_done {ℓ} : {A : Type ℓ} (a : A) → panic ≢ done a
panic-ne_done a h = cc

-- What a slice shows is what the array holds there.
pub get_elem?-slice_to :
    (a s : Bytes) (n i : ℕ) → i < n → slice_to a n ≡ done s → get_elem? a i ≡ get_elem? s i
get_elem?-slice_to a s n i h e = elim (Bool-cases (leb n (length a))) [
  | inl l ↦
      let k : slice_to a n ≡ done (take n a) = rw l in
      sym (get_elem?-take n a i h) ∙ ap (λ b. get_elem? b i) (eq_of_done (take n a) s (sym k ∙ e))
  | inr l ↦ let k : slice_to a n ≡ panic = rw l in absurd (panic-ne_done s (sym k ∙ e))
]

pub slice_backwards : (s : Bytes) (i j : ℕ) → leb i j ≡ false → slice s i j ≡ panic
unfolding slice
slice_backwards s i j h = rw h

pub take-zeros : (m n : ℕ) → m ≤ n → take m (zeros n) ≡ zeros m
take-zeros zero n h = refl
take-zeros (suc m) zero h = absurd (omega arith)
take-zeros (suc m) (suc n) h = ap (λ l. 0 ∷ l) (take-zeros m n (omega arith))

-- A copy to the end of a zeroed array.
pub write_end :
    (size : ℕ) (s : Bytes)
    → length s ≤ size
    → write (zeros size) (size - length s) s ≡ done (zeros (size - length s) ++ s)
unfolding write
write_end size s h =
    let e : size - (size - length s + length s) ≡ 0 = omega arith in
    rw (
      leb-le (size - length s + length s) (length (zeros size)) (omega (arith, length-zeros size)),
      take-zeros (size - length s) size (omega arith),
      drop-zeros (size - length s + length s) size,
      e,
      append-nil s,
    )

pub bytes_cmp_self : (s : Bytes) → bytes_cmp s s ≡ Ordering.eq
unfolding bytes_cmp
bytes_cmp_self [] = refl
bytes_cmp_self (x ∷ s) = ground (arith, bytes_cmp_self s)

pub bytes_eq_iff : (s t : Bytes) → (bytes_eq s t ≡ true) ↔ (s ≡ t)
unfolding bytes_eq
bytes_eq_iff s t = (sound s t, λ e. rw e (self t))
  where
    self : (u : Bytes) → bytes_eq u u ≡ true
    self [] = refl
    self (x ∷ u) = ground (arith, self u)

    sound : (u v : Bytes) → bytes_eq u v ≡ true → u ≡ v
    sound [] [] h = refl
    sound [] (y ∷ v) h = absurd (cc)
    sound (x ∷ u) [] h = absurd (cc)
    sound (x ∷ u) (y ∷ v) h = ground (arith, sound u v)
