-- ===== src/Keys/Join.antt =====
-- What a client has of any key type that keeps to the interface: cutting a key in two and joining
-- the parts, and the order of keys made of integers.
use Prim.Native.Nat.{compare, Ordering}
use rart_rs.Prelude.{
  ℕ, ◌+◌, ◌^◌, ◌≤◌, ◌<◌, ◌≡◌, sym, ◌∙◌, ap, subst, ◌++◌, length, take, drop, done, run_map, arith,
  take-append-drop, length-drop, length-take,
}
use rart_rs.Partials
use rart_rs.Partials.{Bytes}
use rart_rs.Keys.Slices.{leb-le, bytes_cmp}
use rart_rs.Keys.Interface.{PartialOps, KeyOps, IsPartial, IsKey}
use rart_rs.Keys.Numbers.{to_be_bytes}
use rart_rs.Keys.Numbers.Laws.{length-to_be_bytes, bytes_cmp-to_be_bytes}

module _ {K P : Type 0} (ops : KeyOps K P) (pops : PartialOps P) (Stands : K → Bytes → Type 0)
    (StandsPartial : P → Bytes → Type 0) (fresh : Bytes → P) (fits fits_partial joins : ℕ → Type 0)
    (key : IsKey ops Stands StandsPartial fresh fits)
    (prefix : IsPartial pops StandsPartial fresh fits_partial joins) where
  to_partial_done :
      (k : K) (s : Bytes) (n : ℕ)
      → Stands k s
      → n ≤ length s
      → ops.to_partial k n ≡ done (fresh (drop n s))
  to_partial_done k s n h l =
      key.rest k s n h
      ∙ (let e : run_map fresh (Partials.to_partial s n) ≡ done (fresh (drop n s)) =
            rw (leb-le n (length s) l) in
          e)

  -- A key of any type that keeps to the interface, cut at any depth, is joined again: the part
  -- before the depth, extended with the part from it on, has the bytes of the key.
  pub extend-truncate :
      (k : K) (s : Bytes) (n : ℕ)
      → Stands k s
      → n ≤ length s
      → fits_partial (length (drop n s))
      → (cut : K) × (rest : P) × (whole : K) × (ops.truncate k n ≡ done cut)
        × (ops.to_partial k n ≡ done rest)
        × (ops.extend_from_partial cut rest ≡ done whole)
        × (ops.as_ref whole ≡ done s)
  extend-truncate k s n h l f =
      let (cut, e, hc) = key.cut k s n h l in
      let size : length s ≡ length (take n s) + length (drop n s) =
        omega (arith, length-take {0} n s, length-drop {0} n s) in
      let (whole, e', hw) =
        key.extended cut (fresh (drop n s)) (take n s) (drop n s) hc
          (prefix.stands_fresh (drop n s) f) (subst (λ m. fits m) size (key.stands_fits k s h)) in
      (
        cut,
        fresh (drop n s),
        whole,
        e,
        to_partial_done k s n h l,
        e',
        key.reads whole (take n s ++ drop n s) hw ∙ ap done (take-append-drop n s),
      )

module _ {K P : Type 0} (ops : KeyOps K P) (Stands : K → Bytes → Type 0)
    (StandsPartial : P → Bytes → Type 0) (fresh : Bytes → P) (fits : ℕ → Type 0)
    (key : IsKey ops Stands StandsPartial fresh fits) where
  ordered :
      (s t : Bytes) (o : Ordering)
      → fits (length s)
      → fits (length t)
      → bytes_cmp s t ≡ o
      → (k l : K) × (ops.new_from_slice s ≡ done k)
        × (ops.new_from_slice t ≡ done l)
        × (ops.cmp k l ≡ done o)
  ordered s t o f g e =
      let (k, built, h) = key.builds s f in
      let (l, built', h') = key.builds t g in
      (k, l, built, built', key.orders k l s t h h' ∙ ap done e)

  -- Keys of any type, made of unsigned integers of one width, are ordered as the integers.
  pub unsigned_order :
      (width a b : ℕ)
      → fits width
      → a < 256 ^ width
      → b < 256 ^ width
      → (k l : K) × (ops.new_from_slice (to_be_bytes width a) ≡ done k)
        × (ops.new_from_slice (to_be_bytes width b) ≡ done l)
        × (ops.cmp k l ≡ done (compare a b))
  unsigned_order width a b f p q =
      ordered (to_be_bytes width a) (to_be_bytes width b) (compare a b)
        (subst (λ m. fits m) (sym (length-to_be_bytes width a)) f)
        (subst (λ m. fits m) (sym (length-to_be_bytes width b)) f)
        (bytes_cmp-to_be_bytes width a b p q)
