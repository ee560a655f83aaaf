-- ===== src/Iter/Sorted.antt =====
-- The entries of a valid node ascend, and are the map that the node stands for.
use rart_rs.Prelude.{
  ℕ, ◌<◌, ◌≡◌, refl, sym, ◌∙◌, Option, none, some, List, [], ◌∷◌, ◌++◌, length, length-append,
  append-nil, arith, inl, inr, eq_or_ne,
}
use rart_rs.Partials.{Bytes}
use rart_rs.Partials.Laws.{stripped, missing, ends, goes_on}
use rart_rs.Keys.Slices.{bytes_cmp}
use rart_rs.Node.{Node, node, Kids, nil, cons, prefix_of}
use rart_rs.Node.Valid.{IsValid, ValidKids, Above, BeginsWith}
use rart_rs.Node.Lookup.{
  lookup, lookup_kids, kids_here, kids_there, lookup_missing, lookup_end, lookup_below,
}
use rart_rs.Node.Size.{size, size_kids, found}
use rart_rs.Iter.Order.{Precedes-under, Precedes-fork}
use rart_rs.Iter.Entries.{under, entry, entries, entries_kids, length-under}
use rart_rs.Iter.Find.{
  find, AllAbove, IsAscending, Starts, or_later, find-append, find-under, find_missing,
  find-Starts_ne, find-Starts_nil, Starts-append, Starts-weaken, Starts-under,
}

module _ {V : Type 0} where
  AllAbove-append :
      (key : Bytes) (l r : List (Bytes × V))
      → AllAbove key l
      → AllAbove key r
      → AllAbove key (l ++ r)
  AllAbove-append key [] r a b = b
  AllAbove-append key ((k, v) ∷ l) r a b = (a.0, AllAbove-append key l r a.1 b)

  pub AllAbove-under :
      (p key : Bytes) (l : List (Bytes × V)) → AllAbove key l → AllAbove (p ++ key) (under p l)
  AllAbove-under p key [] a = tt
  AllAbove-under p key ((k, v) ∷ l) a = (Precedes-under p key k a.0, AllAbove-under p key l a.1)

  pub IsAscending-under :
      (p : Bytes) (l : List (Bytes × V)) → IsAscending l → IsAscending (under p l)
  IsAscending-under p [] a = tt
  IsAscending-under p ((k, v) ∷ l) a = (AllAbove-under p k l a.0, IsAscending-under p l a.1)

  -- A key with a lesser first byte is before all.
  AllAbove-Starts :
      (e : ℕ) (k : Bytes) (r : List (Bytes × V)) → Starts (λ y. e < y) r → AllAbove (e ∷ k) r
  AllAbove-Starts e k [] s = tt
  AllAbove-Starts e k (([], v) ∷ r) s = absurd s
  AllAbove-Starts e k ((y ∷ q, v) ∷ r) s = (Precedes-fork e y k q s.0, AllAbove-Starts e k r s.1)

  pub AllAbove-nil : (P : ℕ → Type 0) (r : List (Bytes × V)) → Starts P r → AllAbove [] r
  unfolding bytes_cmp
  AllAbove-nil P [] s = tt
  AllAbove-nil P (([], v) ∷ r) s = absurd s
  AllAbove-nil P ((y ∷ q, v) ∷ r) s = (refl, AllAbove-nil P r s.1)

  IsAscending-append :
      (e : ℕ) (l r : List (Bytes × V))
      → IsAscending l
      → IsAscending r
      → Starts (λ y. y ≡ e) l
      → Starts (λ y. e < y) r
      → IsAscending (l ++ r)
  IsAscending-append e [] r a b s t = b
  IsAscending-append e (([], v) ∷ l) r a b s t = absurd s
  IsAscending-append e ((x ∷ k, v) ∷ l) r a b s t = (
    AllAbove-append (x ∷ k) l r a.0 (AllAbove-Starts x k r (rw (s.0) t)),
    IsAscending-append e l r a.1 b s.1 t,
  )

  pub node_Starts :
      (e : ℕ) (n : Node V) → BeginsWith e (prefix_of n) → Starts (λ y. y ≡ e) (entries n)
  unfolding entries
  node_Starts e (node [] v kind ks) b = absurd b
  node_Starts e (node (x ∷ p) v kind ks) b =
      Starts-under (λ y. y ≡ e) x p (entry [] v ++ entries_kids ks) b

  kids_Starts :
      (lo : ℕ) (ks : Kids V) → Above lo ks → ValidKids ks → Starts (λ y. lo < y) (entries_kids ks)
  unfolding entries
  kids_Starts lo nil a w = tt
  kids_Starts lo (cons e n ks) a w =
      Starts-append (λ y. lo < y) (entries n) (entries_kids ks)
        (Starts-weaken (λ y. y ≡ e) (λ y. lo < y) (entries n) (λ y h. omega arith)
          (node_Starts e n w.1))
        (kids_Starts lo ks a.1 w.4)

  pub any_Starts : (ks : Kids V) → ValidKids ks → Starts (λ y. Unit) (entries_kids ks)
  unfolding entries
  any_Starts nil w = tt
  any_Starts (cons e n ks) w =
      Starts-append (λ y. Unit) (entries n) (entries_kids ks)
        (Starts-weaken (λ y. y ≡ e) (λ y. Unit) (entries n) (λ y h. tt) (node_Starts e n w.1))
        (any_Starts ks w.4)

  IsAscending-entry :
      (v : Option V) (l : List (Bytes × V))
      → Starts (λ y. Unit) l
      → IsAscending l
      → IsAscending (entry [] v ++ l)
  IsAscending-entry none l s a = a
  IsAscending-entry (some v) l s a = (AllAbove-nil (λ y. Unit) l s, a)

  mutual
    unfolding entries

    pub entries-IsAscending : (n : Node V) → IsValid n → IsAscending (entries n)
    entries-IsAscending (node p v kind ks) w =
        IsAscending-under p (entry [] v ++ entries_kids ks)
          (IsAscending-entry v (entries_kids ks) (any_Starts ks w.2) (kids-IsAscending ks w.2))

    pub kids-IsAscending : (ks : Kids V) → ValidKids ks → IsAscending (entries_kids ks)
    kids-IsAscending nil w = tt
    kids-IsAscending (cons e n ks) w =
        IsAscending-append e (entries n) (entries_kids ks) (entries-IsAscending n w.2)
          (kids-IsAscending ks w.4) (node_Starts e n w.1) (kids_Starts e ks w.3 w.4)

  find-entry_nil :
      (v : Option V) (l : List (Bytes × V)) → find [] l ≡ none → find [] (entry [] v ++ l) ≡ v
  unfolding find bytes_cmp
  find-entry_nil none l h = h
  find-entry_nil (some v) l h = refl

  find-entry_cons :
      (v : Option V) (l : List (Bytes × V)) (x : ℕ) (r : Bytes)
      → find (x ∷ r) (entry [] v ++ l) ≡ find (x ∷ r) l
  unfolding find bytes_cmp
  find-entry_cons none l x r = refl
  find-entry_cons (some v) l x r = refl

  none_first : (o : Option V) → or_later o none ≡ o
  none_first none = refl
  none_first (some v) = refl

  find_no_kids :
      (e : ℕ) (s : Bytes) → find (e ∷ s) (entries_kids {V = V} nil) ≡ lookup_kids nil e (e ∷ s)
  unfolding entries find lookup
  find_no_kids e s = refl

  mutual
    unfolding entries

    pub find-entries : (n : Node V) (key : Bytes) → IsValid n → find key (entries n) ≡ lookup n key
    find-entries (node p v kind ks) key w = elim (stripped p key) [
      | missing h ↦
          find_missing p key (entry [] v ++ entries_kids ks) h
          ∙ sym (lookup_missing v kind ks p key h)
      | ends h ↦ rw h (
          rw (append-nil p) at (find-under p [] (entry [] v ++ entries_kids ks))
          ∙ find-entry_nil v (entries_kids ks)
              (find-Starts_nil (λ y. Unit) (entries_kids ks) (any_Starts ks w.2))
          ∙ sym (lookup_end v kind ks p))
      | goes_on e s h ↦ rw h (
          find-under p (e ∷ s) (entry [] v ++ entries_kids ks)
          ∙ find-entry_cons v (entries_kids ks) e s
          ∙ find-kids ks e s w.2
          ∙ sym (lookup_below v kind ks p e s))
    ]

    pub find-kids :
        (ks : Kids V) (e : ℕ) (s : Bytes)
        → ValidKids ks
        → find (e ∷ s) (entries_kids ks) ≡ lookup_kids ks e (e ∷ s)
    find-kids nil e s w = find_no_kids e s
    find-kids (cons f n ks) e s w = elim (eq_or_ne f e) [
      | inl t ↦ rw (
        find-append (e ∷ s) (entries n) (entries_kids ks),
        find-Starts_ne (λ y. f < y) e s (entries_kids ks) (kids_Starts f ks w.3 w.4)
            (λ h. omega arith),
        find-entries n (e ∷ s) w.2,
        none_first (lookup n (e ∷ s)),
        t,
        kids_here e n ks (e ∷ s),
      )
      | inr ne ↦
          rw
            (
              find-append (e ∷ s) (entries n) (entries_kids ks),
              find-Starts_ne (λ y. y ≡ f) e s (entries n) (node_Starts f n w.1) (λ h. ne (sym h)),
              kids_there f n ks e (e ∷ s) ne,
            )
            (find-kids ks e s w.4)
    ]

  length-entry : (v : Option V) → length (entry [] v) ≡ found v
  length-entry none = refl
  length-entry (some v) = refl

  mutual
    unfolding entries size

    pub length-entries : (n : Node V) → length (entries n) ≡ size n
    length-entries (node p v kind ks) = omega (
      arith,
      length-under p (entry [] v ++ entries_kids ks),
      length-append (entry [] v) (entries_kids ks),
      length-entry v,
      length-kids ks,
    )

    length-kids : (ks : Kids V) → length (entries_kids ks) ≡ size_kids ks
    length-kids nil = refl
    length-kids (cons e n ks) =
        omega (arith, length-append (entries n) (entries_kids ks), length-entries n, length-kids ks)
