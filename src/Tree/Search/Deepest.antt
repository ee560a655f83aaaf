-- ===== src/Tree/Search/Deepest.antt =====
-- The longest stored prefix of a byte string, as a function of the node with no depth in it, and
-- that it is the longest.
use rart_rs.Prelude.{
  subst, ℕ, ◌<◌, ◌≡◌, ◌≢◌, refl, sym, ◌∙◌, ap, true, false, Option, none, some, [], ◌∷◌, ◌++◌,
  length, length-append, ◌==◌, arith, inl, inr, eq_or_ne, eq_of_some, append_assoc, append-nil,
}
use rart_rs.Partials.{Bytes}
use rart_rs.Partials.Laws.{strip, strip_self, strip-below, stripped, missing, ends, goes_on}
use rart_rs.Node.{seek, Node, node, Kids, nil, cons, Kind}
use rart_rs.Node.Valid.{IsValid, ValidKids}
use rart_rs.Node.Lookup.{
  lookup_edge_nil, lookup, lookup_kids, lookup_missing, lookup_end, lookup_below, kids_here,
  kids_there,
}

append_cancel : (p a b : Bytes) → p ++ a ≡ p ++ b → a ≡ b
append_cancel p a b h = eq_of_some a b (sym (strip-below p a) ∙ ap (strip p) h ∙ strip-below p b)

strip-ne_none : (p s : Bytes) → strip p (p ++ s) ≢ none
strip-ne_none p s h = some_ne s (sym (strip-below p s) ∙ h)
  where
    some_ne : (r : Bytes) → some r ≢ none
    some_ne r z = cc

-- A string that does not begin with `p` has no prefix that does.
strip_shorter : (p q s : Bytes) → strip p (q ++ s) ≡ none → strip p q ≡ none
strip_shorter p q s h = elim (stripped p q) [
  | missing m ↦ m
  | ends m ↦ absurd (strip-ne_none p s (rw m at h))
  | goes_on e t m ↦
      absurd
        (strip-ne_none p (e ∷ t ++ s) (ap (strip p) (sym (append_assoc p (e ∷ t) s)) ∙ (rw m at h)))
]

longer : (p : Bytes) (e : ℕ) (t : Bytes) → p ++ e ∷ t ≢ p
longer p e t z = omega (arith, ap length z, length-append p (e ∷ t))

nil-ne_cons : (e : ℕ) (t : Bytes) → [] ≢ e ∷ t
nil-ne_cons e t h = cc

same_head : (e f : ℕ) (s t : Bytes) → e ∷ s ≡ f ∷ t → f ≡ e
same_head e f s t h = cc

module _ {V : Type 0} where
  -- A match below a prefix, or else the value at the prefix.
  abbrev pub deeper : Bytes → Option V → Option (Bytes × V) → Option (Bytes × V)
  deeper p v (some (q, x)) = some (p ++ q, x)
  deeper p (some x) none = some (p, x)
  deeper p none none = none

  abbrev pub after :
      Bytes → Option V → Option Bytes → (ℕ → Bytes → Option (Bytes × V)) → Option (Bytes × V)
  after p v none child = none
  after p v (some []) child = deeper p v none
  after p v (some (k ∷ r)) child = deeper p v (child k (k ∷ r))

  unfoldable mutual
    pub deepest : Node V → Bytes → Option (Bytes × V)
    deepest (node p v kind ks) rest = after p v (strip p rest) (deepest_kids ks)

    pub deepest_kids : Kids V → ℕ → Bytes → Option (Bytes × V)
    deepest_kids nil k rest = none
    deepest_kids (cons e n ks) k rest = elim (e == k) [
      | true ↦ deepest n rest
      | false ↦ deepest_kids ks k rest
    ]

  -- `found` is the longest prefix of `key` at which the map `m` has a value.
  abbrev pub IsLongest : (Bytes → Option V) → Bytes → Option (Bytes × V) → Type 0
  IsLongest m key none = (q s : Bytes) → key ≡ q ++ s → m q ≡ none
  IsLongest m key (some (p, x)) =
      ((r : Bytes) × (key ≡ p ++ r))
      × (m p ≡ some x)
      × ((q s : Bytes) → key ≡ q ++ s → length p < length q → m q ≡ none)

  lookup_kids_no : (e : ℕ) (q : Bytes) → lookup_kids {V = V} nil e q ≡ none
  unfolding lookup
  lookup_kids_no e q = refl

  lookup_kids_nil : (ks : Kids V) (e : ℕ) → ValidKids ks → lookup_kids ks e [] ≡ none
  unfolding seek
  lookup_kids_nil nil e w = lookup_kids_no e []
  lookup_kids_nil (cons f (node q u kind js) ks) e w = elim (eq_or_ne f e) [
    | inl t ↦ rw (t, kids_here e (node q u kind js) ks []) (lookup_edge_nil f q u kind js w.1)
    | inr ne ↦ rw (kids_there f (node q u kind js) ks e [] ne) (lookup_kids_nil ks e w.4)
  ]

  module _ (p : Bytes) (v : Option V) (kind : Kind) (ks : Kids V) where
    IsLongest-missing :
        (key : Bytes) → strip p key ≡ none → IsLongest (lookup (node p v kind ks)) key none
    IsLongest-missing key h q s e = lookup_missing v kind ks p q (strip_shorter p q s (rw e at h))

    -- No longer prefix than `p` has a value, if none has behind `p`.
    longest_beyond :
        (rest : Bytes)
        → ((e : ℕ) (t s : Bytes) → rest ≡ e ∷ t ++ s → lookup_kids ks e (e ∷ t) ≡ none)
        → (q s : Bytes) → p ++ rest ≡ q ++ s
        → q ≢ p
        → lookup (node p v kind ks) q ≡ none
    longest_beyond rest h q s eq ne = elim (stripped p q) [
      | missing m ↦ lookup_missing v kind ks p q m
      | ends m ↦ absurd (ne m)
      | goes_on e t m ↦
          rw (m, lookup_below v kind ks p e t)
            (h e t s (
              append_cancel p rest (e ∷ t ++ s)
                (eq ∙ (ap (λ l. l ++ s) m ∙ append_assoc p (e ∷ t) s))))
    ]

    IsLongest-below :
        (e : ℕ) (s t : Bytes) (x : V)
        → IsLongest (lookup_kids ks e) (e ∷ s) (some (e ∷ t, x))
        → IsLongest (lookup (node p v kind ks)) (p ++ e ∷ s) (some (p ++ e ∷ t, x))
    IsLongest-below e s t x i = (
      (i.0.0, ap (λ l. p ++ l) i.0.1 ∙ sym (append_assoc p (e ∷ t) i.0.0)),
      lookup_below v kind ks p e t ∙ i.1,
      λ q s' eq lt. elim (stripped p q) [
        | missing m ↦ lookup_missing v kind ks p q m
        | ends m ↦ absurd (omega (arith, ap length m, length-append p (e ∷ t)))
        | goes_on f u m ↦
            let rest =
              append_cancel p (e ∷ s) (f ∷ u ++ s')
                (eq ∙ (ap (λ l. l ++ s') m ∙ append_assoc p (f ∷ u) s')) in
            let same : f ≡ e = same_head e f s (u ++ s') rest in
            rw (m, lookup_below v kind ks p f u, ap (λ k. lookup_kids ks k (f ∷ u)) same)
              (i.2 (f ∷ u) s' rest
                (omega (arith, ap length m, length-append p (e ∷ t), length-append p (f ∷ u))))
      ],
    )

  IsLongest-value :
      (p : Bytes) (v : Option V) (kind : Kind) (ks : Kids V) (rest : Bytes)
      → ((e : ℕ) (t s : Bytes) → rest ≡ e ∷ t ++ s → lookup_kids ks e (e ∷ t) ≡ none)
      → IsLongest (lookup (node p v kind ks)) (p ++ rest) (deeper p v none)
  IsLongest-value p none kind ks rest h = λ q s eq. elim (stripped p q) [
    | missing m ↦ lookup_missing none kind ks p q m
    | ends m ↦ rw m (lookup_end none kind ks p)
    | goes_on e t m ↦ longest_beyond p none kind ks rest h q s eq (λ z. longer p e t (sym m ∙ z))
  ]
  IsLongest-value p (some x) kind ks rest h = (
    (rest, refl),
    lookup_end (some x) kind ks p,
    λ q s eq lt. longest_beyond p (some x) kind ks rest h q s eq (λ m. omega (arith, ap length m)),
  )

  IsLongest-here :
      (p : Bytes) (v : Option V) (kind : Kind) (ks : Kids V)
      → IsLongest (lookup (node p v kind ks)) p (deeper p v none)
  IsLongest-here p v kind ks =
      subst (λ l. IsLongest (lookup (node p v kind ks)) l (deeper p v none)) (append-nil p)
        (IsLongest-value p v kind ks [] (λ e t s eq. absurd (nil-ne_cons e (t ++ s) eq)))

  IsLongest-cong :
      (m m' : Bytes → Option V) (key : Bytes) (o : Option (Bytes × V))
      → ((q : Bytes) → m' q ≡ m q)
      → IsLongest m key o
      → IsLongest m' key o
  IsLongest-cong m m' key none h i = λ q s eq. h q ∙ i q s eq
  IsLongest-cong m m' key (some (p, x)) h i = (i.0, h p ∙ i.1, λ q s eq lt. h q ∙ i.2 q s eq lt)

  IsLongest-deeper :
      (p : Bytes) (v : Option V) (kind : Kind) (ks : Kids V) (e : ℕ) (s : Bytes)
      (o : Option (Bytes × V))
      → ValidKids ks
      → IsLongest (lookup_kids ks e) (e ∷ s) o
      → IsLongest (lookup (node p v kind ks)) (p ++ e ∷ s) (deeper p v o)
  IsLongest-deeper p v kind ks e s none w i = IsLongest-value p v kind ks (e ∷ s) (λ f t s' eq.
      ap (λ k. lookup_kids ks k (f ∷ t)) (same_head e f s (t ++ s') eq) ∙ i (f ∷ t) s' eq)
  IsLongest-deeper p v kind ks e s (some ([], x)) w i =
      absurd (some_ne (sym i.1 ∙ lookup_kids_nil ks e w))
    where
      some_ne : some x ≢ none
      some_ne z = cc
  IsLongest-deeper p v kind ks e s (some (f ∷ t, x)) w i =
      rw (same_head e f s (t ++ i.0.0) i.0.1)
        (IsLongest-below p v kind ks e s t x (rw (same_head e f s (t ++ i.0.0) i.0.1) at i))

  module _ (v : Option V) (kind : Kind) (ks : Kids V) where
    pub deepest_missing :
        (p rest : Bytes) → strip p rest ≡ none → deepest (node p v kind ks) rest ≡ none
    unfolding deepest
    deepest_missing p rest h = rw h

    pub deepest_end : (p : Bytes) → deepest (node p v kind ks) p ≡ deeper p v none
    unfolding deepest
    deepest_end p = rw (strip_self p)

    pub deepest_below :
        (p : Bytes) (e : ℕ) (s : Bytes)
        → deepest (node p v kind ks) (p ++ e ∷ s) ≡ deeper p v (deepest_kids ks e (e ∷ s))
    unfolding deepest
    deepest_below p e s = rw (strip-below p (e ∷ s))

  pub deepest_kids_here :
      (e : ℕ) (n : Node V) (ks : Kids V) (r : Bytes) → deepest_kids (cons e n ks) e r ≡ deepest n r
  unfolding deepest
  deepest_kids_here e n ks r = ground arith

  pub deepest_kids_there :
      (f : ℕ) (n : Node V) (ks : Kids V) (k : ℕ) (r : Bytes)
      → f ≢ k
      → deepest_kids (cons f n ks) k r ≡ deepest_kids ks k r
  unfolding deepest
  deepest_kids_there f n ks k r h = ground arith

  mutual
    unfolding deepest

    pub deepest_node_lem :
        (n : Node V) (rest : Bytes) → IsValid n → IsLongest (lookup n) rest (deepest n rest)
    deepest_node_lem (node p v kind ks) rest w = elim (stripped p rest) [
      | missing m ↦ rw (deepest_missing v kind ks p rest m) (IsLongest-missing p v kind ks rest m)
      | ends m ↦ rw (m, deepest_end v kind ks p) (IsLongest-here p v kind ks)
      | goes_on e s m ↦
          rw (m, deepest_below v kind ks p e s)
            (IsLongest-deeper p v kind ks e s (deepest_kids ks e (e ∷ s)) w.2
              (deepest_kids_lem ks e s w.2))
    ]

    deepest_kids_lem :
        (ks : Kids V) (e : ℕ) (s : Bytes)
        → ValidKids ks
        → IsLongest (lookup_kids ks e) (e ∷ s) (deepest_kids ks e (e ∷ s))
    deepest_kids_lem nil e s w = λ q t eq. lookup_kids_no e q
    deepest_kids_lem (cons f n ks) e s w = elim (eq_or_ne f e) [
      | inl t ↦
          rw (t, deepest_kids_here e n ks (e ∷ s))
            (IsLongest-cong (lookup n) (lookup_kids (cons e n ks) e) (e ∷ s) (deepest n (e ∷ s))
              (λ q. kids_here e n ks q) (deepest_node_lem n (e ∷ s) w.2))
      | inr ne ↦ rw (deepest_kids_there f n ks e (e ∷ s) ne) (
          IsLongest-cong (lookup_kids ks e) (lookup_kids (cons f n ks) e) (e ∷ s)
            (deepest_kids ks e (e ∷ s)) (λ q. kids_there f n ks e q ne)
            (deepest_kids_lem ks e s w.4))
    ]
