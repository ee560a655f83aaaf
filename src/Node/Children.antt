-- ===== src/Node/Children.antt =====
-- Adding and deleting a child: no branch that panics is reached on valid nodes, the kinds have room
-- for their children, and the invariant is kept.
use rart_rs.Prelude.{
  ℕ, suc, ◌+◌, ◌<◌, ◌≤◌, ◌≡◌, ◌≢◌, refl, Option, none, some, leb, ltb, if◌then◌else◌, done, arith,
  inl, inr, Bool-cases, lt-ltb, le-ltb,
}
use rart_rs.Node.{
  Node, node, Kids, nil, cons, Kind, empty, node4, node16, node48, node256, num_children, seek, add,
  add_child, room_for, capacity,
}
use rart_rs.Node.Valid.{IsValid, ValidKids, Above, Fits, Alive, IsBytes, ValidChild}
use rart_rs.Partials.{Bytes}

-- The kind that a node of `n` children has after it made room for one more.
abbrev pub kind_for : Kind → ℕ → Kind
kind_for empty n = node4
kind_for node4 n = if leb 4 n then node16 else node4
kind_for node16 n = if leb 16 n then node48 else node16
kind_for node48 n = if leb 48 n then node256 else node48
kind_for node256 n = node256

room_for_lem :
    (kind : Kind) (n : ℕ)
    → n ≤ capacity kind
    → n < 256
    → (room_for kind n ≡ done (kind_for kind n)) × (n < capacity (kind_for kind n))
unfolding room_for capacity
room_for_lem empty n h k = ground arith
room_for_lem kind n h k = ground arith

module _ {V : Type 0} where
  pub num_children-add :
      (k : ℕ) (c : Node V) (ks : Kids V) → num_children (add k c ks) ≡ suc (num_children ks)
  unfolding num_children add
  num_children-add k c nil = refl
  num_children-add k c (cons e n ks) = ground (arith, num_children-add k c ks)

  Above-add : (lo k : ℕ) (c : Node V) (ks : Kids V) → lo < k → Above lo ks → Above lo (add k c ks)
  unfolding add
  Above-add lo k c nil h a = (h, tt)
  Above-add lo k c (cons e n ks) h a = ground (arith, Above-add lo k c ks)

  Above-trans : (lo k : ℕ) (ks : Kids V) → lo ≤ k → Above k ks → Above lo ks
  Above-trans lo k nil h a = tt
  Above-trans lo k (cons e n ks) h a = (omega arith, Above-trans lo k ks h a.1)

  num_children_below :
      (lo : ℕ) (ks : Kids V) → lo < 256 → Above lo ks → ValidKids ks → num_children ks + lo < 256
  unfolding num_children
  num_children_below lo nil h a v = omega arith
  num_children_below lo (cons e n ks) h a v = omega (arith, num_children_below e ks v.0 v.3 v.4)

  -- There are at most 256 children, one for each byte.
  num_children-le : (ks : Kids V) → ValidKids ks → num_children ks ≤ 256
  unfolding num_children
  num_children-le nil v = omega arith
  num_children-le (cons e n ks) v = omega (arith, num_children_below e ks v.0 v.3 v.4)

  seek-eq_none_tail :
      (k e : ℕ) (n : Node V) (ks : Kids V)
      → seek k (cons e n ks) ≡ none
      → (e ≢ k) × (seek k ks ≡ none)
  unfolding seek
  seek-eq_none_tail k e n ks h = ground arith

  pub ValidKids-add :
      (k : ℕ) (c : Node V) (ks : Kids V)
      → ValidChild k c
      → seek k ks ≡ none
      → ValidKids ks
      → ValidKids (add k c ks)
  unfolding add
  ValidKids-add k c nil v s w = (v.0, v.1, v.2, tt, tt)
  ValidKids-add k c (cons e n ks) v s w =
      let (ne, s') = seek-eq_none_tail k e n ks s in
      elim (Bool-cases (ltb k e)) [
        | inl t ↦
            let h : k < e = lt-ltb k e t in
            rw t (v.0, v.1, v.2, (h, Above-trans k e ks (omega arith) w.3), w)
        | inr f ↦
            let h : e < k = omega (arith, le-ltb k e f) in
            rw f (w.0, w.1, w.2, Above-add e k c ks h w.3, ValidKids-add k c ks v s' w.4)
      ]

  -- A full list of children has no room for another edge.
  pub num_children-lt :
      (k : ℕ) (c : Node V) (ks : Kids V)
      → ValidChild k c
      → seek k ks ≡ none
      → ValidKids ks
      → num_children ks < 256
  num_children-lt k c ks v s w =
      omega
        (arith, num_children-le (add k c ks) (ValidKids-add k c ks v s w), num_children-add k c ks)

  pub add_child_lem :
      (k : ℕ) (c : Node V) (p : Bytes) (v : Option V) (kind : Kind) (ks : Kids V)
      → ValidChild k c
      → seek k ks ≡ none
      → Fits kind ks
      → ValidKids ks
      → (add_child k c (node p v kind ks)
          ≡ done (node p v (kind_for kind (num_children ks)) (add k c ks)))
        × Fits (kind_for kind (num_children ks)) (add k c ks)
        × ValidKids (add k c ks)
  unfolding add_child
  add_child_lem k c p v kind ks valid s f w =
      let room = room_for_lem kind (num_children ks) f (num_children-lt k c ks valid s w) in
      (rw room.0, omega (arith, room.1, num_children-add k c ks), ValidKids-add k c ks valid s w)

  pub Alive-add : (k : ℕ) (c : Node V) (v : Option V) (ks : Kids V) → Alive v (add k c ks)
  unfolding add
  Alive-add k c none nil = tt
  Alive-add k c (some v) nil = tt
  Alive-add k c none (cons e n ks) = elim (Bool-cases (ltb k e)) [
    | inl t ↦ rw t tt
    | inr f ↦ rw f tt
  ]
  Alive-add k c (some v) (cons e n ks) = tt

  pub leaf-IsValid : (p : Bytes) (v : V) → IsBytes p → IsValid (node p (some v) empty nil)
  unfolding num_children capacity
  leaf-IsValid p v b = (omega arith, tt, tt, b)
