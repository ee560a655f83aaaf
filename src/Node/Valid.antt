-- ===== src/Node/Valid.antt =====
-- The representation invariant of nodes, and that adding and deleting children keep it.
use rart_rs.Prelude.{ℕ, ◌<◌, ◌≤◌, ◌≡◌, Option, none, [], ◌∷◌, ◌++◌}
use rart_rs.Node.{Node, node, Kids, nil, cons, Kind, num_children, capacity, prefix_of}
use rart_rs.Partials.{Bytes}

abbrev pub IsBytes : Bytes → Type 0
IsBytes [] = Unit
IsBytes (x ∷ p) = (x < 256) × IsBytes p

pub IsBytes-append : (p q : Bytes) → IsBytes p → IsBytes q → IsBytes (p ++ q)
IsBytes-append [] q a b = b
IsBytes-append (x ∷ p) q a b = (a.0, IsBytes-append p q a.1 b)

pub IsBytes-left : (p q : Bytes) → IsBytes (p ++ q) → IsBytes p
IsBytes-left [] q h = tt
IsBytes-left (x ∷ p) q h = (h.0, IsBytes-left p q h.1)

pub IsBytes-right : (p q : Bytes) → IsBytes (p ++ q) → IsBytes q
IsBytes-right [] q h = h
IsBytes-right (x ∷ p) q h = IsBytes-right p q h.1

-- The edge by which a child is reached is the first byte of its prefix.
abbrev pub BeginsWith : ℕ → Bytes → Type 0
BeginsWith e [] = ⊥
BeginsWith e (x ∷ p) = x ≡ e

module _ {V : Type 0} where
  -- A node with no value has a child: no subtree is dead.
  abbrev pub Alive : Option V → Kids V → Type 0
  Alive none nil = ⊥
  Alive _ _ = Unit

  abbrev pub Fits : Kind → Kids V → Type 0
  Fits kind ks = num_children ks ≤ capacity kind

  abbrev pub Above : ℕ → Kids V → Type 0
  Above lo nil = Unit
  Above lo (cons e n ks) = (lo < e) × Above lo ks

  abbrev mutual
    pub IsValid : Node V → Type 0
    IsValid (node p v kind ks) = Fits kind ks × Alive v ks × ValidKids ks × IsBytes p

    pub ValidKids : Kids V → Type 0
    ValidKids nil = Unit
    ValidKids (cons e n ks) =
        (e < 256) × BeginsWith e (prefix_of n) × IsValid n × Above e ks × ValidKids ks

  -- What is known of the child at the edge `k`.
  abbrev pub ValidChild : ℕ → Node V → Type 0
  ValidChild k c = (k < 256) × BeginsWith k (prefix_of c) × IsValid c
