-- ===== src/Iter/Entries.antt =====
-- The entries that a node stands for, as one list in the order in which it is walked: its own value,
-- then its children's entries.
use rart_rs.Prelude.{
  ◌≡◌, refl, Option, none, some, List, [], ◌∷◌, ◌++◌, append_assoc, append-nil, length,
}
use rart_rs.Partials.{Bytes}
use rart_rs.Node.{Node, node, Kids, nil, cons}

module _ {V : Type 0} where
  -- The entries with `p` before each key.
  abbrev pub under : Bytes → List (Bytes × V) → List (Bytes × V)
  under p [] = []
  under p ((k, v) ∷ l) = (p ++ k, v) ∷ under p l

  abbrev pub entry : Bytes → Option V → List (Bytes × V)
  entry key none = []
  entry key (some v) = (key, v) ∷ []

  unfoldable mutual
    pub entries : Node V → List (Bytes × V)
    entries (node p v kind ks) = under p (entry [] v ++ entries_kids ks)

    pub entries_kids : Kids V → List (Bytes × V)
    entries_kids nil = []
    entries_kids (cons e n ks) = entries n ++ entries_kids ks

  pub under-append :
      (p : Bytes) (l r : List (Bytes × V)) → under p (l ++ r) ≡ under p l ++ under p r
  under-append p [] r = refl
  under-append p ((k, v) ∷ l) r = rw (under-append p l r)

  pub under-under : (p q : Bytes) (l : List (Bytes × V)) → under p (under q l) ≡ under (p ++ q) l
  under-under p q [] = refl
  under-under p q ((k, v) ∷ l) = rw (under-under p q l, append_assoc)

  pub under-nil : (l : List (Bytes × V)) → under [] l ≡ l
  under-nil [] = refl
  under-nil ((k, v) ∷ l) = rw (under-nil l)

  pub under-entry : (p : Bytes) (v : Option V) → under p (entry [] v) ≡ entry p v
  under-entry p none = refl
  under-entry p (some v) = rw (append-nil p)

  pub length-under : (p : Bytes) (l : List (Bytes × V)) → length (under p l) ≡ length l
  length-under p [] = refl
  length-under p ((k, v) ∷ l) = rw (length-under p l)
