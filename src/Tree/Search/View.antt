-- ===== src/Tree/Search/View.antt =====
-- The search for the subtree below a prefix that collects the segments of the key in place of the
-- key (`find_prefix_subtree_view` of rart/src/tree.rs), and `LendingKeyView` (rart/src/iter.rs), the
-- key such segments stand for.
use rart_rs.Prelude.{
  ℕ, ◌+◌, ◌≡◌, refl, sym, ◌∙◌, ap, Bool, true, false, not, Option, none, some, List, [], ◌∷◌, ◌++◌,
  append-nil, length, length-append, ◌==◌, if◌then◌else◌, Run, done, panic, ◌>>=◌, run_map, arith,
}
use mathlib.Core.Option
use rart_rs.Partials.{Bytes, at, length_at, prefix_length_key}
use rart_rs.Node.{Node, node, Kids, nil, cons, prefix_of}
use rart_rs.Tree.Search.{find_prefix_subtree, find_prefix_subtree_child}

pub record LendingKeyView : Type 0 where
  pub segments : List Bytes
  pub len : ℕ

unfoldable pub write_segments : List Bytes → Bytes → Bytes
write_segments [] dst = dst
write_segments (s ∷ ss) dst = write_segments ss (dst ++ s)

unfoldable pub to_vec : LendingKeyView → Bytes
to_vec view = write_segments view.segments []

-- `cur_segments` and `cur_len`, which the search keeps, are one view here. An empty segment is left
-- out of it, at the root too.
unfoldable pub push_segment : LendingKeyView → Bytes → LendingKeyView
push_segment view [] = view
push_segment view (b ∷ s) = record {
  segments = view.segments ++ (b ∷ s) ∷ [];
  len = view.len + length (b ∷ s);
}

write_segments-push :
    (ss : List Bytes) (s dst : Bytes)
    → write_segments (ss ++ s ∷ []) dst ≡ write_segments ss dst ++ s
unfolding write_segments
write_segments-push [] s dst = refl
write_segments-push (t ∷ ss) s dst = write_segments-push ss s (dst ++ t)

pub to_vec-push :
    (view : LendingKeyView) (s : Bytes) → to_vec (push_segment view s) ≡ to_vec view ++ s
unfolding to_vec push_segment
to_vec-push view [] = sym (append-nil (write_segments view.segments []))
to_vec-push view (b ∷ s) = write_segments-push view.segments (b ∷ s) []

pub len-push : (view : LendingKeyView) (s : Bytes) → (push_segment view s).len ≡ view.len + length s
unfolding push_segment
len-push view [] = omega arith
len-push view (b ∷ s) = refl

module _ {V : Type 0} where
  unfoldable mutual
    pub find_prefix_subtree_loop :
        Node V → Bytes → ℕ → LendingKeyView → Run (Option (Node V × LendingKeyView))
    find_prefix_subtree_loop (node p v kind ks) prefix depth view = do
      let found = some (node p v kind ks, view)
      common ← prefix_length_key p prefix depth
      remaining ← length_at prefix depth
      if not (common == length p)
          then done (if common == remaining then found else none)
          else if length p == remaining
          then done found
          else do
            k ← at prefix (depth + length p)
            find_prefix_subtree_loop_child ks k prefix (depth + length p) view

    pub find_prefix_subtree_loop_child :
        Kids V → ℕ → Bytes → ℕ → LendingKeyView → Run (Option (Node V × LendingKeyView))
    find_prefix_subtree_loop_child nil k prefix depth view = done none
    find_prefix_subtree_loop_child (cons e n ks) k prefix depth view = elim (e == k) [
      | true ↦ find_prefix_subtree_loop n prefix depth (push_segment view (prefix_of n))
      | false ↦ find_prefix_subtree_loop_child ks k prefix depth view
    ]

  unfoldable pub find_prefix_subtree_view : Node V → Bytes → Run (Option (Node V × LendingKeyView))
  unfolding find_prefix_subtree_loop
  find_prefix_subtree_view n prefix =
      find_prefix_subtree_loop n prefix 0
        (push_segment (record { segments = []; len = 0 }) (prefix_of n))

  -- A node with the key that leads to it, and the length of the key.
  abbrev pub of_view : Node V × LendingKeyView → Node V × Bytes × ℕ
  of_view (n, view) = (n, to_vec view, view.len)

  abbrev pub of_key : Node V × Bytes → Node V × Bytes × ℕ
  of_key (n, key) = (n, key, length key)

  abbrev Agree : Run (Option (Node V × LendingKeyView)) → Run (Option (Node V × Bytes)) → Type 0
  Agree r r' = run_map (Option.map of_view) r ≡ run_map (Option.map of_key) r'

  module _ (n : Node V) (view : LendingKeyView) (key : Bytes)
      (same : of_view (n, view) ≡ of_key (n, key)) where
    Agree-if :
        (b : Bool)
        → Agree
            (done (if b then some (n, view) else none))
            (done (if b then some (n, key) else none))
    Agree-if true = ap (λ x. done (some x)) same
    Agree-if false = refl

    Agree-tests :
        (b c d : Bool) (next : Run (Option (Node V × LendingKeyView)))
        (next' : Run (Option (Node V × Bytes)))
        → Agree next next'
        → Agree
            (if not b
              then done (if c then some (n, view) else none)
              else if d
              then done (some (n, view))
              else next)
            (if not b
              then done (if c then some (n, key) else none)
              else if d
              then done (some (n, key))
              else next')
    Agree-tests false c d next next' h = Agree-if c
    Agree-tests true c true next next' h = Agree-if true
    Agree-tests true c false next next' h = h

  Agree-bind :
      {A : Type 0}
      → (r : Run A) (f : A → Run (Option (Node V × LendingKeyView)))
        (g : A → Run (Option (Node V × Bytes)))
      → ((a : A) → Agree (f a) (g a))
      → Agree (r >>= f) (r >>= g)
  Agree-bind (done a) f g h = h a
  Agree-bind panic f g h = refl

  Agree-edge :
      (b : Bool) (x y : Run (Option (Node V × LendingKeyView)))
      (x' y' : Run (Option (Node V × Bytes)))
      → Agree x x'
      → Agree y y'
      → Agree (elim b [ true ↦ x | false ↦ y ]) (elim b [ true ↦ x' | false ↦ y' ])
  Agree-edge true x y x' y' h k = h
  Agree-edge false x y x' y' h k = k

  same_found :
      (n : Node V) (view : LendingKeyView) (key : Bytes)
      → to_vec view ≡ key
      → view.len ≡ length key
      → of_view (n, view) ≡ of_key (n, key)
  same_found n view key h l = ap (λ q. (n, q, view.len)) h ∙ ap (λ m. (n, key, m)) l

  mutual
    unfolding find_prefix_subtree_loop find_prefix_subtree

    loop_lem :
        (n : Node V) (prefix : Bytes) (depth : ℕ) (view : LendingKeyView) (key : Bytes)
        → to_vec view ≡ key
        → view.len ≡ length key
        → Agree
            (find_prefix_subtree_loop n prefix depth view)
            (find_prefix_subtree n prefix depth key)
    loop_lem (node p v kind ks) prefix depth view key h l =
        Agree-bind (prefix_length_key p prefix depth) _ _ (λ common.
          Agree-bind (length_at prefix depth) _ _ (λ remaining.
            Agree-tests (node p v kind ks) view key (same_found (node p v kind ks) view key h l)
              (common == length p) (common == remaining) (length p == remaining) _ _
              (Agree-bind (at prefix (depth + length p)) _ _
                (λ k. loop_child_lem ks k prefix (depth + length p) view key h l))))

    loop_child_lem :
        (ks : Kids V) (k : ℕ) (prefix : Bytes) (depth : ℕ) (view : LendingKeyView) (key : Bytes)
        → to_vec view ≡ key
        → view.len ≡ length key
        → Agree
            (find_prefix_subtree_loop_child ks k prefix depth view)
            (find_prefix_subtree_child ks k prefix depth key)
    loop_child_lem nil k prefix depth view key h l = refl
    loop_child_lem (cons e n ks) k prefix depth view key h l =
        Agree-edge (e == k) _ _ _ _
          (loop_lem n prefix depth (push_segment view (prefix_of n)) (key ++ prefix_of n)
            (to_vec-push view (prefix_of n) ∙ ap (λ q. q ++ prefix_of n) h)
            (omega (arith, len-push view (prefix_of n), length-append key (prefix_of n))))
          (loop_child_lem ks k prefix depth view key h l)

  -- `find_prefix_subtree_view` finds the node that `find_prefix_subtree` finds, and panics where it
  -- does. Its segments spell the key that `find_prefix_subtree` builds, and their count of bytes is
  -- the length of the key.
  pub find_prefix_subtree_view_lem :
      (n : Node V) (prefix : Bytes)
      → run_map (Option.map of_view) (find_prefix_subtree_view n prefix)
        ≡ run_map (Option.map of_key) (find_prefix_subtree n prefix 0 (prefix_of n))
  unfolding find_prefix_subtree_view to_vec write_segments
  find_prefix_subtree_view_lem n prefix =
      loop_lem n prefix 0 (push_segment (record { segments = []; len = 0 }) (prefix_of n))
        (prefix_of n) (to_vec-push (record { segments = []; len = 0 }) (prefix_of n))
        (omega (arith, len-push (record { segments = []; len = 0 }) (prefix_of n)))
