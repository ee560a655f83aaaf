-- ===== src/Versioned/Remove/Delete.antt =====
-- `delete_recurse` does what `remove_recurse` does, without the value.
use rart_rs.Prelude.{
  ℕ, ◌+◌, ◌≡◌, refl, Bool, true, false, not, ◌&&◌, Option, none, some, ◌==◌, if◌then◌else◌, Run,
  done, panic, ◌>>=◌, length, unwrap, run_map,
}
use mathlib.Core.Option
use rart_rs.Partials.{Bytes, at, length_at, prefix_length_key}
use rart_rs.Node.{is_leaf}
use rart_rs.Versioned.{VersionedNode, versioned, Children, end, more, num_children, owned}
use rart_rs.Versioned.Remove.{
  RemoveResult, DeleteResult, keep_node, put_back, settle_remove, settle_delete, take_value,
  drop_value, leaf_remove, leaf_delete, remove_recurse, remove_child, delete_recurse, delete_below,
}

-- The same steps before two functions, one of which gives less.
module _ {ℓ κ μ} {A : Type ℓ} {B : Type κ} {C : Type μ} (g : B → C) where
  bind-run_map :
      (m : Run A) (f : A → Run B) (f' : A → Run C)
      → ((a : A) → f' a ≡ run_map g (f a))
      → (m >>= f') ≡ run_map g (m >>= f)
  bind-run_map (done a) f f' h = h a
  bind-run_map panic f f' h = refl

  run_map-bind {ν} :
      {D : Type ν} (k : A → D) (m : Run A) (f : A → Run B) (f' : D → Run C)
      → ((a : A) → f' (k a) ≡ run_map g (f a))
      → (run_map k m >>= f') ≡ run_map g (m >>= f)
  run_map-bind k (done a) f f' h = h a
  run_map-bind k panic f f' h = refl

module _ {ℓ κ} {B : Type ℓ} {C : Type κ} (g : B → C) where
  if-run_map :
      (b : Bool) (x y : Run B) (x' y' : Run C)
      → x' ≡ run_map g x
      → y' ≡ run_map g y
      → (if b then x' else y') ≡ run_map g (if b then x else y)
  if-run_map true x y x' y' h h' = h
  if-run_map false x y x' y' h h' = h'

  elim-run_map :
      (b : Bool) (x y : Run B) (x' y' : Run C)
      → x' ≡ run_map g x
      → y' ≡ run_map g y
      → (elim b [ true ↦ x' | false ↦ y' ]) ≡ run_map g (elim b [ true ↦ x | false ↦ y ])
  elim-run_map true x y x' y' h h' = h
  elim-run_map false x y x' y' h h' = h'

and_true : (b : Bool) → (b && true) ≡ b
and_true true = refl
and_true false = refl

module _ {V : Type 0} where
  abbrev pub without_value : Option (RemoveResult V) → Option (DeleteResult V)
  without_value o = Option.map (λ r. r.0) o

  drop_value-take_value : (n : VersionedNode V) → drop_value n ≡ without_value (take_value n)
  unfolding drop_value take_value keep_node
  drop_value-take_value (versioned p none kind ks version) = refl
  drop_value-take_value (versioned p (some v) kind ks version) =
      rw (and_true (num_children ks == 0))

  leaf_delete-leaf_remove : (v : Option V) → leaf_delete v ≡ without_value (leaf_remove v)
  leaf_delete-leaf_remove none = refl
  leaf_delete-leaf_remove (some v) = refl

  settle_delete-settle_remove :
      (k : ℕ) (n : VersionedNode V) (o : Option (RemoveResult V))
      → settle_delete k n (without_value o) ≡ run_map without_value (settle_remove k n o)
  unfolding settle_delete settle_remove
  settle_delete-settle_remove k n none = refl
  settle_delete-settle_remove k n (some (c, x)) =
      bind-run_map without_value (put_back k n c) _ _ (λ n'. refl)

  -- The child is expected to give a result.
  unwrap_lem :
      (o : Option (RemoveResult V))
      → (unwrap (without_value o) >>= λ x. done (some x))
        ≡ run_map without_value (unwrap o >>= λ x. done (some x))
  unwrap_lem none = refl
  unwrap_lem (some x) = refl

  module _ (shared : VersionedNode V → Bool) (version : ℕ) where
    mutual
      unfolding delete_recurse remove_recurse

      -- `delete_recurse` leaves what `remove_recurse` leaves, and panics where it does.
      pub delete_recurse-remove_recurse :
          (n : VersionedNode V) (key : Bytes) (depth : ℕ)
          → delete_recurse shared version n key depth
            ≡ run_map without_value (remove_recurse shared version n key depth)
      delete_recurse-remove_recurse (versioned p v kind ks created) key depth =
          bind-run_map without_value (prefix_length_key p key depth) _ _ (λ common.
            if-run_map without_value (not (common == length p)) _ _ _ _ refl (
              bind-run_map without_value (length_at key depth) _ _ (λ remaining.
                if-run_map without_value (length p == remaining) _ _ _ _
                  (if-run_map without_value (is_leaf kind) _ _ _ _ (rw (leaf_delete-leaf_remove v))
                    (bind-run_map without_value
                      (owned shared (versioned p v kind ks created) version) _ _
                      (λ n. rw (drop_value-take_value n))))
                  (if-run_map without_value (is_leaf kind) _ _ _ _ refl (
                    bind-run_map without_value (at key (depth + length p)) _ _ (λ k.
                      bind-run_map without_value
                        (owned shared (versioned p v kind ks created) version) _ _
                        (λ n. rw (delete_below-remove_child ks k key (depth + length p)) (
                          run_map-bind without_value without_value
                            (remove_child shared version ks k key (depth + length p)) _ _
                            (settle_delete-settle_remove k n)))))))))

      delete_below-remove_child :
          (ks : Children V) (k : ℕ) (key : Bytes) (depth : ℕ)
          → delete_below shared version ks k key depth
            ≡ run_map without_value (remove_child shared version ks k key depth)
      delete_below-remove_child end k key depth = refl
      delete_below-remove_child (more e n ks) k key depth =
          elim-run_map without_value (e == k) _ _ _ _
            (rw (delete_recurse-remove_recurse n key depth) (
              run_map-bind without_value without_value (remove_recurse shared version n key depth) _
                _ unwrap_lem))
            (delete_below-remove_child ks k key depth)
