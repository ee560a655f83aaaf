-- ===== src/Tree/History.antt =====
-- Sequences of operations on a tree, against a map from keys to values: the contract of
-- `AdaptiveRadixTree` as an ordered map that is changed in place (rart/src/tree.rs).
use rart_rs.Prelude.{
  ◌≡◌, ◌≢◌, refl, Bool, true, false, ◌&&◌, Option, none, some, List, [], ◌∷◌, ◌==◌, if◌then◌else◌,
  Run, done, ◌>>=◌, arith, sym, ◌∙◌, inl, inr, Bool-cases, is_some, ==_refl, subst,
}
use rart_rs.Partials.{Bytes}
use rart_rs.Node.Valid.{IsBytes}
use rart_rs.Tree.{Tree, new, get_k, insert_k, try_insert_k}
use rart_rs.Tree.Remove.{remove_k, delete_k}
use rart_rs.Tree.Get.{contents, get_k-eq-contents}
use rart_rs.Tree.Laws.{IsValidTree, IsUpdate, insert_k_lem, try_insert_k_lem, refusal}
use rart_rs.Tree.Insert.Splits.{stored}
use rart_rs.Tree.Remove.Map.{remove_k_lem, delete_k_lem}

pub data Op (V : Type 0) : Type 0 where
  get : Bytes → Op V
  insert : Bytes → V → Op V
  try_insert : Bytes → V → Op V
  remove : Bytes → Op V
  delete : Bytes → Op V

pub data Answer (V : Type 0) : Type 0 where
  value : Option V → Answer V
  refused : Option (V × V) → Answer V
  existed : Bool → Answer V

unfoldable pub same_key : Bytes → Bytes → Bool
same_key [] [] = true
same_key (x ∷ p) (y ∷ q) = x == y && same_key p q
same_key _ _ = false

same_key-true : (p q : Bytes) → same_key p q ≡ true → p ≡ q
unfolding same_key
same_key-true [] [] h = refl
same_key-true [] (y ∷ q) h = cc
same_key-true (x ∷ p) [] h = cc
same_key-true (x ∷ p) (y ∷ q) h = ground (arith, same_key-true p q)

same_key_refl : (p : Bytes) → same_key p p ≡ true
unfolding same_key
same_key_refl [] = refl
same_key_refl (x ∷ p) = rw (==_refl x) (same_key_refl p)

differs : (p q : Bytes) → same_key p q ≡ false → p ≢ q
differs p q h e = false-ne_true (sym h ∙ subst (λ r. same_key p r ≡ true) e (same_key_refl p))
  where
    false-ne_true : false ≢ true
    false-ne_true z = cc

module _ {V : Type 0} where
  abbrev pub key_of : Op V → Bytes
  key_of (get key) = key
  key_of (insert key v) = key
  key_of (try_insert key v) = key
  key_of (remove key) = key
  key_of (delete key) = key

  -- The operation on the tree.
  unfoldable pub perform : Op V → Tree V → Run (Tree V × Answer V)
  unfolding get_k insert_k try_insert_k remove_k delete_k
  perform (get key) t = do r ← get_k t key; done (t, value r)
  perform (insert key v) t = do r ← insert_k t key v; done (r.0, value r.1)
  perform (try_insert key v) t = do r ← try_insert_k t key v; done (r.0, refused r.1)
  perform (remove key) t = do r ← remove_k t key; done (r.0, value r.1)
  perform (delete key) t = do r ← delete_k t key; done (r.0, existed r.1)

  -- What the operation leaves at its key, and what it answers, for the value that the key has.
  unfoldable pub left_at : Op V → Option V → Option V
  left_at (get key) old = old
  left_at (insert key v) old = some v
  left_at (try_insert key v) old = stored old v false
  left_at (remove key) old = none
  left_at (delete key) old = none

  unfoldable pub answer : Op V → Option V → Answer V
  answer (get key) old = value old
  answer (insert key v) old = value old
  answer (try_insert key v) old = refused (refusal old v)
  answer (remove key) old = value old
  answer (delete key) old = existed (is_some old)

  unfoldable pub change : Op V → (Bytes → Option V) → Bytes → Option V
  unfolding left_at same_key
  change op m q = if same_key q (key_of op) then left_at op (m (key_of op)) else m q

  unfoldable pub perform_all : List (Op V) → Tree V → Run (Tree V × List (Answer V))
  unfolding perform
  perform_all [] t = done (t, [])
  perform_all (op ∷ ops) t = do
    (t', a) ← perform op t
    (t'', rest) ← perform_all ops t'
    done (t'', a ∷ rest)

  -- The same on the map.
  unfoldable pub change_all : List (Op V) → (Bytes → Option V) → Bytes → Option V
  unfolding change
  change_all [] m = m
  change_all (op ∷ ops) m = change_all ops (change op m)

  unfoldable pub answers : List (Op V) → (Bytes → Option V) → List (Answer V)
  unfolding answer change
  answers [] m = []
  answers (op ∷ ops) m = answer op (m (key_of op)) ∷ answers ops (change op m)

  abbrev pub AllBytes : List (Op V) → Type 0
  AllBytes [] = Unit
  AllBytes (op ∷ ops) = IsBytes (key_of op) × AllBytes ops

  abbrev Stands : Tree V → (Bytes → Option V) → Type 0
  Stands t m = IsValidTree t × ((q : Bytes) → contents t q ≡ m q)

  update_Stands :
      (op : Op V) (t t' : Tree V) (m : Bytes → Option V)
      → Stands t m
      → IsUpdate t t' (key_of op) (left_at op (contents t (key_of op)))
      → Stands t' (change op m)
  unfolding change
  update_Stands op t t' m s u = (
    u.valid,
    λ q. elim (Bool-cases (same_key q (key_of op))) [
      | inl h ↦ rw (h, same_key-true q (key_of op) h, ← s.1 (key_of op)) u.here
      | inr h ↦ rw (h, ← s.1 q) (u.elsewhere q (differs q (key_of op) h))
    ],
  )

  get-Stands :
      (key : Bytes) (t : Tree V) (m : Bytes → Option V) → Stands t m → Stands t (change (get key) m)
  unfolding change left_at
  get-Stands key t m s = (
    s.0,
    λ q. elim (Bool-cases (same_key q key)) [
      | inl h ↦ rw (h, same_key-true q key h) (s.1 key)
      | inr h ↦ rw h (s.1 q)
    ],
  )

  perform_lem :
      (op : Op V) (t : Tree V) (m : Bytes → Option V)
      → IsBytes (key_of op)
      → Stands t m
      → (t' : Tree V) × (perform op t ≡ done (t', answer op (m (key_of op))))
        × Stands t' (change op m)
  unfolding perform answer left_at
  perform_lem (get key) t m b s = (t, rw (get_k-eq-contents t key, s.1 key), get-Stands key t m s)
  perform_lem (insert key v) t m b s =
      let (t', eq, u) = insert_k_lem t key v s.0 b in
      (t', rw (eq, s.1 key), update_Stands (insert key v) t t' m s u)
  perform_lem (try_insert key v) t m b s =
      let (t', eq, u) = try_insert_k_lem t key v s.0 b in
      (t', rw (eq, s.1 key), update_Stands (try_insert key v) t t' m s u)
  perform_lem (remove key) t m b s =
      let (t', eq, u) = remove_k_lem t key s.0 in
      (t', rw (eq, s.1 key), update_Stands (remove key) t t' m s u)
  perform_lem (delete key) t m b s =
      let (t', eq, u) = delete_k_lem t key s.0 in
      (t', rw (eq, s.1 key), update_Stands (delete key) t t' m s u)

  perform_all_lem :
      (ops : List (Op V)) (t : Tree V) (m : Bytes → Option V)
      → AllBytes ops
      → Stands t m
      → (t' : Tree V) × (perform_all ops t ≡ done (t', answers ops m))
        × Stands t' (change_all ops m)
  unfolding perform_all answers change_all
  perform_all_lem [] t m b s = (t, refl, s)
  perform_all_lem (op ∷ ops) t m b s =
      let (t', eq, s') = perform_lem op t m b.0 s in
      let (t'', eq', s'') = perform_all_lem ops t' (change op m) b.1 s' in (t'', rw (eq, eq'), s'')

  -- Whatever operations are done, one after the other, on a new tree: none of them panics, each
  -- answers what it would answer on a map, and the tree that is left is valid and stands for the map
  -- that is left. The keys are byte strings.
  pub history_lem :
      (ops : List (Op V))
      → AllBytes ops
      → (t : Tree V) × (perform_all ops new ≡ done (t, answers ops (λ q. none)))
        × IsValidTree t
        × ((q : Bytes) → contents t q ≡ change_all ops (λ q'. none) q)
  unfolding new
  history_lem ops b =
      let (t, eq, s) =
        perform_all_lem ops new (λ q. none) b (record { rooted = refl }, λ q. refl) in
      (t, eq, s.0, s.1)
