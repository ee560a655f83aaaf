-- ===== src/Tree/Update/Answers.antt =====
-- What an update asks for, as a function of the value that the key has: the value that it has
-- afterwards, and the answer.
use rart_rs.Prelude.{
  ℕ, suc, ◌+◌, ◌-◌, ◌≤◌, ◌≡◌, refl, Bool, true, false, not, ◌&&◌, Option, none, some, ◌==◌,
  if◌then◌else◌, done, arith, is_some,
}
use rart_rs.Partials.{Bytes}
use rart_rs.Node.{
  Node, node, nil, cons, Kind, empty, node4, node16, node48, node256, num_children, value_of,
  kids_of,
}
use rart_rs.Node.Valid.{IsValid}
use rart_rs.Node.Size.{found}
use rart_rs.Node.Deletion.{trimmed}
use rart_rs.Tree.Laws.{tree_at}
use rart_rs.Tree.Update.{
  Result, ok, err, SlotUpdate, keep, insert, remove, Callback, Change, unchanged, changed, inserted,
  removed, prune, count_update,
}

module _ {E V : Type 0} where
  abbrev pub vacant_after : Result E (SlotUpdate V) → Option V
  vacant_after (err e) = none
  vacant_after (ok keep) = none
  vacant_after (ok (insert v)) = some v
  vacant_after (ok remove) = none

  abbrev pub occupied_after : Bool → V → V × Result E (SlotUpdate V) → Option V
  occupied_after rollback old (v, err e) = some (if rollback then old else v)
  occupied_after rollback old (v, ok keep) = some v
  occupied_after rollback old (v, ok (insert w)) = some w
  occupied_after rollback old (v, ok remove) = none

  -- The value that the key has afterwards.
  abbrev pub after : Bool → Callback E V → Option V → Option V
  after rollback u none = vacant_after u.vacant
  after rollback u (some old) = occupied_after rollback old (u.occupied old)

  abbrev pub vacant_answer : Result E (SlotUpdate V) → Result E Bool
  vacant_answer (err e) = err e
  vacant_answer (ok keep) = ok false
  vacant_answer (ok (insert v)) = ok true
  vacant_answer (ok remove) = ok false

  abbrev pub occupied_answer : V × Result E (SlotUpdate V) → Result E Bool
  occupied_answer (v, err e) = err e
  occupied_answer (v, ok keep) = ok true
  occupied_answer (v, ok (insert w)) = ok true
  occupied_answer (v, ok remove) = ok true

  -- The answer: the error of the callback, or whether the update did anything.
  abbrev pub answer : Callback E V → Option V → Result E Bool
  answer u none = vacant_answer u.vacant
  answer u (some old) = occupied_answer (u.occupied old)

  abbrev pub vacant_change : Result E (SlotUpdate V) → Result E Change
  vacant_change (err e) = err e
  vacant_change (ok keep) = ok unchanged
  vacant_change (ok (insert v)) = ok inserted
  vacant_change (ok remove) = ok unchanged

  abbrev pub occupied_change : V × Result E (SlotUpdate V) → Result E Change
  occupied_change (v, err e) = err e
  occupied_change (v, ok keep) = ok changed
  occupied_change (v, ok (insert w)) = ok changed
  occupied_change (v, ok remove) = ok removed

  -- What a node that stays reports to its parent.
  abbrev pub change : Callback E V → Option V → Result E Change
  change u none = vacant_change u.vacant
  change u (some old) = occupied_change (u.occupied old)

  prune-vacant :
      (k : ℕ) (cur : Node V) (q : Result E (SlotUpdate V))
      → prune k cur (vacant_change q) ≡ done (cur, vacant_change q)
  unfolding prune
  prune-vacant k cur (err e) = refl
  prune-vacant k cur (ok keep) = refl
  prune-vacant k cur (ok (insert v)) = refl
  prune-vacant k cur (ok remove) = refl

  prune-occupied :
      (k : ℕ) (cur : Node V) (q : V × Result E (SlotUpdate V))
      → prune k cur (occupied_change q) ≡ done (cur, occupied_change q)
  unfolding prune
  prune-occupied k cur (v, err e) = refl
  prune-occupied k cur (v, ok keep) = refl
  prune-occupied k cur (v, ok (insert w)) = refl
  prune-occupied k cur (v, ok remove) = refl

  -- Nothing is pruned above a child that stays.
  pub prune-change :
      (u : Callback E V) (k : ℕ) (cur : Node V) (o : Option V)
      → prune k cur (change u o) ≡ done (cur, change u o)
  prune-change u k cur none = prune-vacant k cur u.vacant
  prune-change u k cur (some old) = prune-occupied k cur (u.occupied old)

  -- The count that goes with a change of one value.
  abbrev Counts : ℕ → Node V → Result E Change → Option V → Option V → Result E Bool → Type 0
  Counts len n' q was now a =
      (len' : ℕ) × (count_update len n' q ≡ (tree_at (some n') len', a))
      × (len' + found was ≡ len + found now)

  Counts-vacant :
      (len : ℕ) (n' : Node V) (q : Result E (SlotUpdate V))
      → Counts len n' (vacant_change q) none (vacant_after q) (vacant_answer q)
  unfolding count_update
  Counts-vacant len n' (err e) = (len, refl, refl)
  Counts-vacant len n' (ok keep) = (len, refl, refl)
  Counts-vacant len n' (ok (insert v)) = (len + 1, refl, omega arith)
  Counts-vacant len n' (ok remove) = (len, refl, refl)

  Counts-occupied :
      (rollback : Bool) (old : V) (len : ℕ) (n' : Node V) (q : V × Result E (SlotUpdate V))
      → 1 ≤ len + found (occupied_after rollback old q)
      → Counts len n'
          (occupied_change q)
          (some old)
          (occupied_after rollback old q)
          (occupied_answer q)
  unfolding count_update
  Counts-occupied rollback old len n' (v, err e) h = (len, refl, refl)
  Counts-occupied rollback old len n' (v, ok keep) h = (len, refl, refl)
  Counts-occupied rollback old len n' (v, ok (insert w)) h = (len, refl, refl)
  Counts-occupied rollback old len n' (v, ok remove) h = (len - 1, refl, omega arith)

  pub counts :
      (rollback : Bool) (u : Callback E V) (len : ℕ) (n' : Node V) (o : Option V)
      → found o ≤ len + found (after rollback u o)
      → Counts len n' (change u o) o (after rollback u o) (answer u o)
  counts rollback u len n' none h = Counts-vacant len n' u.vacant
  counts rollback u len n' (some old) h = Counts-occupied rollback old len n' (u.occupied old) h

  drops_vacant :
      (q : Result E (SlotUpdate V)) → vacant_change q ≡ ok removed → vacant_answer q ≡ ok true
  drops_vacant (err e) h = cc
  drops_vacant (ok keep) h = cc
  drops_vacant (ok (insert v)) h = refl
  drops_vacant (ok remove) h = cc

  drops_occupied :
      (q : V × Result E (SlotUpdate V))
      → occupied_change q ≡ ok removed
      → occupied_answer q ≡ ok true
  drops_occupied (v, err e) h = cc
  drops_occupied (v, ok keep) h = refl
  drops_occupied (v, ok (insert w)) h = refl
  drops_occupied (v, ok remove) h = refl

  pub drops_answer :
      (u : Callback E V) (o : Option V) → change u o ≡ ok removed → answer u o ≡ ok true
  drops_answer u none h = drops_vacant u.vacant h
  drops_answer u (some old) h = drops_occupied (u.occupied old) h

pub suc-ne : (m : ℕ) → (suc m == 0) ≡ false
suc-ne m = ground arith

pub and_false : (b : Bool) → (b && false) ≡ false
and_false true = refl
and_false false = refl

module _ {V : Type 0} where
  abbrev pub is_bare : Node V → Bool
  is_bare n = num_children (kids_of n) == 0 && not (is_some (value_of n))

  -- The parent of a child that was dropped goes too exactly if nothing is left of it.
  pub is_bare-IsValid : (n : Node V) → IsValid n → is_bare n ≡ false
  unfolding num_children
  is_bare-IsValid (node p (some v) kind ks) w = and_false (num_children ks == 0)
  is_bare-IsValid (node p none kind nil) w = absurd w.1
  is_bare-IsValid (node p none kind (cons e n ks)) w = rw (suc-ne (num_children ks))

pub is_bare-trimmed :
    (V : Type 0) (p : Bytes) (kind : Kind) → is_bare (trimmed {V = V} p none kind nil) ≡ true
unfolding num_children
is_bare-trimmed V p empty = refl
is_bare-trimmed V p node4 = refl
is_bare-trimmed V p node16 = refl
is_bare-trimmed V p node48 = refl
is_bare-trimmed V p node256 = refl
