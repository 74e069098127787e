-- ===== src/Refcnt/Pointer/Safety.antt =====
-- include/ilias/refcnt.h: the objects that the operations of a `refpointer` touch and delete.
use mathlib.Core.Option.{Option, none, some}
use native.Mathlib.Decide.{ℕ_discrete}
use ilias_async.Base.{
  ℕ, ◌+◌, ◌-◌, ◌<◌, ◌≡◌, ◌≢◌, true, inl, inr, Bool-cases, List, ◌==◌, if◌then◌else◌, arith, length,
  ap,
}
use ilias_async.Refcnt.{Cell, Heap, update, counted, deleted, uint}
use ilias_async.Refcnt.Pointer.{
  State, get, set, holds, release_ptr, with_heap, reset, reset_copy, reset_move, swap, release,
  adopt, make, ◌>>=◌,
}
use ilias_async.Refcnt.Pointer.Balance.{
  one, occurrences, occurrences-le-length, occurrences-set, occurrences-swap, length-swap,
  occurrences-get, occurrences-take_out, length-set, length-take_out, referenced-exists, count_of,
  Balanced, Leaves, acquire_ptr-Leaves, release_ptr-Leaves,
}

abbrev pub refs : State → ℕ → ℕ
refs s o = occurrences o s.vars + occurrences o s.raw

-- Each count is the number of references, and there are fewer references than an `unsigned int` can
-- count.
pub record Owned (s : State) : Type 0 where
  pub balanced : Balanced (refs s) s.heap
  pub room : length s.vars + length s.raw + 1 < uint

abbrev pub Safe : Option State → Type 0
Safe none = ⊥
Safe (some s) = Owned s

with_heap-Safe :
    (vars raw : List ℕ) (r : Option Heap) (f : ℕ → ℕ)
    → Leaves f r
    → ((o : ℕ) → o ≢ 0 → f o ≡ occurrences o vars + occurrences o raw)
    → length vars + length raw + 1 < uint
    → Safe (with_heap vars raw r)
with_heap-Safe vars raw none f b e room = b
with_heap-Safe vars raw (some h) f b e room = record {
  balanced = λ o n. ground (arith, b o n, e o n);
  room = room;
}

bind-Safe :
    (r : Option Heap) (f : ℕ → ℕ) (k : Heap → Option State)
    → Leaves f r
    → ((h : Heap) → Balanced f h → Safe (k h))
    → Safe (r >>= k)
bind-Safe none f k b next = b
bind-Safe (some h) f k b next = next h b

module _ (s : State) (own : Owned s) where
  open own use {balanced, room}

  bounded : (o : ℕ) → refs s o + 1 < uint
  bounded o = omega (arith, occurrences-le-length o s.vars, occurrences-le-length o s.raw)

  -- A variable's pointer is a reference to what it points at.
  referenced : (i : ℕ) → i < length s.vars → 0 < refs s (get s.vars i)
  referenced i h = ground (arith, occurrences-get (get s.vars i) s.vars i h)

  -- What `release_ptr` leaves behind when variable `i` gives up its reference.
  released :
      (i : ℕ)
      → i < length s.vars
      → Leaves (λ o. refs s o - one o (get s.vars i)) (release_ptr (get s.vars i) s.heap)
  released i h =
      release_ptr-Leaves (get s.vars i) s.heap (refs s) balanced (λ _. referenced i h)
        (omega (arith, bounded (get s.vars i)))

  pub reset-Safe : (i : ℕ) → i < length s.vars → Safe (reset i s)
  unfolding reset
  reset-Safe i h =
      with_heap-Safe _ _ _ _ (released i h) (λ o n. ground (arith, occurrences-set o s.vars i 0 h))
        (omega (arith, length-set s.vars i 0))

  pub reset_move-Safe : (i j : ℕ) → i < length s.vars → j < length s.vars → Safe (reset_move i j s)
  unfolding reset_move
  reset_move-Safe i j hi hj =
      let len = length-set s.vars i 0 in
      with_heap-Safe _ _ _ _ (released i hi)
        (λ o n. ground (
          arith,
          occurrences-set o s.vars i 0 hi,
          occurrences-swap o (set s.vars i 0) i j (omega (arith, len)) (omega (arith, len)),
        ))
        (omega (arith, length-set s.vars i 0, length-swap (set s.vars i 0) i j))

  -- After another reference to `p` is taken, variable `i` gives up its own and takes `p`.
  replaced :
      (i p : ℕ) (h : Heap)
      → i < length s.vars
      → refs s p + 1 < uint
      → Balanced (λ o. refs s o + one o p) h
      → Safe (with_heap (set s.vars i p) s.raw (release_ptr (get s.vars i) h))
  replaced i p h hi fits b =
      with_heap-Safe _ _ _ (λ o. refs s o + one o p - one o (get s.vars i))
        (release_ptr-Leaves (get s.vars i) h (λ o. refs s o + one o p) b
          (λ _. omega (arith, referenced i hi)) (ground (arith, bounded (get s.vars i))))
        (λ o n. ground (arith, occurrences-set o s.vars i p hi, occurrences-get o s.vars i hi))
        (omega (arith, length-set s.vars i p))

  pub reset_copy-Safe : (i j : ℕ) → i < length s.vars → j < length s.vars → Safe (reset_copy i j s)
  unfolding reset_copy
  reset_copy-Safe i j hi hj =
      let p = get s.vars j in
      bind-Safe _ (λ o. refs s o + one o p) _
        (acquire_ptr-Leaves p s.heap (refs s) balanced
          (λ n. referenced-exists p s.heap (refs s) balanced n (referenced j hj)) (bounded p))
        (λ h b. replaced i p h hi (bounded p) b)

  pub swap-Safe : (i j : ℕ) → i < length s.vars → j < length s.vars → Safe (swap i j s)
  unfolding swap
  swap-Safe i j hi hj = record {
    balanced = λ o n. ground (arith, balanced o n, occurrences-swap o s.vars i j hi hj);
    room = omega (arith, room, length-swap s.vars i j);
  }

  -- A pointer that leaves its variable keeps its reference.
  pub release-Safe :
      (i : ℕ) → i < length s.vars → length s.vars + length s.raw + 2 < uint → Safe (release i s)
  unfolding release
  release-Safe i hi more = record {
    balanced = λ o n. ground (arith, balanced o n, occurrences-set o s.vars i 0 hi);
    room = omega (arith, length-set s.vars i 0);
  }

  pub adopt-Safe : (i p : ℕ) → i < length s.vars → holds p s.raw ≡ true → Safe (adopt i p s)
  unfolding adopt
  adopt-Safe i p hi held =
      with_heap-Safe _ _ _ _ (released i hi)
        (λ o n. ground (
          arith,
          occurrences-set o s.vars i p hi,
          occurrences-get o s.vars i hi,
          occurrences-take_out o p s.raw held,
        ))
        (omega (arith, length-set s.vars i p, length-take_out p s.raw held))

  -- A new object stands where none is, or where one has been deleted.
  pub make-Safe : (i o : ℕ) → i < length s.vars → o ≢ 0 → s.heap o ≡ deleted → Safe (make i o s)
  unfolding make ℕ_discrete
  make-Safe i o hi n free =
      bind-Safe _ (λ x. refs s x + one x o) _
        (acquire_ptr-Leaves o (update s.heap o (counted 0)) (refs s)
          (λ x m. ground (arith, balanced x m, balanced o n)) (λ _ gone. ground arith) (bounded o))
        (λ h b. replaced i o h hi (bounded o) b)

cell_of_count : (c : Cell) (n : ℕ) → count_of c ≡ n → 0 < n → c ≡ counted n
cell_of_count (counted k) n e h = ap counted e
cell_of_count deleted n e h = absurd (omega arith)

release_exact :
    (p c : ℕ) (h : Heap)
    → p ≢ 0
    → h p ≡ counted c
    → 0 < c
    → c < uint
    → release_ptr p h ≡ some (update h p (if c == 1 then deleted else counted (c - 1)))
unfolding release_ptr
release_exact p c h n e pos fits = elim (Bool-cases (p == 0)) [
  | inl null ↦ absurd (ground arith)
  | inr set ↦
      rw (set, e, release_ptr)
        (ap (λ x. some (update h p (if c == 1 then deleted else counted x))) (omega arith))
]

-- `reset` deletes the object of the last reference, and lowers the count of any other by one.
pub last_reset_deletes :
    (s : State) (i : ℕ)
    → Owned s
    → i < length s.vars
    → get s.vars i ≢ 0
    → let p = get s.vars i in
      let left : Cell = if refs s p == 1 then deleted else counted (refs s p - 1) in
      reset i s ≡ some (record { vars = set s.vars i 0; raw = s.raw; heap = update s.heap p left })
unfolding reset
last_reset_deletes s i own hi n =
    let p = get s.vars i in
    let pos = referenced s own i hi in
    let cell = cell_of_count (s.heap p) (refs s p) (own.balanced p n) pos in
    ap (with_heap (set s.vars i 0) s.raw)
      (release_exact p (refs s p) s.heap n cell pos (omega (arith, bounded s own p)))
