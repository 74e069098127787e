-- ===== src/MsgQueue/Data.antt =====
-- `data_msg_queue`, `msg_queue` and `prepare_enqueue` of include/ilias/msg_queue.h. A message is a
-- number; the list of the queue is the sequence of its elements.
pub mod Program
pub mod Order
pub mod Batch
use ilias_async.Base.{
  ℕ, zero, suc, ◌+◌, ◌-◌, Bool, true, false, List, [], ◌∷◌, ◌++◌, if◌then◌else◌, is_empty, Checked,
  ok, assert_failed,
}

-- The elements of the list; how many elements the allocator has given out, and how many of them are
-- constructed; how often `_fire` was called.
pub record Data : Type 0 where
  pub items : List ℕ
  pub allocated : ℕ
  pub constructed : ℕ
  pub fires : ℕ

-- `managed_pointer`: the storage of an element, without and with `m_call_destructor`.
pub data Pointer : Type 0 where
  null storage : Pointer
  value : ℕ → Pointer

-- `_destroy`: the destructor of a `managed_pointer`.
unfoldable pub destroy : Pointer → Data → Data
destroy null q = q
destroy storage q = record q { allocated = q.allocated - 1 }
destroy (value v) q = record q { allocated = q.allocated - 1; constructed = q.constructed - 1 }

-- How a call ends: it returns, or an exception leaves it.
pub data Ended (A : Type 0) : Type 0 where
  returned : A → Ended A
  threw : Ended A

-- `_allocate`; the allocator throws where it says no.
unfoldable pub allocate : Bool → Data → Data × Ended Pointer
allocate true q = (record q { allocated = q.allocated + 1 }, returned storage)
allocate false q = (q, threw)

-- `_create`: the pointer afterwards, and whether the constructor of the element threw.
unfoldable pub create : Bool → ℕ → Pointer → Data → Checked (Data × Pointer × Bool)
create constructs v null q = ok (q, null, false)
create true v storage q = ok (record q { constructed = q.constructed + 1 }, value v, false)
create false v storage q = ok (q, storage, true)
create constructs v (value w) q = assert_failed

-- `_enqueue`
unfoldable pub push : Pointer → Data → Checked Data
push null q = assert_failed
push storage q = assert_failed
push (value v) q = ok (record q { items = q.items ++ (v ∷ []) })

-- `msg_queue::_fire`
abbrev pub fire : Data → Data
fire q = record q { fires = q.fires + 1 }

-- `msg_queue::enqueue`; does it throw? The pointer is destroyed where the constructor throws.
unfoldable pub enqueue_created : Checked (Data × Pointer × Bool) → Checked (Data × Bool)
unfolding push destroy
enqueue_created assert_failed = assert_failed
enqueue_created (ok (q, p, true)) = ok (destroy p q, true)
enqueue_created (ok (q, p, false)) = elim (push p q) [
  | ok k ↦ ok (fire k, false)
  | assert_failed ↦ assert_failed
]

unfoldable pub enqueue : Bool → Bool → ℕ → Data → Checked (Data × Bool)
unfolding allocate create enqueue_created
enqueue allocates constructs v q = elim (allocate allocates q).1 [
  | threw ↦ ok ((allocate allocates q).0, true)
  | returned p ↦ enqueue_created (create constructs v p (allocate allocates q).0)
]

-- The loop of `dequeue`; `throws` says on which messages the functor throws. The result is the
-- messages that it was given, and whether it threw.
unfoldable pub dequeue_loop : (ℕ → Bool) → ℕ → List ℕ → Data → Data × List ℕ × Bool
unfolding destroy
dequeue_loop throws zero xs q = (record q { items = xs }, [], false)
dequeue_loop throws (suc i) [] q = (record q { items = [] }, [], false)
dequeue_loop throws (suc i) (x ∷ xs) q =
    let k = destroy (value x) q in
    let rest = dequeue_loop throws i xs k in
    if throws x then (record k { items = xs }, x ∷ [], true) else (rest.0, x ∷ rest.1, rest.2)

unfoldable pub dequeue : (ℕ → Bool) → ℕ → Data → Data × List ℕ × Bool
unfolding dequeue_loop
dequeue throws n q = dequeue_loop throws n q.items q

-- `_clear`
unfoldable pub clear_loop : List ℕ → Data → Data
unfolding destroy
clear_loop [] q = record q { items = [] }
clear_loop (x ∷ xs) q = clear_loop xs (destroy (value x) q)

unfoldable pub clear : Data → Data
unfolding clear_loop
clear q = clear_loop q.items q

-- The loop of the move constructor, on the list of the new queue.
unfoldable pub move_loop : ℕ → List ℕ → Checked (List ℕ)
move_loop zero xs = assert_failed
move_loop (suc fuel) [] = ok []
move_loop (suc fuel) (x ∷ xs) = move_loop fuel (xs ++ (x ∷ []))

abbrev pub fresh : Data
fresh = record { items = []; allocated = 0; constructed = 0; fires = 0 }

-- The move constructor of `msg_queue`: the new queue, and the one that is moved from.
unfoldable pub move_construct : Data → Data × Data
unfolding move_loop
move_construct mq = elim (move_loop 1 fresh.items) [
  | ok xs ↦ let q = record fresh { items = xs } in (if is_empty xs then q else fire q, mq)
  | assert_failed ↦ (fresh, mq)
]

-- `callback(mq, fn)`
unfoldable pub callback : Data → Data
callback q = if is_empty q.items then q else fire q

-- `prepare_enqueue`: `m_ptr`, and whether `m_mq` is set.
pub record Prepared : Type 0 where
  pub bound : Bool
  pub ptr : Pointer

unfoldable pub reset : Prepared → Data → Prepared × Data
unfolding destroy
reset p q = (record { bound = false; ptr = null }, destroy p.ptr q)

-- The constructor, on a queue, and the assignment of such a statement to another one, which is reset.
unfoldable pub prepare : Bool → Prepared → Data → Prepared × Data × Bool
unfolding allocate reset
prepare allocates p q = elim (allocate allocates q).1 [
  | threw ↦ (p, (allocate allocates q).0, true)
  | returned s ↦ (record { bound = true; ptr = s }, (reset p (allocate allocates q).0).1, false)
]

-- `assign`; does it throw?
unfoldable pub assign_created :
    Prepared → Checked (Data × Pointer × Bool) → Checked (Prepared × Data × Bool)
assign_created p assert_failed = assert_failed
assign_created p (ok (q, s, t)) = ok (record p { ptr = s }, q, t)

unfoldable pub assign_to : Bool → ℕ → Pointer → Prepared → Data → Checked (Prepared × Data × Bool)
unfolding create assign_created
assign_to constructs v null p q = ok (p, q, true)
assign_to constructs v (value w) p q =
    ok (if constructs then record p { ptr = value v } else p, q, if constructs then false else true)
assign_to constructs v storage p q = assign_created p (create constructs v storage q)

unfoldable pub assign : Bool → ℕ → Prepared → Data → Checked (Prepared × Data × Bool)
unfolding assign_to
assign constructs v p q = assign_to constructs v p.ptr p q

-- `commit`; does it throw?
unfoldable pub commit_to : Pointer → Prepared → Data → Checked (Prepared × Data × Bool)
unfolding push reset
commit_to null p q = ok (p, q, true)
commit_to storage p q = ok (p, q, true)
commit_to (value v) p q =
    if p.bound
    then elim (push (value v) q) [
      | assert_failed ↦ assert_failed
      | ok k ↦ let (r, m) = reset (record p { ptr = null }) (fire k) in ok (r, m, false)
    ]
    else assert_failed

unfoldable pub commit : Prepared → Data → Checked (Prepared × Data × Bool)
unfolding commit_to
commit p q = commit_to p.ptr p q
