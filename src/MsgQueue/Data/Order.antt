-- ===== src/MsgQueue/Data/Order.antt =====
-- include/ilias/msg_queue.h: the order of the messages of a typed queue, and what becomes of its elements.
use mathlib.Core.List.{append_assoc}
use ilias_async.Base.{
  ℕ, zero, suc, ◌+◌, ◌≤◌, ◌≡◌, refl, sym, ap, ◌∙◌, Bool, true, false, Bool-cases, inl, inr, List,
  [], ◌∷◌, ◌++◌, Checked, ok, assert_failed, length, length-append, arith,
}
use ilias_async.MsgQueue.Data.{
  Data, Pointer, null, storage, value, destroy, allocate, create, push, enqueue, enqueue_created,
  dequeue, dequeue_loop, callback, Prepared, reset, prepare, assign, assign_to, assign_created,
  commit, commit_to,
}
use ilias_async.MsgQueue.Data.Program.{
  World, Call, enqueues, dequeues, prepares, assigns, resets, commits, sets_callback, perform,
  perform_all,
}

abbrev pub held : Pointer → ℕ
held null = 0
held storage = 1
held (value v) = 1

abbrev pub full : Pointer → ℕ
full null = 0
full storage = 0
full (value v) = 1

abbrev pub IsBound : Pointer → Bool → Type 0
IsBound null b = Unit
IsBound storage b = b ≡ true
IsBound (value v) b = b ≡ true

-- What was received and what is in the queue is what was sent, in that order; all elements that the
-- allocator has given out are in the queue or in the statement; there was an event for each arrival.
pub record Ordered (w : World) : Type 0 where
  pub in_order : w.received ++ w.queue.items ≡ w.sent
  pub all_held : w.queue.allocated ≡ length w.queue.items + held w.prepared.ptr
  pub all_constructed : w.queue.constructed ≡ length w.queue.items + full w.prepared.ptr
  pub bound_ptr : IsBound w.prepared.ptr w.prepared.bound
  pub told : length w.sent ≤ w.queue.fires

abbrev pub Holds {ℓ} : {A : Type ℓ} → (A → Type 0) → Checked A → Type 0
Holds P (ok a) = P a
Holds P assert_failed = ⊥

-- A message that arrives.
arrives-Ordered :
    (w : World) (q : Data) (p : Prepared) (v : ℕ)
    → Ordered w
    → q.items ≡ w.queue.items ++ (v ∷ [])
    → q.allocated ≡ length w.queue.items + 1 + held p.ptr
    → q.constructed ≡ length w.queue.items + 1 + full p.ptr
    → IsBound p.ptr p.bound
    → q.fires ≡ w.queue.fires + 1
    → Ordered (record { queue = q; prepared = p; sent = w.sent ++ (v ∷ []); received = w.received })
arrives-Ordered w q p v o e a c b f = record {
  in_order =
      rw e
        (sym (append_assoc w.received w.queue.items (v ∷ [])) ∙ ap (λ l. l ++ (v ∷ [])) o.in_order);
  all_held = rw e (omega (arith, a, length-append w.queue.items (v ∷ [])));
  all_constructed = rw e (omega (arith, c, length-append w.queue.items (v ∷ [])));
  bound_ptr = b;
  told = omega (arith, f, o.told, length-append w.sent (v ∷ []));
}

enqueue-Ordered :
    (a c : Bool) (v : ℕ) (w : World) → Ordered w → Holds Ordered (perform (enqueues a c v) w)
unfolding perform enqueue allocate create enqueue_created push destroy
enqueue-Ordered false c v w o = o
enqueue-Ordered true false v w o = ground (arith, o)
enqueue-Ordered true true v w o =
    arrives-Ordered w
      (record {
        items = w.queue.items ++ (v ∷ []);
        allocated = w.queue.allocated + 1;
        constructed = w.queue.constructed + 1;
        fires = w.queue.fires + 1;
      })
      w.prepared v o refl (omega (arith, o.all_held)) (omega (arith, o.all_constructed)) o.bound_ptr
      refl

-- What the loop of `dequeue` leaves, with other elements held elsewhere.
pub record Taken (xs : List ℕ) (q : Data) (h f : ℕ) (r : Data × List ℕ × Bool) : Type 0 where
  pub split : r.1 ++ r.0.items ≡ xs
  pub rest_held : r.0.allocated ≡ length r.0.items + h
  pub rest_constructed : r.0.constructed ≡ length r.0.items + f
  pub same_fires : r.0.fires ≡ q.fires

dequeue_loop-Taken :
    (throws : ℕ → Bool) (n : ℕ) (xs : List ℕ) (q : Data) (h f : ℕ)
    → q.allocated ≡ length xs + h
    → q.constructed ≡ length xs + f
    → Taken xs q h f (dequeue_loop throws n xs q)
unfolding dequeue_loop destroy
dequeue_loop-Taken throws zero xs q h f a c = record {
  split = refl;
  rest_held = a;
  rest_constructed = c;
  same_fires = refl;
}
dequeue_loop-Taken throws (suc n) [] q h f a c = record {
  split = refl;
  rest_held = a;
  rest_constructed = c;
  same_fires = refl;
}
dequeue_loop-Taken throws (suc n) (x ∷ xs) q h f a c =
    let k = destroy (value x) q in
    let rest = dequeue_loop-Taken throws n xs k h f (omega (arith, a)) (omega (arith, c)) in
    elim (Bool-cases (throws x)) [
      | inl t ↦ rw t (record {
        split = refl;
        rest_held = omega (arith, a);
        rest_constructed = omega (arith, c);
        same_fires = refl;
      })
      | inr t ↦ rw t (record {
        split = ap (λ l. x ∷ l) rest.split;
        rest_held = rest.rest_held;
        rest_constructed = rest.rest_constructed;
        same_fires = rest.same_fires;
      })
    ]

dequeue-Ordered :
    (throws : ℕ → Bool) (n : ℕ) (w : World)
    → Ordered w
    → Holds Ordered (perform (dequeues throws n) w)
unfolding perform dequeue
dequeue-Ordered throws n w o =
    let t =
      dequeue_loop-Taken throws n w.queue.items w.queue (held w.prepared.ptr) (full w.prepared.ptr)
        o.all_held o.all_constructed in
    let r = dequeue_loop throws n w.queue.items w.queue in
    record {
      in_order =
          append_assoc w.received r.1 r.0.items ∙ ap (λ l. w.received ++ l) t.split ∙ o.in_order;
      all_held = t.rest_held;
      all_constructed = t.rest_constructed;
      bound_ptr = o.bound_ptr;
      told = omega (arith, t.same_fires, o.told);
    }

-- The destructor of a pointer that is not in the list.
destroy_held :
    (p : Pointer) (q : Data) (n m : ℕ)
    → q.allocated ≡ n + held p
    → q.constructed ≡ m + full p
    → ((destroy p q).items ≡ q.items)
      × ((destroy p q).allocated ≡ n)
      × ((destroy p q).constructed ≡ m)
      × ((destroy p q).fires ≡ q.fires)
unfolding destroy
destroy_held null q n m a c = (refl, omega (arith, a), omega (arith, c), refl)
destroy_held storage q n m a c = (refl, omega (arith, a), omega (arith, c), refl)
destroy_held (value v) q n m a c = (refl, omega (arith, a), omega (arith, c), refl)

reset-Ordered : (w : World) → Ordered w → Holds Ordered (perform resets w)
unfolding perform reset
reset-Ordered w o =
    let n = length w.queue.items in
    let (e, a, c, f) = destroy_held w.prepared.ptr w.queue n n o.all_held o.all_constructed in
    record {
      in_order = rw e o.in_order;
      all_held = rw e (omega (arith, a));
      all_constructed = rw e (omega (arith, c));
      bound_ptr = tt;
      told = omega (arith, f, o.told);
    }

prepare-Ordered : (a : Bool) (w : World) → Ordered w → Holds Ordered (perform (prepares a) w)
unfolding perform prepare allocate reset
prepare-Ordered false w o = o
prepare-Ordered true w o =
    let n = length w.queue.items in
    let more = record w.queue { allocated = w.queue.allocated + 1 } in
    let (e, a, c, f) =
      destroy_held w.prepared.ptr more (n + 1) n (omega (arith, o.all_held)) o.all_constructed in
    record {
      in_order = rw e o.in_order;
      all_held = rw e (omega (arith, a));
      all_constructed = rw e (omega (arith, c));
      bound_ptr = refl;
      told = omega (arith, f, o.told);
    }

module _ (q : Data) (b : Bool) (s r : List ℕ) where
  abbrev at : Pointer → World
  at p = record { queue = q; prepared = record { bound = b; ptr = p }; sent = s; received = r }

  assign_at :
      (c : Bool) (v : ℕ) (p : Pointer)
      → Ordered (at p)
      → Holds Ordered (perform (assigns c v) (at p))
  unfolding perform assign assign_to create assign_created
  assign_at c v null o = o
  assign_at true v storage o = ground (arith, o)
  assign_at false v storage o = o
  assign_at true v (value w) o = ground (arith, o)
  assign_at false v (value w) o = o

  commit_at : (p : Pointer) → Ordered (at p) → Holds Ordered (perform commits (at p))
  unfolding perform commit commit_to push reset destroy
  commit_at null o = o
  commit_at storage o = o
  commit_at (value v) o =
      let set = o.bound_ptr in
      rw set (
        arrives-Ordered (at (value v))
          (record {
            items = q.items ++ (v ∷ []);
            allocated = q.allocated;
            constructed = q.constructed;
            fires = q.fires + 1;
          })
          (record { bound = false; ptr = null }) v o refl (omega (arith, o.all_held))
          (omega (arith, o.all_constructed)) tt refl)

callback-Ordered : (w : World) → Ordered w → Holds Ordered (perform sets_callback w)
unfolding perform callback
callback-Ordered w o = ground (arith, o)

perform-Ordered : (c : Call) (w : World) → Ordered w → Holds Ordered (perform c w)
perform-Ordered (enqueues a c v) w o = enqueue-Ordered a c v w o
perform-Ordered (dequeues throws n) w o = dequeue-Ordered throws n w o
perform-Ordered (prepares a) w o = prepare-Ordered a w o
perform-Ordered (assigns c v) w o =
    assign_at w.queue w.prepared.bound w.sent w.received c v w.prepared.ptr o
perform-Ordered resets w o = reset-Ordered w o
perform-Ordered commits w o = commit_at w.queue w.prepared.bound w.sent w.received w.prepared.ptr o
perform-Ordered sets_callback w o = callback-Ordered w o

then_all :
    (r : Checked World) (cs : List Call)
    → Holds Ordered r
    → ((w : World) → Ordered w → Holds Ordered (perform_all cs w))
    → Holds Ordered (elim r [ ok u ↦ perform_all cs u | assert_failed ↦ assert_failed ])
then_all (ok w) cs o f = f w o
then_all assert_failed cs o f = o

-- From an ordered world, any calls of a typed queue and of a prepared statement, exceptions included,
-- fail no assertion and lead to an ordered world: the messages that functors were given, and then
-- those in the queue, are the ones that have arrived, in their order; every element that was allocated
-- is in the queue or in the statement, and those in the queue are constructed; there was an event for
-- each arrival.
pub perform_all-Ordered :
    (cs : List Call) (w : World) → Ordered w → Holds Ordered (perform_all cs w)
unfolding perform_all
perform_all-Ordered [] w o = o
perform_all-Ordered (c ∷ cs) w o =
    then_all (perform c w) cs (perform-Ordered c w o) (λ u q. perform_all-Ordered cs u q)
