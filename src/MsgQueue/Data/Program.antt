-- ===== src/MsgQueue/Data/Program.antt =====
-- include/ilias/msg_queue.h: a program that calls a typed message queue and a prepared statement.
use ilias_async.Base.{ℕ, Bool, List, [], ◌∷◌, ◌++◌, if◌then◌else◌, Checked, ok, assert_failed}
use ilias_async.MsgQueue.Data.{
  Data, Pointer, null, storage, value, enqueue, dequeue, callback, Prepared, reset, prepare, assign,
  commit,
}

-- A queue and a prepared statement of it, with the messages that have arrived and those that a
-- functor was given.
pub record World : Type 0 where
  pub queue : Data
  pub prepared : Prepared
  pub sent : List ℕ
  pub received : List ℕ

-- The calls; whether the allocator and the constructor of an element throw, and on which messages
-- the functor does.
pub data Call : Type 0 where
  enqueues : (allocates constructs : Bool) (v : ℕ) → Call
  dequeues : (throws : ℕ → Bool) (n : ℕ) → Call
  prepares : (allocates : Bool) → Call
  assigns : (constructs : Bool) (v : ℕ) → Call
  resets commits sets_callback : Call

abbrev pub contents : Pointer → List ℕ
contents null = []
contents storage = []
contents (value v) = v ∷ []

abbrev pub log_sent : List ℕ → Bool → World → World
log_sent vs failed w = if failed then w else record w { sent = w.sent ++ vs }

abbrev pub with_queue : Data → World → World
with_queue q w = record w { queue = q }

abbrev pub map_ok {ℓ κ} : {A : Type ℓ} {B : Type κ} → (A → B) → Checked A → Checked B
map_ok f (ok a) = ok (f a)
map_ok f assert_failed = assert_failed

unfoldable pub perform : Call → World → Checked World
unfolding enqueue dequeue prepare assign reset commit callback
perform (enqueues a c v) w =
    map_ok (λ (q, t). log_sent (v ∷ []) t (with_queue q w)) (enqueue a c v w.queue)
perform (dequeues throws n) w =
    let (q, vs, t) = dequeue throws n w.queue in
    ok (record w { queue = q; received = w.received ++ vs })
perform (prepares a) w =
    let (p, q, t) = prepare a w.prepared w.queue in ok (record w { queue = q; prepared = p })
perform (assigns c v) w =
    map_ok (λ (p, q, t). record w { queue = q; prepared = p }) (assign c v w.prepared w.queue)
perform resets w =
    let (p, q) = reset w.prepared w.queue in ok (record w { queue = q; prepared = p })
perform commits w =
    map_ok
      (λ (p, q, t). log_sent (contents w.prepared.ptr) t (record w { queue = q; prepared = p }))
      (commit w.prepared w.queue)
perform sets_callback w = ok (with_queue (callback w.queue) w)

unfoldable pub perform_all : List Call → World → Checked World
unfolding perform
perform_all [] w = ok w
perform_all (c ∷ cs) w = elim (perform c w) [
  | ok u ↦ perform_all cs u
  | assert_failed ↦ assert_failed
]
