-- ===== src/Threadpool/Sizes.antt =====
-- src/threadpool.cc: what waking up threads, and changing their number, does to the accounts.
use ilias_async.Base.{
  ◌∙◌, sym, ℕ, ◌+◌, ◌%◌, ◌≤◌, ◌≡◌, refl, List, [], ◌∷◌, ltb, if◌then◌else◌, arith, inl, inr,
  Bool-cases,
}
use ilias_async.Threadpool.{
  ThreadState, busy, sleep_test, sleep, uint, Pool, transition, wakeup_worker, wakeup_loop, wakeup,
  reduce_loop, reduce_oversize, increase_oversize,
}
use ilias_async.Threadpool.Accounting.{live-le-length, NoneDead, Sound, wakeup_worker-Sound}

pub transition-idle : (w : ℕ) (s t : ThreadState) (p : Pool) → (transition w s t p).0.idle ≡ p.idle
unfolding transition
transition-idle w s t p = ground arith

pub wakeup_worker-idle : (w : ℕ) (p : Pool) → (wakeup_worker w p).0.idle ≡ p.idle
unfolding wakeup_worker
wakeup_worker-idle w p =
    ground (arith, transition-idle w sleep_test busy p, transition-idle w sleep busy p)

transition-n_threads :
    (w : ℕ) (s t : ThreadState) (p : Pool) → (transition w s t p).0.n_threads ≡ p.n_threads
unfolding transition
transition-n_threads w s t p = ground arith

wakeup_worker-n_threads : (w : ℕ) (p : Pool) → (wakeup_worker w p).0.n_threads ≡ p.n_threads
unfolding wakeup_worker
wakeup_worker-n_threads w p =
    ground (arith, transition-n_threads w sleep_test busy p, transition-n_threads w sleep busy p)

wakeup_loop-n_threads :
    (n c : ℕ) (is : List ℕ) (p : Pool) → (wakeup_loop n c is p).0.n_threads ≡ p.n_threads
unfolding wakeup_loop
wakeup_loop-n_threads n c [] p = refl
wakeup_loop-n_threads n c (i ∷ is) p = elim (Bool-cases (ltb c n)) [
  | inl b ↦ rw b (
      wakeup_loop-n_threads n (if (wakeup_worker i (record p { idle = is })).1 then c + 1 else c) is
        (wakeup_worker i (record p { idle = is })).0
      ∙ wakeup_worker-n_threads i (record p { idle = is }))
  | inr b ↦ rw b refl
]

pub increase_oversize-n_threads :
    (a : ℕ) (p : Pool) → (increase_oversize a p).n_threads ≡ p.n_threads
unfolding increase_oversize wakeup
increase_oversize-n_threads a p =
    wakeup_loop-n_threads a 0 p.idle (record p { n_oversize = (p.n_oversize + a) % uint })

idle-Sound :
    (k : ℕ) (is : List ℕ) (p : Pool)
    → NoneDead p.workers is
    → Sound k p
    → Sound k (record p { idle = is })
idle-Sound k is p hi h = record { accounts = h.accounts; HasRoom = h.HasRoom; idle_alive = hi }

NoneDead-transport :
    (k : ℕ) (is : List ℕ) (p : Pool) → p.idle ≡ is → Sound k p → NoneDead p.workers is
NoneDead-transport k is p e h = rw (sym e) h.idle_alive

wakeup_loop-Sound :
    (k n c : ℕ) (is : List ℕ) (p : Pool)
    → p.idle ≡ is
    → Sound k p
    → Sound k (wakeup_loop n c is p).0
unfolding wakeup_loop
wakeup_loop-Sound k n c [] p e h = h
wakeup_loop-Sound k n c (i ∷ is) p e h =
    let popped = idle-Sound k is p (NoneDead-transport k (i ∷ is) p e h).1 h in
    elim (Bool-cases (ltb c n)) [
      | inl b ↦ rw b (
          wakeup_loop-Sound k n (if (wakeup_worker i (record p { idle = is })).1 then c + 1 else c)
            is (wakeup_worker i (record p { idle = is })).0
            (wakeup_worker-idle i (record p { idle = is }))
            (wakeup_worker-Sound k i (record p { idle = is }) popped))
      | inr b ↦ rw b h
    ]

pub wakeup-Sound : (k n : ℕ) (p : Pool) → Sound k p → Sound k (wakeup n p).0
unfolding wakeup
wakeup-Sound k n p h = wakeup_loop-Sound k n 0 p.idle p refl h

-- What an exchange loop takes away is at most what there is, and at most the limit.
pub reduce_loop-bounds :
    (seen : List ℕ) (e l a : ℕ) → (reduce_loop seen e l a ≤ a) × (reduce_loop seen e l a ≤ l)
unfolding reduce_loop
reduce_loop-bounds [] e l a = (ground arith, ground arith)
reduce_loop-bounds (s ∷ seen) e l a = (
  ground (arith, (reduce_loop-bounds seen s l a).0),
  ground (arith, (reduce_loop-bounds seen s l a).1),
)

pub reduce_oversize-Sound :
    (k l : ℕ) (seen : List ℕ) (p : Pool)
    → Sound k p
    → Sound (k + (reduce_oversize seen l p).1) (reduce_oversize seen l p).0
unfolding reduce_oversize
reduce_oversize-Sound k l seen p h = record {
  accounts = omega (arith, h.accounts, (reduce_loop-bounds seen l l p.n_oversize).0);
  HasRoom = h.HasRoom;
  idle_alive = h.idle_alive;
}

pub increase_oversize-Sound :
    (k a : ℕ) (p : Pool) → Sound (k + a) p → Sound k (increase_oversize a p)
unfolding increase_oversize
increase_oversize-Sound k a p h =
    wakeup-Sound k a (record p { n_oversize = (p.n_oversize + a) % uint })
      (record {
        accounts = omega (arith, h.accounts, live-le-length p.workers, h.HasRoom);
        HasRoom = h.HasRoom;
        idle_alive = h.idle_alive;
      })
