-- ===== src/Threadpool/Dying.antt =====
-- src/threadpool.cc: `must_die`, against what other threads do meanwhile.
use ilias_async.Base.{
  ℕ, ◌+◌, ◌≤◌, ◌≡◌, refl, Bool, true, false, List, ◌==◌, if◌then◌else◌, arith, inl, inr, Bool-cases,
}
use ilias_async.Threadpool.{
  ThreadState, busy, sleep_test, sleep, dying, same, Pool, state_at, transition, reduce_oversize,
  increase_oversize, die_now, marked, must_die,
}
use ilias_async.Threadpool.Accounting.{same-marked, Sound}
use ilias_async.Threadpool.Sizes.{
  reduce_oversize-Sound, increase_oversize-Sound, reduce_loop-bounds,
}
use ilias_async.Threadpool.Resize.{put_dying-Sound}

-- Of `k + 1` deaths that no counter shows, one has become a worker's where it died.
Died : ℕ → Pool × Bool → Type 0
Died k (p, true) = Sound k p
Died k (p, false) = Sound (k + 1) p

transition_dying-Died :
    (k w : ℕ) (s : ThreadState) (p : Pool)
    → marked s ≡ false
    → Sound (k + 1) p
    → Died k (transition w s dying p)
unfolding transition Died
transition_dying-Died k w s p hs h = elim (Bool-cases (same (state_at p.workers w) s)) [
  | inl e ↦
      rw e
        (put_dying-Sound (k + 1) k w p (ground (arith, same-marked (state_at p.workers w) s e)) h)
  | inr e ↦ rw e h
]

or_else-Died :
    (k : ℕ) (r : Pool × Bool) (again : Pool → Pool × Bool)
    → Died k r
    → ((p : Pool) → Sound (k + 1) p → Died k (again p))
    → Died k (if r.1 then r else again r.0)
unfolding Died
or_else-Died k (p, true) again h ha = h
or_else-Died k (p, false) again h ha = ha p h

die_now-Died :
    (rival : ℕ → Pool → Pool)
    → ((i k : ℕ) (p : Pool) → Sound k p → Sound k (rival i p))
    → (k w : ℕ) (p : Pool) → Sound (k + 1) p
    → Died k (die_now rival w p)
unfolding die_now
die_now-Died rival hr k w p h =
    or_else-Died k (transition w busy dying (rival 1 p))
      (λ q.
        let second = transition w sleep_test dying (rival 2 q) in
        if second.1 then second else transition w sleep dying (rival 3 second.0))
      (transition_dying-Died k w busy (rival 1 p) refl (hr 1 (k + 1) p h))
      (λ q hq.
        or_else-Died k (transition w sleep_test dying (rival 2 q))
          (λ r. transition w sleep dying (rival 3 r))
          (transition_dying-Died k w sleep_test (rival 2 q) refl (hr 2 (k + 1) q hq))
          (λ r hz. transition_dying-Died k w sleep (rival 3 r) refl (hr 3 (k + 1) r hz)))

give_back-Sound :
    (rival : ℕ → Pool → Pool)
    → ((i k : ℕ) (p : Pool) → Sound k p → Sound k (rival i p))
    → (k : ℕ) (r : Pool × Bool) → Died k r
    → Sound k (if r.1 then r else (increase_oversize 1 (rival 4 r.0), false)).0
unfolding Died
give_back-Sound rival hr k (p, true) h = h
give_back-Sound rival hr k (p, false) h = increase_oversize-Sound k 1 (rival 4 p) (hr 4 (k + 1) p h)

one_at_most : (k r : ℕ) (p : Pool) → r ≤ 1 → (r == 0) ≡ false → Sound (k + r) p → Sound (k + 1) p
one_at_most k r p h hz s = record {
  accounts = ground (arith, s.accounts);
  HasRoom = s.HasRoom;
  idle_alive = s.idle_alive;
}

none_taken : (k r : ℕ) (p : Pool) → (r == 0) ≡ true → Sound (k + r) p → Sound k p
none_taken k r p hz s = record {
  accounts = ground (arith, s.accounts);
  HasRoom = s.HasRoom;
  idle_alive = s.idle_alive;
}

-- As long as the other threads keep the accounts between any two of its atomic steps, `must_die` keeps
-- them too, whether the worker is to die, stays, or takes a death that it then cannot die and gives back.
pub must_die-Sound :
    (seen : List ℕ) (rival : ℕ → Pool → Pool)
    → ((i k : ℕ) (p : Pool) → Sound k p → Sound k (rival i p))
    → (k w : ℕ) (p : Pool) → Sound k p
    → Sound k (must_die seen rival w p).0
unfolding must_die reduce_oversize
must_die-Sound seen rival hr k w p h =
    let reduced = reduce_oversize seen 1 (rival 0 p) in
    let taken = reduce_oversize-Sound k 1 seen (rival 0 p) (hr 0 k p h) in
    let bound = (reduce_loop-bounds seen 1 1 (rival 0 p).n_oversize).1 in
    elim (Bool-cases (marked (state_at p.workers w))) [
      | inl m ↦ rw m h
      | inr m ↦ rw m (elim (Bool-cases (reduced.1 == 0)) [
        | inl z ↦ rw z (none_taken k reduced.1 reduced.0 z taken)
        | inr z ↦ rw z (
            give_back-Sound rival hr k (die_now rival w reduced.0) (
              die_now-Died rival hr k w reduced.0
                (one_at_most k reduced.1 reduced.0 bound z taken)))
      ])
    ]
