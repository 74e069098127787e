-- ===== src/Threadpool/Tests.antt =====
-- src/threadpool.cc: the pool at work on a few threads.
use mathlib.Core.Option.{none, some}
use ilias_async.Base.{◌≡◌, refl, true, false, [], ◌∷◌, arith, ok}
use ilias_async.Threadpool.{
  busy, sleep_test, sleep, dying, Pool, wakeup, set_nthreads, must_die, go_to_sleep, collect,
}
use ilias_async.Threadpool.Accounting.{Sound}
use ilias_async.Threadpool.Sizes.{wakeup-Sound}
use ilias_async.Threadpool.Settle.{Settled, set_nthreads-Settled}
use ilias_async.Threadpool.Dying.{must_die-Sound}

-- Four threads of which one exceeds the pool, and one is to die.
abbrev pool : Pool
pool = record {
  n_threads = 3;
  n_oversize = 1;
  n_active = 5;
  idle = 2 ∷ 1 ∷ [];
  dead_list = [];
  workers = busy ∷ sleep ∷ sleep_test ∷ busy ∷ dying ∷ [];
}

pool-Sound : Sound 0 pool
pool-Sound = record { accounts = refl; HasRoom = omega arith; idle_alive = (refl, (refl, tt)) }

-- The pool shrinks to one thread: both idle threads are killed.
set_nthreads-Settled_example : Settled 0 1 2 3 (set_nthreads (1 ∷ []) 2 (some 0) 1 pool)
set_nthreads-Settled_example =
    set_nthreads-Settled (1 ∷ []) 2 0 (some 0) 1 pool (omega arith) pool-Sound refl

must_die-Sound_example : Sound 0 (must_die (1 ∷ []) (λ i p. (wakeup 1 p).0) 1 pool).0
must_die-Sound_example =
    must_die-Sound (1 ∷ []) (λ i p. (wakeup 1 p).0) (λ i k p h. wakeup-Sound k 1 p h) 0 1 pool
      pool-Sound

-- A pool that grows from three threads to five takes the death of one back, and creates one.
grows :
    set_nthreads [] 1 none 5 pool
    ≡ ok (
      record pool {
        n_threads = 5;
        n_oversize = 0;
        n_active = 6;
        workers = busy ∷ sleep ∷ sleep_test ∷ busy ∷ dying ∷ busy ∷ [];
      },
      true,
    )
unfolding set_nthreads
grows = refl

shrinks :
    set_nthreads [] 0 none 1 pool
    ≡ ok (
      record pool { n_threads = 1; idle = []; workers = busy ∷ dying ∷ dying ∷ busy ∷ dying ∷ [] },
      true,
    )
unfolding set_nthreads
shrinks = refl

sleeps_and_is_woken : (wakeup 1 (go_to_sleep false 0 pool).0).0 ≡ pool
unfolding go_to_sleep wakeup
sleeps_and_is_woken = refl

collected : (collect 3 (record pool { dead_list = 4 ∷ 3 ∷ [] })).1 ≡ 4 ∷ 3 ∷ []
unfolding collect
collected = refl
