-- ===== src/Monitor/Tests.antt =====
-- Runs of the monitor, and its theorems at the worlds that they lead to.
use ilias_async.Base.{
  ◌+◌, ◌≡◌, ◌≢◌, ◌⊎◌, inl, refl, true, [], ◌∷◌, ok, assert_failed, arith, length, ◌↔◌,
}
use ilias_async.Monitor.{
  read, upgrade, write, upgrade_to_write_, Grants, initial, queue, unlock_, destroy, try_immediate,
  try_lock, lock_round, count_writer,
}
use ilias_async.Monitor.World.{World, Reach, here, next, start, queues, releases, upgrades_to_write}
use ilias_async.Monitor.World.Invariant.{Inv, Reach-Inv}
use ilias_async.Monitor.World.Service
use ilias_async.Monitor.Promises
use ilias_async.Monitor.Token.{Token}

abbrev written : World
written = record start { mon = record initial { active_writers = 1 }; writes = 1 }

written-Reach : Reach written
unfolding queue
written-Reach = next here (omega arith) (queues 1 write refl)

abbrev back : World
back = record start { mon = initial }

back-Reach : Reach back
unfolding unlock_
back-Reach = next written-Reach (omega arith) (releases write (omega arith) refl)

-- A writer, with a reader and a writer that wait for it.
abbrev contended : World
contended = record written {
  mon = record initial { active_writers = 1; w_queue = (write, 3) ∷ []; r_queue = 2 ∷ [] };
}

contended-Reach : Reach contended
unfolding queue
contended-Reach =
    next (next written-Reach (omega arith) (queues 2 read refl)) (omega arith) (queues 3 write refl)

-- Two readers, with a writer that waits.
abbrev reading : World
reading = record start {
  mon = record initial { active_readers = 2; w_queue = (write, 3) ∷ [] };
  reads = 2;
}

reading-Reach : Reach reading
unfolding queue
reading-Reach =
    next (next (next here (omega arith) (queues 1 read refl)) (omega arith) (queues 2 read refl))
      (omega arith) (queues 3 write refl)

-- An upgradable token that has been upgraded and is still live.
abbrev upgraded : World
upgraded = record start {
  mon = record initial { active_writers = 2; upgrade_active = 1 };
  upgrades = 1;
  writes = 1;
}

upgraded-Reach : Reach upgraded
unfolding queue upgrade_to_write_
upgraded-Reach =
    next (next here (omega arith) (queues 1 upgrade refl)) (omega arith)
      (upgrades_to_write 2 (omega arith) refl)

Reach-Inv_example : Inv contended
Reach-Inv_example = Reach-Inv contended-Reach

quiet_destroy_example : (destroy back.mon ≡ ok tt) × (back.mon.u_queue ≡ [])
quiet_destroy_example = Service.quiet_destroy back-Reach refl refl

no_assert_fails_example :
    (queue 4 upgrade contended.mon ≢ assert_failed)
    × (try_immediate upgrade contended.mon ≢ assert_failed)
    × (unlock_ write contended.mon ≢ assert_failed)
    × (try_lock contended.mon ≢ assert_failed)
    × (lock_round contended.mon ≢ assert_failed)
no_assert_fails_example =
    Service.no_assert_fails contended-Reach (omega arith) 4 upgrade write (omega arith)

write_at_once_example :
    let free = back.reads + back.upgrades + back.writes + length back.mon.u_queue ≡ 0 in
    let taken = count_writer write back.mon in
    ((queue 5 write back.mon ≡ ok (taken, (5, write) ∷ [])) ↔ free)
    × ((try_immediate write back.mon ≡ ok (taken, write)) ↔ free)
    × ((try_lock back.mon ≡ ok (taken, true)) ↔ free)
    × ((lock_round back.mon ≡ ok (taken, true)) ↔ free)
write_at_once_example = Service.write_at_once back-Reach 5

unlock_writer_exclusion_example :
    let left = record initial { active_writers = 1; r_queue = 2 ∷ [] } in
    ((contended.upgrades + 0 + length contended.mon.u_queue ≡ 0)
      × Service.HeadAdmitted contended.mon.w_queue left ((3, write) ∷ []))
    ⊎ ((contended.reads ≡ 0) × Service.UpgradesAdmitted contended.mon left ((3, write) ∷ []))
unfolding unlock_
unlock_writer_exclusion_example =
    Service.unlock_writer_exclusion write contended-Reach (omega arith) (omega arith) refl
      (inl refl)

last_unlock_serves_example : ◌≢◌ {A = Grants} ((3, write) ∷ []) []
unfolding unlock_
last_unlock_serves_example =
    Service.last_unlock_serves write (λ e. cc) contended-Reach (omega arith) (omega arith) refl refl
      (inl (λ e. cc)) _ _ _ refl

unlock_-promises_example :
    Promises.granted 3 ((3, write) ∷ [])
      + Promises.waiting 3 (record initial { active_writers = 1; r_queue = 2 ∷ [] })
    ≡ Promises.waiting 3 contended.mon
unfolding unlock_
unlock_-promises_example = Promises.unlock_-promises 3 write contended.mon refl

abbrev reader : Token
reader = record { owner = 1; access = read }
