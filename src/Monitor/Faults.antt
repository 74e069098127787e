-- ===== src/Monitor/Faults.antt =====
-- src/monitor.cc: readers beside writers.
use ilias_async.Base.{
  ℕ, ◌+◌, ◌<◌, ◌≡◌, true, false, List, [], ◌∷◌, ok, arith, not, inc, dec, ◌==◌, if◌then◌else◌,
}
use ilias_async.Monitor.{
  Access, none, read, Monitor, queue, try_immediate, unlock_, count_writer, is_write,
  lock_shared_round,
}
use ilias_async.Monitor.World.{World, HasRoom, Reach}
use ilias_async.Monitor.World.Invariant.{Reach-Inv}

-- When one of several readers gives its token back while no writer is live, no upgrade waits and a
-- writer waits, the writer is admitted although the other readers still hold their tokens.
pub reader_release_admits_writer :
    {w : World} (a : Access) (p : ℕ) (rest : List (Access × ℕ))
    → Reach w
    → HasRoom w.mon
    → 1 < w.reads
    → w.upgrades + w.writes ≡ 0
    → w.mon.u_queue ≡ []
    → w.mon.w_queue ≡ (a, p) ∷ rest
    → (m : Monitor) × (unlock_ read w.mon ≡ ok (m, (p, a) ∷ [], not (is_write a)))
      × (0 < m.active_readers)
      × (0 < m.active_writers)
unfolding unlock_
reader_release_admits_writer {w} a p rest r room readers idle nu nq =
    let v = Reach-Inv r in
    (
      count_writer a (record w.mon { active_readers = dec w.mon.active_readers; w_queue = rest }),
      ground arith,
      ground arith,
      ground arith,
    )

-- While an upgradable token and a token for exclusive access are live, as after `upgrade_to_write`,
-- `queue` grants read access at once, and `try_immediate` refuses it.
pub queue_admits_reader_beside_writer :
    {w : World} (p : ℕ)
    → Reach w
    → 0 < w.upgrades
    → 0 < w.writes
    → (queue p read w.mon
        ≡ ok (record w.mon { active_readers = inc w.mon.active_readers }, (p, read) ∷ []))
      × (try_immediate read w.mon ≡ ok (w.mon, none))
unfolding queue try_immediate
queue_admits_reader_beside_writer p r up wr = let v = Reach-Inv r in (ground arith, ground arith)

-- While no token with upgradable access is live, a round of `lock_shared` takes the lock exactly
-- when no reader is live: it does not wait for writers, and it waits for other readers.
pub lock_shared_ignores_writers :
    {w : World}
    → Reach w
    → w.upgrades ≡ 0
    → lock_shared_round w.mon ≡ (
        if w.reads == 0
        then ok (record w.mon { active_readers = inc w.mon.active_readers }, true)
        else ok (w.mon, false))
unfolding lock_shared_round
lock_shared_ignores_writers r nu = let v = Reach-Inv r in ground arith
