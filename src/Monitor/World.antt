-- ===== src/Monitor/World.antt =====
-- The callers of one monitor: how many tokens of each access are live, and the calls that they make
-- of src/monitor.cc, interleaved in any order at the granularity of the critical sections.
pub mod Invariant
pub mod Service
use ilias_async.Base.{
  ℕ, ◌+◌, ◌-◌, ◌<◌, ◌≡◌, Bool, true, false, List, [], ◌∷◌, length, Checked, ok, word,
}
use ilias_async.Monitor.{
  Access, none, read, upgrade, write, Monitor, Grants, initial, queue, try_immediate, unlock_,
  unlock_readers, add_, upgrade_to_write_, try_lock, lock_round, try_lock_shared, lock_shared_round,
}

-- Tokens count as live from the moment that their promise is fulfilled. A successful `lock` or
-- `lock_shared` counts as a token too. `resuming` counts the calls of `unlock_` that have released
-- the mutex to fulfil an upgrade and have their second critical section before them.
pub record World : Type 0 where
  pub mon : Monitor
  pub reads : ℕ
  pub upgrades : ℕ
  pub writes : ℕ
  pub resuming : ℕ

abbrev pub start : World
start = record { mon = initial; reads = 0; upgrades = 0; writes = 0; resuming = 0 }

abbrev pub live : Access → World → ℕ
live none w = 1
live read w = w.reads
live upgrade w = w.upgrades
live write w = w.writes

abbrev pub gain : Access → World → World
gain none w = w
gain read w = record w { reads = w.reads + 1 }
gain upgrade w = record w { upgrades = w.upgrades + 1 }
gain write w = record w { writes = w.writes + 1 }

abbrev pub lose : Access → World → World
lose none w = w
lose read w = record w { reads = w.reads - 1 }
lose upgrade w = record w { upgrades = w.upgrades - 1 }
lose write w = record w { writes = w.writes - 1 }

abbrev pub gain_all : Grants → World → World
gain_all [] w = w
gain_all ((p, a) ∷ gs) w = gain_all gs (gain a w)

abbrev pub gain_if : Bool → Access → World → World
gain_if true a w = gain a w
gain_if false a w = w

abbrev pub resume_if : Bool → World → World
resume_if true w = record w { resuming = w.resuming + 1 }
resume_if false w = w

-- There is room in the counters for one more token and for every reader that waits. Each token and
-- each promise takes memory, so there are fewer of them than a `uintptr_t` can count.
abbrev pub HasRoom : Monitor → Type 0
HasRoom m = (m.active_readers + length m.r_queue + 1 < word) × (m.active_writers + 1 < word)

-- A call on the monitor of the first world, and the world behind it.
pub data Call (w : World) : World → Type 0 where
  queues :
      (p : ℕ) (a : Access) {m : Monitor} {gs : Grants}
      → queue p a w.mon ≡ ok (m, gs)
      → Call w (gain_all gs (record w { mon = m }))
  tries :
      (a : Access) {m : Monitor} {got : Access}
      → try_immediate a w.mon ≡ ok (m, got)
      → Call w (gain got (record w { mon = m }))
  releases :
      (a : Access) {m : Monitor} {gs : Grants} {more : Bool}
      → 0 < live a w
      → unlock_ a w.mon ≡ ok (m, gs, more)
      → Call w (gain_all gs (resume_if more (lose a (record w { mon = m }))))
  resumes :
      {m : Monitor} {gs : Grants}
      → 0 < w.resuming
      → unlock_readers w.mon ≡ (m, gs)
      → Call w (gain_all gs (record w { mon = m; resuming = w.resuming - 1 }))
  copies : (a : Access) → 0 < live a w → Call w (gain a (record w { mon = add_ a w.mon }))
  downgrades_to_read :
      0 < w.upgrades + w.writes → Call w (gain read (record w { mon = add_ read w.mon }))
  downgrades_to_upgrade :
      0 < w.writes → Call w (gain upgrade (record w { mon = add_ upgrade w.mon }))
  upgrades_to_write :
      (p : ℕ) {m : Monitor} {gs : Grants}
      → 0 < w.upgrades
      → upgrade_to_write_ p w.mon ≡ (m, gs)
      → Call w (gain_all gs (record w { mon = m }))
  tries_lock :
      {m : Monitor} {got : Bool}
      → try_lock w.mon ≡ ok (m, got)
      → Call w (gain_if got write (record w { mon = m }))
  locks :
      {m : Monitor} {got : Bool}
      → lock_round w.mon ≡ ok (m, got)
      → Call w (gain_if got write (record w { mon = m }))
  tries_lock_shared :
      {m : Monitor} {got : Bool}
      → try_lock_shared w.mon ≡ (m, got)
      → Call w (gain_if got read (record w { mon = m }))
  locks_shared :
      {m : Monitor} {got : Bool}
      → lock_shared_round w.mon ≡ ok (m, got)
      → Call w (gain_if got read (record w { mon = m }))

-- The worlds that calls lead to, as long as the counters have room.
pub data Reach : World → Type 0 where
  here : Reach start
  next : {w v : World} → Reach w → HasRoom w.mon → Call w v → Reach v
