-- ===== src/Monitor/World/Invariant.antt =====
-- What every call keeps true of a monitor and its callers.
use ilias_async.Base.{
  ℕ, ◌+◌, ◌-◌, ◌<◌, ◌≡◌, ◌⊎◌, inl, inr, refl, Bool, List, [], ◌∷◌, length, All, All-append, ok,
  word, add_word, arith,
}
use ilias_async.Monitor.{
  Access, none, read, upgrade, write, Monitor, Grants, queue, try_immediate, unlock_,
  unlock_readers, add_, upgrade_to_write_, try_lock, lock_round, try_lock_shared, lock_shared_round,
  unlock_upgrades, unlock_writer, grant_all, release_count,
}
use ilias_async.Monitor.World.{
  World, live, gain, lose, gain_all, gain_if, resume_if, HasRoom, Call, queues, tries, releases,
  resumes, copies, downgrades_to_read, downgrades_to_upgrade, upgrades_to_write, tries_lock, locks,
  tries_lock_shared, locks_shared, Reach, here, next, start,
}

abbrev pub IsWriter : Access × ℕ → Type 0
IsWriter (a, p) = (a ≡ write) ⊎ (a ≡ upgrade)

-- The counters are the numbers of tokens, a waiting upgrade counting as a writer, and whoever waits
-- has somebody to wait for.
pub record Inv (w : World) : Type 0 where
  pub readers : w.mon.active_readers ≡ w.reads
  pub upgraders : w.mon.upgrade_active ≡ w.upgrades
  pub writers : w.mon.active_writers ≡ w.upgrades + w.writes + length w.mon.u_queue
  pub upgrade_waits : (w.mon.u_queue ≡ []) ⊎ (0 < w.reads)
  pub write_waits : (w.mon.w_queue ≡ []) ⊎ (0 < w.mon.active_readers + w.mon.active_writers)
  pub read_waits :
      (w.mon.r_queue ≡ []) ⊎ (w.mon.upgrade_active < w.mon.active_writers) ⊎ (0 < w.resuming)
  pub queued : All IsWriter w.mon.w_queue

-- What holds in the middle of `unlock_`, where a count has gone down and nobody is served yet.
record Core (w : World) : Type 0 where
  readers : w.mon.active_readers ≡ w.reads
  upgraders : w.mon.upgrade_active ≡ w.upgrades
  writers : w.mon.active_writers ≡ w.upgrades + w.writes + length w.mon.u_queue
  queued : All IsWriter w.mon.w_queue
  read_room : w.mon.active_readers + length w.mon.r_queue + 1 < word
  write_room : w.mon.active_writers + 1 < word

-- All waiting readers are granted as reads, all upgrades as writes, and nothing else changes.
gain_all-reads :
    (ps : List ℕ) (w : World)
    → gain_all (grant_all read ps) w ≡ record w { reads = w.reads + length ps }
gain_all-reads [] w = ground arith
gain_all-reads (p ∷ ps) w = ground (arith, gain_all-reads ps (gain read w))

gain_all-writes :
    (ps : List ℕ) (w : World)
    → gain_all (grant_all write ps) w ≡ record w { writes = w.writes + length ps }
gain_all-writes [] w = ground arith
gain_all-writes (p ∷ ps) w = ground (arith, gain_all-writes ps (gain write w))

queue-Inv :
    (w : World) (p : ℕ) (a : Access) {m : Monitor} {gs : Grants}
    → HasRoom w.mon
    → Inv w
    → queue p a w.mon ≡ ok (m, gs)
    → Inv (gain_all gs (record w { mon = m }))
unfolding queue
queue-Inv w p none room v e = ground arith
queue-Inv w p read room v e = ground arith
queue-Inv w p upgrade room v e =
    ground (arith, All-append IsWriter w.mon.w_queue ((upgrade, p) ∷ []))
queue-Inv w p write room v e = ground (arith, All-append IsWriter w.mon.w_queue ((write, p) ∷ []))

try_immediate-Inv :
    (w : World) (a : Access) {m : Monitor} {got : Access}
    → HasRoom w.mon
    → Inv w
    → try_immediate a w.mon ≡ ok (m, got)
    → Inv (gain got (record w { mon = m }))
unfolding try_immediate
try_immediate-Inv w none room v e = ground arith
try_immediate-Inv w _ room v e = ground arith

add_-Inv :
    (w : World) (a : Access)
    → HasRoom w.mon
    → Inv w
    → Inv (gain a (record w { mon = add_ a w.mon }))
unfolding add_
add_-Inv w none room v = ground arith
add_-Inv w _ room v = ground arith

upgrade_to_write_-Inv :
    (w : World) (p : ℕ) {m : Monitor} {gs : Grants}
    → HasRoom w.mon
    → Inv w
    → upgrade_to_write_ p w.mon ≡ (m, gs)
    → Inv (gain_all gs (record w { mon = m }))
unfolding upgrade_to_write_
upgrade_to_write_-Inv w p room v e = ground arith

-- The state once every waiting reader is admitted.
abbrev admitted : Monitor → Monitor
admitted m = record m {
  active_readers = add_word m.active_readers (length m.r_queue);
  r_queue = [];
}

admitted-Inv :
    (w : World) (k : ℕ)
    → w.mon.active_readers + length w.mon.r_queue + 1 < word
    → w.mon.active_writers ≡ w.mon.upgrade_active
    → Inv w
    → Inv
        (gain_all (grant_all read w.mon.r_queue) (record w { mon = admitted w.mon; resuming = k }))
admitted-Inv w k room idle v = rw (gain_all-reads w.mon.r_queue) (ground arith)

unlock_readers-Inv :
    (w : World) {m : Monitor} {gs : Grants}
    → w.mon.active_readers + length w.mon.r_queue + 1 < word
    → Inv w
    → unlock_readers w.mon ≡ (m, gs)
    → Inv (gain_all gs (record w { mon = m; resuming = w.resuming - 1 }))
unfolding unlock_readers
unlock_readers-Inv w room v e = ground (arith, admitted-Inv w (w.resuming - 1))

serve_readers-Inv :
    (w : World)
    → Core w
    → w.mon.u_queue ≡ []
    → (w.mon.w_queue ≡ []) ⊎ (0 < w.mon.active_writers)
    → Inv (gain_all (unlock_readers w.mon).1 (record w { mon = (unlock_readers w.mon).0 }))
unfolding unlock_readers
serve_readers-Inv w c none_upgrading busy =
    ground (arith, gain_all-reads w.mon.r_queue (record w { mon = admitted w.mon }))

unlock_writer-Inv :
    (w : World) (q : List (Access × ℕ)) {m : Monitor} {gs : Grants} {more : Bool}
    → Core w
    → w.mon.u_queue ≡ []
    → w.mon.w_queue ≡ q
    → unlock_writer q w.mon ≡ ok (m, gs, more)
    → Inv (gain_all gs (resume_if more (record w { mon = m })))
unfolding unlock_writer
unlock_writer-Inv w [] c nu nq e = ground (arith, serve_readers-Inv w c nu (inl nq))
unlock_writer-Inv w ((none, p) ∷ q) c nu nq e = ground (arith, c.queued)
unlock_writer-Inv w ((read, p) ∷ q) c nu nq e = ground (arith, c.queued)
unlock_writer-Inv w ((upgrade, p) ∷ q) c nu nq e =
    ground (arith, λ (h : 0 < w.mon.active_writers). serve_readers-Inv w c nu (inr h))
unlock_writer-Inv w ((write, p) ∷ q) c nu nq e =
    ground (arith, λ (h : 0 < w.mon.active_writers). serve_readers-Inv w c nu (inr h))

unlock_upgrades-Inv :
    (w : World) (q : List ℕ) {m : Monitor} {gs : Grants} {more : Bool}
    → Core w
    → w.mon.u_queue ≡ q
    → unlock_upgrades q w.mon ≡ ok (m, gs, more)
    → Inv (gain_all gs (resume_if more (record w { mon = m })))
unfolding unlock_upgrades
unlock_upgrades-Inv w [] c nu e = unlock_writer-Inv w w.mon.w_queue c nu refl e
unlock_upgrades-Inv w (p ∷ q) c nu e =
    ground (arith, gain_all-writes (p ∷ q) (record w { mon = record w.mon { u_queue = [] } }))

unlock_-Inv :
    (w : World) (a : Access) {m : Monitor} {gs : Grants} {more : Bool}
    → HasRoom w.mon
    → Inv w
    → 0 < live a w
    → unlock_ a w.mon ≡ ok (m, gs, more)
    → Inv (gain_all gs (resume_if more (lose a (record w { mon = m }))))
unfolding unlock_
unlock_-Inv w none room v h e = ground arith
unlock_-Inv w read room v h e =
    unlock_upgrades-Inv (lose read (record w { mon = release_count read w.mon })) w.mon.u_queue
      (ground arith) refl e
unlock_-Inv w upgrade room v h e =
    unlock_upgrades-Inv (lose upgrade (record w { mon = release_count upgrade w.mon }))
      w.mon.u_queue (ground arith) refl e
unlock_-Inv w write room v h e =
    unlock_upgrades-Inv (lose write (record w { mon = release_count write w.mon })) w.mon.u_queue
      (ground arith) refl e

lock-Inv :
    (w : World) {m : Monitor} {got : Bool}
    → HasRoom w.mon
    → Inv w
    → (try_lock w.mon ≡ ok (m, got)) ⊎ (lock_round w.mon ≡ ok (m, got))
    → Inv (gain_if got write (record w { mon = m }))
unfolding try_lock lock_round
lock-Inv w room v (inl e) = ground arith
lock-Inv w room v (inr e) = ground arith

lock_shared-Inv :
    (w : World) {m : Monitor} {got : Bool}
    → HasRoom w.mon
    → Inv w
    → (try_lock_shared w.mon ≡ (m, got)) ⊎ (lock_shared_round w.mon ≡ ok (m, got))
    → Inv (gain_if got read (record w { mon = m }))
unfolding try_lock_shared lock_shared_round
lock_shared-Inv w room v (inl e) = ground arith
lock_shared-Inv w room v (inr e) = ground arith

-- Every call keeps the invariant, as long as the counters have room for one more token.
pub Call-Inv : {w v : World} → HasRoom w.mon → Inv w → Call w v → Inv v
Call-Inv {w} room v (queues p a e) = queue-Inv w p a room v e
Call-Inv {w} room v (tries a e) = try_immediate-Inv w a room v e
Call-Inv {w} room v (releases a h e) = unlock_-Inv w a room v h e
Call-Inv {w} room v (resumes h e) = unlock_readers-Inv w room.0 v e
Call-Inv {w} room v (copies a h) = add_-Inv w a room v
Call-Inv {w} room v (downgrades_to_read h) = add_-Inv w read room v
Call-Inv {w} room v (downgrades_to_upgrade h) = add_-Inv w upgrade room v
Call-Inv {w} room v (upgrades_to_write p h e) = upgrade_to_write_-Inv w p room v e
Call-Inv {w} room v (tries_lock e) = lock-Inv w room v (inl e)
Call-Inv {w} room v (locks e) = lock-Inv w room v (inr e)
Call-Inv {w} room v (tries_lock_shared e) = lock_shared-Inv w room v (inl e)
Call-Inv {w} room v (locks_shared e) = lock_shared-Inv w room v (inr e)

start-Inv : Inv start
start-Inv = ground arith

-- In every world that calls lead to, the counters are the numbers of live tokens (a waiting upgrade
-- counts as a writer), and whoever waits in a queue has somebody to wait for.
pub Reach-Inv : {w : World} → Reach w → Inv w
Reach-Inv here = start-Inv
Reach-Inv (next r room c) = Call-Inv room (Reach-Inv r) c
