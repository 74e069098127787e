-- ===== src/Monitor/World/Service.antt =====
-- Whom the calls serve: src/monitor.cc in the worlds that calls lead to.
use ilias_async.Base.{
  ℕ, ◌+◌, ◌<◌, ◌≡◌, ◌≢◌, ◌⊎◌, ◌↔◌, inl, refl, Bool, true, List, [], ◌∷◌, length, ok, assert_failed,
  arith,
}
use ilias_async.Monitor.{
  count_writer, Access, none, read, upgrade, write, Monitor, Grants, queue, try_immediate, unlock_,
  destroy, unlock_readers, try_lock, lock_round, unlock_upgrades, unlock_writer, grant_all,
  release_count,
}
use ilias_async.Monitor.World.{World, live, lose, HasRoom, Reach}
use ilias_async.Monitor.World.Invariant.{Inv, Reach-Inv}

-- Once every token is back and no call is under way, nobody is left waiting, and the assertions of
-- the destructor hold.
pub quiet_destroy :
    {w : World}
    → Reach w
    → w.reads + w.upgrades + w.writes ≡ 0
    → w.resuming ≡ 0
    → (destroy w.mon ≡ ok tt) × (w.mon.u_queue ≡ [])
unfolding destroy
quiet_destroy r none_live quiet = ground (arith, Reach-Inv r)

unlock_writer_ok :
    (m : Monitor) (q : List (Access × ℕ))
    → m.upgrade_active < m.active_writers + 1
    → unlock_writer q m ≢ assert_failed
unfolding unlock_writer
unlock_writer_ok m [] h = ground arith
unlock_writer_ok m ((a, p) ∷ q) h = ground arith

unlock_upgrades_ok :
    (m : Monitor) (q : List ℕ)
    → m.upgrade_active < m.active_writers + 1
    → unlock_upgrades q m ≢ assert_failed
unfolding unlock_upgrades
unlock_upgrades_ok m [] h = unlock_writer_ok m m.w_queue h
unlock_upgrades_ok m (p ∷ q) h = ground arith

unlock_ok :
    {w : World} (a : Access)
    → HasRoom w.mon
    → Inv w
    → 0 < live a w
    → unlock_ a w.mon ≢ assert_failed
unfolding unlock_
unlock_ok none room v h = ground arith
unlock_ok {w} read room v h =
    unlock_upgrades_ok (release_count read w.mon) w.mon.u_queue (ground arith)
unlock_ok {w} upgrade room v h =
    unlock_upgrades_ok (release_count upgrade w.mon) w.mon.u_queue (ground arith)
unlock_ok {w} write room v h =
    unlock_upgrades_ok (release_count write w.mon) w.mon.u_queue (ground arith)

queue_ok : {w : World} (p : ℕ) (a : Access) → Inv w → queue p a w.mon ≢ assert_failed
unfolding queue
queue_ok p none v = ground arith
queue_ok p read v = ground arith
queue_ok p upgrade v = ground arith
queue_ok p write v = ground arith

-- In every world that calls lead to and whose counters have room, `queue` and `try_immediate` for any
-- access, `try_lock` and `lock` do not run into a failing assertion, nor does giving back a live
-- token.
pub no_assert_fails :
    {w : World}
    → Reach w
    → HasRoom w.mon
    → (p : ℕ) (a b : Access) → 0 < live b w
    → (queue p a w.mon ≢ assert_failed)
      × (try_immediate a w.mon ≢ assert_failed)
      × (unlock_ b w.mon ≢ assert_failed)
      × (try_lock w.mon ≢ assert_failed)
      × (lock_round w.mon ≢ assert_failed)
unfolding try_immediate try_lock lock_round
no_assert_fails r room p a b h =
    let v = Reach-Inv r in
    (queue_ok p a v, ground arith, unlock_ok b room v h, ground arith, ground arith)

-- A request for exclusive access is granted at once exactly when no token at all is live and no
-- upgrade waits; `queue`, `try_immediate`, `try_lock` and `lock` agree on that.
pub write_at_once :
    {w : World}
    → Reach w
    → (p : ℕ)
    → let free = w.reads + w.upgrades + w.writes + length w.mon.u_queue ≡ 0 in
      let taken = count_writer write w.mon in
      ((queue p write w.mon ≡ ok (taken, (p, write) ∷ [])) ↔ free)
      × ((try_immediate write w.mon ≡ ok (taken, write)) ↔ free)
      × ((try_lock w.mon ≡ ok (taken, true)) ↔ free)
      × ((lock_round w.mon ≡ ok (taken, true)) ↔ free)
unfolding queue try_immediate try_lock lock_round
write_at_once {w} r p =
    let v = Reach-Inv r in
    (
      (λ e. ground arith, λ f. ground arith),
      (λ e. ground arith, λ f. ground arith),
      (λ e. ground arith, λ f. ground arith),
      (λ e. ground arith, λ f. ground arith),
    )

-- A grant of upgradable or exclusive access.
abbrev pub GrantsWriter : Grants → Type 0
GrantsWriter [] = ⊥
GrantsWriter ((p, a) ∷ gs) = (a ≡ write) ⊎ (a ≡ upgrade) ⊎ GrantsWriter gs

reads_grant_no_writer : (ps : List ℕ) → ¬ GrantsWriter (grant_all read ps)
reads_grant_no_writer [] h = h
reads_grant_no_writer (p ∷ ps) h = ground (arith, reads_grant_no_writer ps)

unlock_readers_grant_no_writer : (m : Monitor) → ¬ GrantsWriter (unlock_readers m).1
unfolding unlock_readers
unlock_readers_grant_no_writer m h = ground (arith, reads_grant_no_writer m.r_queue)

-- The head of the writers' queue `q` is admitted, and nobody else.
abbrev pub HeadAdmitted : List (Access × ℕ) → Monitor → Grants → Type 0
HeadAdmitted [] m gs = ⊥
HeadAdmitted ((a, p) ∷ q) m gs = (gs ≡ (p, a) ∷ []) × (m.w_queue ≡ q)

-- The upgrades that waited are admitted, all of them and nobody else.
abbrev pub UpgradesAdmitted : Monitor → Monitor → Grants → Type 0
UpgradesAdmitted before m gs =
    (before.u_queue ≢ [])
    × (gs ≡ grant_all write before.u_queue)
    × (m.u_queue ≡ [])
    × (m.w_queue ≡ before.w_queue)

unlock_writer_alone :
    (m : Monitor) (q : List (Access × ℕ)) {m' : Monitor} {gs : Grants} {more : Bool}
    → unlock_writer q m ≡ ok (m', gs, more)
    → GrantsWriter gs
    → (m.active_writers ≡ 0) × HeadAdmitted q m' gs
unfolding unlock_writer
unlock_writer_alone m [] e g = ground (arith, unlock_readers_grant_no_writer m)
unlock_writer_alone m ((a, p) ∷ q) e g = ground (arith, unlock_readers_grant_no_writer m)

unlock_upgrades_alone :
    (m : Monitor) (q : List ℕ) {m' : Monitor} {gs : Grants} {more : Bool}
    → unlock_upgrades q m ≡ ok (m', gs, more)
    → GrantsWriter gs
    → ((q ≡ []) × (m.active_writers ≡ 0) × HeadAdmitted m.w_queue m' gs)
      ⊎ ((q ≢ [])
          × (m.active_readers ≡ 0)
          × (gs ≡ grant_all write q)
          × (m'.u_queue ≡ [])
          × (m'.w_queue ≡ m.w_queue))
unfolding unlock_upgrades
unlock_upgrades_alone m [] e g =
    let (free, head) = unlock_writer_alone m m.w_queue e g in inl (refl, free, head)
unlock_upgrades_alone m (p ∷ q) e g = ground arith

-- When a live token is given back, in a world that calls lead to and whose counters have room, and
-- upgradable or exclusive access is granted, then either only the head of the queue of writers is
-- admitted, where no other token with such access is left and no upgrade waits; or exactly the
-- upgrades that wait are, where no reader is left, and the queue of writers stays.
pub unlock_writer_exclusion :
    {w : World} (a : Access) {m : Monitor} {gs : Grants} {more : Bool}
    → Reach w
    → HasRoom w.mon
    → 0 < live a w
    → unlock_ a w.mon ≡ ok (m, gs, more)
    → GrantsWriter gs
    → (((lose a w).upgrades + (lose a w).writes + length w.mon.u_queue ≡ 0)
        × HeadAdmitted w.mon.w_queue m gs)
      ⊎ (((lose a w).reads ≡ 0) × UpgradesAdmitted w.mon m gs)
unfolding unlock_
unlock_writer_exclusion none r room h e g = ground arith
unlock_writer_exclusion {w} read r room h e g =
    let v = Reach-Inv r in
    ground (arith, unlock_upgrades_alone (release_count read w.mon) w.mon.u_queue e g)
unlock_writer_exclusion {w} upgrade r room h e g =
    let v = Reach-Inv r in
    ground (arith, unlock_upgrades_alone (release_count upgrade w.mon) w.mon.u_queue e g)
unlock_writer_exclusion {w} write r room h e g =
    let v = Reach-Inv r in
    ground (arith, unlock_upgrades_alone (release_count write w.mon) w.mon.u_queue e g)

-- When the last token is given back while somebody waits, somebody is served.
pub last_unlock_serves :
    {w : World} (a : Access)
    → a ≢ none
    → Reach w
    → HasRoom w.mon
    → 0 < live a w
    → w.reads + w.upgrades + w.writes ≡ 1
    → w.resuming ≡ 0
    → (w.mon.w_queue ≢ []) ⊎ (w.mon.r_queue ≢ []) ⊎ (w.mon.u_queue ≢ [])
    → (m : Monitor) (gs : Grants) (more : Bool) → unlock_ a w.mon ≡ ok (m, gs, more)
    → gs ≢ []
unfolding unlock_ unlock_upgrades unlock_writer unlock_readers
last_unlock_serves none ne r room h one quiet waits m gs more e = absurd (ne refl)
last_unlock_serves {w} read ne r room h one quiet waits m gs more e =
    let v = Reach-Inv r in ground arith
last_unlock_serves {w} upgrade ne r room h one quiet waits m gs more e =
    let v = Reach-Inv r in ground arith
last_unlock_serves {w} write ne r room h one quiet waits m gs more e =
    let v = Reach-Inv r in ground arith
