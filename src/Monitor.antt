-- ===== src/Monitor.antt =====
-- src/monitor.cc and include/ilias/monitor.h: an asynchronous reader/writer lock with upgradable
-- access. A promise is a number; an operation returns the new state and the grants, that is the
-- promises that it fulfils, each with the access of the token that it is given.
pub mod World
pub mod Token
pub mod Promises
pub mod Faults
mod Tests
use ilias_async.Base.{
  ℕ, Bool, true, false, ◌&&◌, ◌||◌, not, List, [], ◌∷◌, ◌++◌, map, length, ◌==◌, if◌then◌else◌,
  is_empty, Checked, ok, check, inc, dec, add_word,
}

-- `monitor::access`
pub data Access : Type 0 where
  none read upgrade write : Access

abbrev pub is_read : Access → Bool
is_read read = true
is_read _ = false

abbrev pub is_upgrade : Access → Bool
is_upgrade upgrade = true
is_upgrade _ = false

abbrev pub is_write : Access → Bool
is_write write = true
is_write _ = false

-- The fields of `monitor` that its mutex protects. The counters are of type `uintptr_t`.
pub record Monitor : Type 0 where
  pub active_readers : ℕ
  pub active_writers : ℕ
  pub upgrade_active : ℕ
  pub w_queue : List (Access × ℕ)
  pub r_queue : List ℕ
  pub u_queue : List ℕ

abbrev pub Grants : Type 0
Grants = List (ℕ × Access)

abbrev pub initial : Monitor
initial = record {
  active_readers = 0;
  active_writers = 0;
  upgrade_active = 0;
  w_queue = [];
  r_queue = [];
  u_queue = [];
}

-- The assertions of `~monitor`.
pub destroy : Monitor → Checked (Unit {0})
destroy m = check (m.active_readers == 0) (
    check (m.upgrade_active == 0) (
      check (m.active_writers == 0)
        (check (is_empty m.w_queue) (check (is_empty m.r_queue) (ok tt)))))

-- `++active_writers_; if (a == access::upgrade) ++upgrade_active_;`
abbrev pub count_writer : Access → Monitor → Monitor
count_writer a m = record m {
  active_writers = inc m.active_writers;
  upgrade_active = if is_upgrade a then inc m.upgrade_active else m.upgrade_active;
}

-- The switch at the end of `queue_`.
abbrev pub enqueue : ℕ → Access → Monitor → Monitor × Grants
enqueue p read m = (record m { r_queue = p ∷ m.r_queue }, [])
enqueue p write m = (record m { w_queue = m.w_queue ++ (write, p) ∷ [] }, [])
enqueue p upgrade m = (record m { w_queue = m.w_queue ++ (upgrade, p) ∷ [] }, [])
enqueue p none m = (m, (p, none) ∷ [])

pub queue_ : ℕ → Access → Monitor → Checked (Monitor × Grants)
queue_ p a m =
    if is_read a && (m.active_writers == 0 || not (m.upgrade_active == 0))
    then ok (record m { active_readers = inc m.active_readers }, (p, a) ∷ [])
    else if (is_write a || is_upgrade a) && (m.active_writers == 0 && m.active_readers == 0)
    then check (m.upgrade_active == 0) (ok (count_writer a m, (p, a) ∷ []))
    else ok (enqueue p a m)

-- `queue`: access `none` is granted at once, without the mutex.
pub queue : ℕ → Access → Monitor → Checked (Monitor × Grants)
unfolding queue_
queue p none m = ok (m, (p, none) ∷ [])
queue p a m = queue_ p a m

-- Returns the access of the token.
pub try_immediate : Access → Monitor → Checked (Monitor × Access)
try_immediate a m =
    if is_read a && m.active_writers == m.upgrade_active
    then ok (record m { active_readers = inc m.active_readers }, a)
    else if is_upgrade a && m.active_writers == 0
    then check (m.upgrade_active == 0) (ok (count_writer a m, a))
    else if is_write a && (m.active_writers == 0 && m.active_readers == 0)
    then check (m.upgrade_active == 0) (ok (count_writer a m, a))
    else ok (m, none)

-- The switch at the start of `unlock_`.
abbrev pub release_count : Access → Monitor → Monitor
release_count read m = record m { active_readers = dec m.active_readers }
release_count upgrade m = record m {
  upgrade_active = dec m.upgrade_active;
  active_writers = dec m.active_writers;
}
release_count write m = record m { active_writers = dec m.active_writers }
release_count none m = m

abbrev pub grant_all : Access → List ℕ → Grants
grant_all a = map (λ p. (p, a))

-- The last part of `unlock_`: every waiting reader, when the writers are all upgradable.
pub unlock_readers : Monitor → Monitor × Grants
unlock_readers m =
    if not (is_empty m.r_queue) && m.active_writers == m.upgrade_active
    then (
      record m { active_readers = add_word m.active_readers (length m.r_queue); r_queue = [] },
      grant_all read m.r_queue,
    )
    else (m, [])

-- The state, the grants, and whether the mutex was released in between, so that `unlock_readers`
-- follows in a critical section of its own.
abbrev pub Unlocked : Type 0
Unlocked = Monitor × Grants × Bool

-- The first waiting writer, when there is no other; then the readers.
unlock_writer : List (Access × ℕ) → Monitor → Checked Unlocked
unfolding unlock_readers
unlock_writer [] m = let (m', gs) = unlock_readers m in ok (m', gs, false)
unlock_writer ((a, p) ∷ rest) m =
    if m.active_writers == 0
    then check (m.upgrade_active == 0)
        (ok (count_writer a (record m { w_queue = rest }), (p, a) ∷ [], not (is_write a)))
    else let (m', gs) = unlock_readers m in ok (m', gs, false)

-- The waiting upgrades, once the last reader has gone; nobody else while there are any.
unlock_upgrades : List ℕ → Monitor → Checked Unlocked
unfolding unlock_writer
unlock_upgrades [] m = unlock_writer m.w_queue m
unlock_upgrades (p ∷ ps) m =
    if m.active_readers == 0
    then ok (record m { u_queue = [] }, grant_all write (p ∷ ps), false)
    else ok (m, [], false)

pub unlock_ : Access → Monitor → Checked Unlocked
unfolding unlock_upgrades
unlock_ none m = ok (m, [], false)
unlock_ a m = let m' = release_count a m in unlock_upgrades m'.u_queue m'

pub add_ : Access → Monitor → Monitor
add_ read m = record m { active_readers = inc m.active_readers }
add_ upgrade m = record m {
  upgrade_active = inc m.upgrade_active;
  active_writers = inc m.active_writers;
}
add_ write m = record m { active_writers = inc m.active_writers }
add_ none m = m

pub upgrade_to_write_ : ℕ → Monitor → Monitor × Grants
upgrade_to_write_ p m =
    let m' : Monitor = record m { active_writers = inc m.active_writers } in
    if m'.active_readers == 0
    then (m', (p, write) ∷ [])
    else (record m' { u_queue = p ∷ m'.u_queue }, [])

pub try_lock : Monitor → Checked (Monitor × Bool)
try_lock m =
    if m.active_writers == 0 && m.active_readers == 0
    then check (m.upgrade_active == 0)
        (ok (record m { active_writers = inc m.active_writers }, true))
    else ok (m, false)

-- One round of the loop in `lock`: `false` means that the thread yields and tests again.
pub lock_round : Monitor → Checked (Monitor × Bool)
lock_round m =
    if not (m.active_writers == 0) || not (m.active_readers == 0)
    then ok (m, false)
    else check (m.upgrade_active == 0)
        (ok (record m { active_writers = inc m.active_writers }, true))

pub try_lock_shared : Monitor → Monitor × Bool
try_lock_shared m =
    if m.active_writers == m.upgrade_active
    then (record m { active_readers = inc m.active_readers }, true)
    else (m, false)

-- One round of the loop in `lock_shared`.
pub lock_shared_round : Monitor → Checked (Monitor × Bool)
lock_shared_round m =
    if not (m.active_readers == m.upgrade_active)
    then ok (m, false)
    else check (m.upgrade_active == 0)
        (ok (record m { active_readers = inc m.active_readers }, true))
