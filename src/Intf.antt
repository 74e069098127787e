-- ===== src/Intf.antt =====
-- src/threadpool_intf.cc, include/ilias/threadpool_intf.h: the references and the locks of an object that
-- joins a client and a service of a threadpool.
use ilias_async.Base.{
  ℕ, ◌+◌, ◌-◌, ◌%◌, Bool, true, false, if◌then◌else◌, ◌==◌, ltb, leb, word, add_word,
}
pub mod Counts
pub mod Multiplexer
mod Tests

-- `threadpool_intf_refcnt` and `refcount`, with how often `on_service_detach` and `on_client_detach`
-- were called, and whether the object was deleted.
pub record Intf : Type 0 where
  pub refs : ℕ
  pub client_locks : ℕ
  pub service_locks : ℕ
  pub service_refs : ℕ
  pub client_refs : ℕ
  pub service_detached : ℕ
  pub client_detached : ℕ
  pub deleted : Bool

-- What a call ends in: a loop that waits for other threads is `waits`, a failing assertion `fails`.
pub data Outcome : Type 0 where
  done : Intf → Outcome
  waits fails : Outcome

abbrev pub then_do : Outcome → (Intf → Outcome) → Outcome
then_do (done s) f = f s
then_do waits f = waits
then_do fails f = fails

abbrev pub sub_word : ℕ → ℕ → ℕ
sub_word x n = (x + word - n) % word

-- `refcnt_acquire` and `refcnt_release`
unfoldable pub refcnt_acquire : ℕ → Intf → Outcome
refcnt_acquire n s =
    if ltb s.refs (add_word s.refs n) then done (record s { refs = add_word s.refs n }) else fails

unfoldable pub refcnt_release : ℕ → Intf → Outcome
refcnt_release n s =
    if leb n s.refs
    then done
        (record s { refs = sub_word s.refs n; deleted = if s.refs == n then true else s.deleted })
    else fails

-- `refcount::service_acquire` and `refcount::client_acquire`: was it the first reference?
unfoldable pub service_acquire : ℕ → Intf → Intf × Bool
service_acquire n s =
    if n == 0
    then (s, false)
    else (record s { service_refs = add_word s.service_refs n }, s.service_refs == 0)

unfoldable pub client_acquire : ℕ → Intf → Intf × Bool
client_acquire n s =
    if n == 0
    then (s, false)
    else (record s { client_refs = add_word s.client_refs n }, s.client_refs == 0)

-- `refcount::service_release` and `refcount::client_release`: was it the last reference?
unfoldable pub service_release : ℕ → Intf → Intf × Bool
service_release n s = if n == 0 then (s, false) else (
  record s {
    service_refs = sub_word s.service_refs n;
    service_detached = if s.service_refs == n then s.service_detached + 1 else s.service_detached;
  },
  s.service_refs == n,
)

unfoldable pub client_release : ℕ → Intf → Intf × Bool
client_release n s = if n == 0 then (s, false) else (
  record s {
    client_refs = sub_word s.client_refs n;
    client_detached = if s.client_refs == n then s.client_detached + 1 else s.client_detached;
  },
  s.client_refs == n,
)

-- `client_lock_wait`, and `service_lock_wait`, which tests the same counter.
unfoldable pub client_lock_wait : Intf → Outcome
client_lock_wait s = if s.client_locks == 0 then done s else waits

unfoldable pub service_lock_wait : Intf → Outcome
service_lock_wait s = if s.client_locks == 0 then done s else waits

-- `_has_service` and `_has_client`, which read the same counter.
unfoldable pub has_service : Intf → Bool
has_service s = ltb 0 s.service_refs

unfoldable pub has_client : Intf → Bool
has_client s = ltb 0 s.service_refs

-- `client_acqrel` and `service_acqrel`
unfoldable pub acquire_client : ℕ → Intf → Outcome
unfolding client_acquire refcnt_acquire
acquire_client n s =
    let (t, first) = client_acquire n s in if first then refcnt_acquire 1 t else done t

unfoldable pub acquire_service : ℕ → Intf → Outcome
unfolding service_acquire refcnt_acquire
acquire_service n s =
    let (t, first) = service_acquire n s in if first then refcnt_acquire 1 t else done t

unfoldable pub release_client : ℕ → Intf → Outcome
unfolding client_release client_lock_wait refcnt_release
release_client n s =
    let (t, last) = client_release n s in
    if last then then_do (client_lock_wait t) (λ u. refcnt_release 1 u) else done t

unfoldable pub release_service : ℕ → Intf → Outcome
unfolding service_release service_lock_wait refcnt_release
release_service n s =
    let (t, last) = service_release n s in
    if last then then_do (service_lock_wait t) (λ u. refcnt_release 1 u) else done t

-- The constructor and the destructor of `threadpool_client_lock` and `threadpool_service_lock`; the
-- counters are of the type `unsigned int`.
abbrev pub uint : ℕ
uint = 4294967296

unfoldable pub lock_client : Intf → Intf
lock_client s = record s { client_locks = (s.client_locks + 1) % uint }

unfoldable pub unlock_client : Intf → Intf
unlock_client s = record s { client_locks = (s.client_locks + uint - 1) % uint }

unfoldable pub lock_service : Intf → Intf
lock_service s = record s { service_locks = (s.service_locks + 1) % uint }

unfoldable pub unlock_service : Intf → Intf
unlock_service s = record s { service_locks = (s.service_locks + uint - 1) % uint }
