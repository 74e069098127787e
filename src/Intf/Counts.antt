-- ===== src/Intf/Counts.antt =====
-- src/threadpool_intf.cc: who holds references, and when the object is deleted.
use ilias_async.Base.{
  ℕ, ◌+◌, ◌-◌, ◌<◌, ◌≤◌, ◌≡◌, refl, Bool, true, false, not, ◌&&◌, Bool-cases, if◌then◌else◌, ◌==◌,
  ltb, leb, arith, word, add_word, inl, inr,
}
use ilias_async.Intf.{
  Intf, Outcome, done, waits, fails, refcnt_acquire, refcnt_release, client_acquire, client_release,
  service_acquire, service_release, client_lock_wait, service_lock_wait, acquire_client,
  acquire_service, release_client, release_service, lock_client, unlock_client, lock_service,
  unlock_service, uint,
}

-- The pointers to the object, of each kind, and the threads in a section of each kind of lock.
pub record Owners : Type 0 where
  pub clients : ℕ
  pub services : ℕ
  pub others : ℕ
  pub client_lockers : ℕ
  pub service_lockers : ℕ

pub data Call : Type 0 where
  acquires_client acquires_service acquires_other : ℕ → Call
  releases_client releases_service releases_other : ℕ → Call
  locks_client unlocks_client locks_service unlocks_service : Call

abbrev pub pointers : Owners → ℕ
pointers o = o.clients + (o.services + o.others)

unfoldable pub perform : Call → Intf → Outcome
unfolding acquire_client acquire_service refcnt_acquire release_client release_service
    refcnt_release lock_client unlock_client lock_service unlock_service
perform (acquires_client n) s = acquire_client n s
perform (acquires_service n) s = acquire_service n s
perform (acquires_other n) s = refcnt_acquire n s
perform (releases_client n) s = release_client n s
perform (releases_service n) s = release_service n s
perform (releases_other n) s = refcnt_release n s
perform locks_client s = done (lock_client s)
perform unlocks_client s = done (unlock_client s)
perform locks_service s = done (lock_service s)
perform unlocks_service s = done (unlock_service s)

unfoldable pub after : Call → Owners → Owners
after (acquires_client n) o = record o { clients = o.clients + n }
after (acquires_service n) o = record o { services = o.services + n }
after (acquires_other n) o = record o { others = o.others + n }
after (releases_client n) o = record o { clients = o.clients - n }
after (releases_service n) o = record o { services = o.services - n }
after (releases_other n) o = record o { others = o.others - n }
after locks_client o = record o { client_lockers = o.client_lockers + 1 }
after unlocks_client o = record o { client_lockers = o.client_lockers - 1 }
after locks_service o = record o { service_lockers = o.service_lockers + 1 }
after unlocks_service o = record o { service_lockers = o.service_lockers - 1 }

-- Whoever calls has a pointer, releases no more than there are, and no counter overflows.
abbrev pub Allowed : Call → Owners → Type 0
Allowed (acquires_client n) o = (0 < pointers o) × (o.clients + n < word)
Allowed (acquires_service n) o = (0 < pointers o) × (o.services + n < word)
Allowed (acquires_other n) o = (0 < pointers o) × (0 < n) × (o.others + n + 2 < word)
Allowed (releases_client n) o = (n ≤ o.clients) × (0 < pointers o)
Allowed (releases_service n) o = (n ≤ o.services) × (0 < pointers o)
Allowed (releases_other n) o = (n ≤ o.others) × (0 < pointers o)
Allowed locks_client o = (0 < pointers o) × (o.client_lockers + 1 < uint)
Allowed unlocks_client o = 0 < o.client_lockers
Allowed locks_service o = (0 < pointers o) × (o.service_lockers + 1 < uint)
Allowed unlocks_service o = 0 < o.service_lockers

-- The calls that must wait: the last pointer of a side goes while a client lock is held.
unfoldable pub must_wait : Call → Owners → Bool
must_wait (releases_client n) o = not (n == 0) && ((o.clients == n) && not (o.client_lockers == 0))
must_wait (releases_service n) o =
    not (n == 0) && ((o.services == n) && not (o.client_lockers == 0))
must_wait c o = false

abbrev pub one : ℕ → ℕ
one n = if n == 0 then 0 else 1

-- The counters are the numbers of pointers; both sides have one common reference each; the object is
-- deleted when there is no pointer any more.
abbrev pub Counted : Intf → Owners → Type 0
Counted s o =
    (s.client_refs ≡ o.clients)
    × (s.service_refs ≡ o.services)
    × (s.refs ≡ o.others + (one o.clients + one o.services))
    × (s.client_locks ≡ o.client_lockers)
    × (s.service_locks ≡ o.service_lockers)
    × (s.deleted ≡ (pointers o == 0))
    × (o.clients < word)
    × (o.services < word)
    × (o.others + 2 < word)
    × (o.client_lockers < uint)
    × (o.service_lockers < uint)

abbrev pub Ends : (Intf → Type 0) → Bool → Outcome → Type 0
Ends P w (done t) = (w ≡ false) × P t
Ends P w waits = w ≡ true
Ends P w fails = ⊥

module _ (s : Intf) (o : Owners) (c : Counted s o) where
  acquire_client-Counted :
      (n : ℕ)
      → Allowed (acquires_client n) o
      → Ends
          (λ t. Counted t (after (acquires_client n) o))
          (must_wait (acquires_client n) o)
          (acquire_client n s)
  unfolding acquire_client client_acquire refcnt_acquire after must_wait
  acquire_client-Counted n a = elim (Bool-cases (n == 0)) [
    | inl z ↦ rw z (refl, ground (arith, z, c))
    | inr z ↦ elim (Bool-cases (s.client_refs == 0)) [
      | inl f ↦
          let fits : ltb s.refs (add_word s.refs 1) ≡ true = ground (arith, c) in
          rw (z, f, fits) (refl, ground (arith, a, z, f, c))
      | inr f ↦ rw (z, f) (refl, ground (arith, a, z, f, c))
    ]
  ]

  acquire_service-Counted :
      (n : ℕ)
      → Allowed (acquires_service n) o
      → Ends
          (λ t. Counted t (after (acquires_service n) o))
          (must_wait (acquires_service n) o)
          (acquire_service n s)
  unfolding acquire_service service_acquire refcnt_acquire after must_wait
  acquire_service-Counted n a = elim (Bool-cases (n == 0)) [
    | inl z ↦ rw z (refl, ground (arith, z, c))
    | inr z ↦ elim (Bool-cases (s.service_refs == 0)) [
      | inl f ↦
          let fits : ltb s.refs (add_word s.refs 1) ≡ true = ground (arith, c) in
          rw (z, f, fits) (refl, ground (arith, a, z, f, c))
      | inr f ↦ rw (z, f) (refl, ground (arith, a, z, f, c))
    ]
  ]

  release_client-Counted :
      (n : ℕ)
      → Allowed (releases_client n) o
      → Ends
          (λ t. Counted t (after (releases_client n) o))
          (must_wait (releases_client n) o)
          (release_client n s)
  unfolding release_client client_release client_lock_wait refcnt_release after must_wait
  release_client-Counted n a = elim (Bool-cases (n == 0)) [
    | inl z ↦ rw z (refl, ground (arith, z, c))
    | inr z ↦ elim (Bool-cases (s.client_refs == n)) [
      | inr f ↦ rw (z, f) (ground (arith, f, c), ground (arith, a, z, f, c))
      | inl f ↦ elim (Bool-cases (s.client_locks == 0)) [
        | inr l ↦ rw (z, f, l) (ground (arith, z, f, l, c))
        | inl l ↦
            let fits : leb 1 s.refs ≡ true = ground (arith, a, z, f, c) in
            rw (z, f, l, fits) (ground (arith, l, c), ground (arith, a, z, f, c))
      ]
    ]
  ]

  release_service-Counted :
      (n : ℕ)
      → Allowed (releases_service n) o
      → Ends
          (λ t. Counted t (after (releases_service n) o))
          (must_wait (releases_service n) o)
          (release_service n s)
  unfolding release_service service_release service_lock_wait refcnt_release after must_wait
  release_service-Counted n a = elim (Bool-cases (n == 0)) [
    | inl z ↦ rw z (refl, ground (arith, z, c))
    | inr z ↦ elim (Bool-cases (s.service_refs == n)) [
      | inr f ↦ rw (z, f) (ground (arith, f, c), ground (arith, a, z, f, c))
      | inl f ↦ elim (Bool-cases (s.client_locks == 0)) [
        | inr l ↦ rw (z, f, l) (ground (arith, z, f, l, c))
        | inl l ↦
            let fits : leb 1 s.refs ≡ true = ground (arith, a, z, f, c) in
            rw (z, f, l, fits) (ground (arith, l, c), ground (arith, a, z, f, c))
      ]
    ]
  ]

  acquire_other-Counted :
      (n : ℕ)
      → Allowed (acquires_other n) o
      → Ends (λ t. Counted t (after (acquires_other n) o)) false (refcnt_acquire n s)
  unfolding refcnt_acquire after
  acquire_other-Counted n a =
      let fits : ltb s.refs (add_word s.refs n) ≡ true = ground (arith, a, c) in
      rw fits (refl, ground (arith, a, c))

  release_other-Counted :
      (n : ℕ)
      → Allowed (releases_other n) o
      → Ends (λ t. Counted t (after (releases_other n) o)) false (refcnt_release n s)
  unfolding refcnt_release after
  release_other-Counted n a =
      let fits : leb n s.refs ≡ true = ground (arith, a, c) in rw fits (refl, ground (arith, a, c))

-- A call of a thread that has a pointer: no assertion fails, the counters are again the numbers of
-- pointers and of locks, and the object is deleted exactly when no pointer of any kind is left; the
-- last release of a side waits where a client lock is held.
pub perform-Counted :
    (s : Intf) (o : Owners) (call : Call)
    → Counted s o
    → Allowed call o
    → Ends (λ t. Counted t (after call o)) (must_wait call o) (perform call s)
unfolding perform after must_wait lock_client unlock_client lock_service unlock_service
perform-Counted s o (acquires_client n) c a = acquire_client-Counted s o c n a
perform-Counted s o (acquires_service n) c a = acquire_service-Counted s o c n a
perform-Counted s o (acquires_other n) c a = acquire_other-Counted s o c n a
perform-Counted s o (releases_client n) c a = release_client-Counted s o c n a
perform-Counted s o (releases_service n) c a = release_service-Counted s o c n a
perform-Counted s o (releases_other n) c a = release_other-Counted s o c n a
perform-Counted s o locks_client c a = (refl, ground (arith, a, c))
perform-Counted s o unlocks_client c a = (refl, ground (arith, a, c))
perform-Counted s o locks_service c a = (refl, ground (arith, a, c))
perform-Counted s o unlocks_service c a = (refl, ground (arith, a, c))

abbrev pub is_waiting : Outcome → Bool
is_waiting (done t) = false
is_waiting waits = true
is_waiting fails = false

-- Whether the release of the last `n` pointers of a service waits does not depend on the number `k` of
-- service locks that are held: it waits exactly when a client lock is held.
pub service_lock_ignored :
    (s : Intf) (n k : ℕ)
    → 0 < n
    → s.service_refs ≡ n
    → is_waiting (release_service n (record s { service_locks = k })) ≡ not (s.client_locks == 0)
unfolding release_service service_release service_lock_wait refcnt_release
service_lock_ignored s n k p e =
    let some : (n == 0) ≡ false = ground (arith, p) in
    let last : (s.service_refs == n) ≡ true = ground (arith, e) in
    elim (Bool-cases (s.client_locks == 0)) [
      | inr l ↦ rw (some, last, l) refl
      | inl l ↦ elim (Bool-cases (leb 1 s.refs)) [
        | inl f ↦ rw (some, last, l, f) refl
        | inr f ↦ rw (some, last, l, f) refl
      ]
    ]
