-- ===== src/Intf/Tests.antt =====
-- Runs of the threadpool interface.
use ilias_async.Base.{◌≡◌, refl, true, false, [], ◌∷◌, ◌==◌, if◌then◌else◌, arith}
use ilias_async.Intf.{Intf}
use ilias_async.Intf.Counts.{
  Owners, Counted, Ends, after, must_wait, perform, perform-Counted, releases_client,
}
use ilias_async.Intf.Multiplexer.{Multiplexer, no, yes_work, mem, wakeup, work_on}
use ilias_async.Intf.Multiplexer.Wakeups.{wakeup_lost}

-- One pointer of each side, and a lock of the service.
abbrev joined : Intf
joined = record {
  refs = 2;
  client_locks = 0;
  service_locks = 1;
  service_refs = 1;
  client_refs = 1;
  service_detached = 0;
  client_detached = 0;
  deleted = false;
}

abbrev one_each : Owners
one_each = record { clients = 1; services = 1; others = 0; client_lockers = 0; service_lockers = 1 }

joined-Counted : Counted joined one_each
joined-Counted = (
  refl,
  refl,
  refl,
  refl,
  refl,
  refl,
  omega arith,
  omega arith,
  omega arith,
  omega arith,
  omega arith,
)

perform-Counted_example :
    Ends
      (λ t. Counted t (after (releases_client 1) one_each))
      (must_wait (releases_client 1) one_each)
      (perform (releases_client 1) joined)
perform-Counted_example =
    perform-Counted joined one_each (releases_client 1) joined-Counted (omega arith, omega arith)

-- Two services; the first has no work, the second is active.
abbrev two_services : Multiplexer
two_services = record {
  avail = λ x. if x == 1 then no else yes_work;
  attached = λ x. true;
  active = 2 ∷ [];
  all_data = 1 ∷ 2 ∷ [];
  worked = λ x. 0;
}

wakeup_lost_example :
    (mem 1 (wakeup (λ n. n) [] 1 3 two_services).0.active ≡ true)
    × (work_on 1 true (λ m. m) (wakeup (λ n. n) [] 1 3 two_services).0 ≡ two_services)
wakeup_lost_example =
    wakeup_lost (λ n. n) 3 1 two_services true (λ m. m) (omega arith) refl refl refl
