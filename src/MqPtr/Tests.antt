-- ===== src/MqPtr/Tests.antt =====
-- The reference counts of a message queue at concrete inputs.
use ilias_async.Base.{◌≡◌, refl, false, arith}
use ilias_async.MqPtr.{Mq, returns, in_acquire, in_release, enqueue, create}
use ilias_async.MqPtr.Leaks

abbrev shared : Mq
shared = record { count = 1; input = 2; deleted = false; fires = 0 }

abbrev single : Mq
single = record { count = 0; input = 1; deleted = false; fires = 0 }

create_single : create ≡ returns single
unfolding create
create_single = refl

-- A second pointer takes the reference that the first one left out.
copy_shared : in_acquire 1 single ≡ returns shared
unfolding in_acquire
copy_shared = refl

release_shared : in_release 1 1 shared ≡ returns (record single { count = 1 })
unfolding in_release
release_shared = refl

enqueue-leaks_example : enqueue 1 single ≡ returns (record single { count = 1; fires = 1 })
enqueue-leaks_example = Leaks.enqueue-leaks 0 single (omega arith) (omega arith) (omega arith)

last_release_recurs_example : Leaks.returns? (in_release 5 1 single) ≡ false
last_release_recurs_example = Leaks.last_release_recurs 5 0 0 false
