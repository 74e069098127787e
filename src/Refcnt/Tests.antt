-- ===== src/Refcnt/Tests.antt =====
-- Reference counts at concrete inputs.
use ilias_async.Base.{[], ◌∷◌, ◌==◌, if◌then◌else◌, arith}
use ilias_async.Refcnt.{counted, deleted}
use ilias_async.Refcnt.Pointer.{State}
use ilias_async.Refcnt.Pointer.Safety.{Owned, Safe}
use ilias_async.Refcnt.Pointer.Program.{perform, compares, perform-Safe}

-- Two variables share object 7; a third is null.
abbrev shared : State
shared = record {
  vars = 7 ∷ 7 ∷ 0 ∷ [];
  raw = [];
  heap = λ o. if o == 7 then counted 2 else deleted;
}

shared-Owned : Owned shared
shared-Owned = record { balanced = λ o n. ground arith; room = omega arith }

perform-Safe_example : Safe (perform (compares 0 1 2) shared)
perform-Safe_example =
    perform-Safe (compares 0 1 2) shared shared-Owned (omega arith, omega arith, omega arith)
