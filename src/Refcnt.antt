-- ===== src/Refcnt.antt =====
-- include/ilias/refcnt.h: reference counts and the pointers that hold them. An object is a number
-- other than 0, its address; a pointer variable holds an address, 0 for `nullptr`.
pub mod Live
pub mod Pointer
pub mod TicketLock
mod Tests
use native.Mathlib.Decide.{ℕ_discrete}
use mathlib.Core.Logic.{ite}
use mathlib.Core.Option.{Option, none, some}
use ilias_async.Base.{ℕ, ◌+◌, ◌-◌, ◌%◌, ◌^◌, Bool, true, false, List, [], ◌∷◌, ◌==◌, if◌then◌else◌}

-- `m_refcount` of an object that exists, or an object that its deleter has destroyed.
pub data Cell : Type 0 where
  counted : ℕ → Cell
  deleted : Cell

abbrev pub Heap : Type 0
Heap = ℕ → Cell

abbrev pub update : Heap → ℕ → Cell → Heap
update h i c j = ite (ℕ_discrete i j) c (h j)

-- The values of `unsigned int`.
abbrev pub uint : ℕ
uint = 2 ^ 32

-- `refcnt_acquire`; `none` is an access to an object that is deleted.
pub refcnt_acquire : ℕ → ℕ → Heap → Option Heap
refcnt_acquire o nrefs h = if nrefs == 0 then some h else elim (h o) [
  | counted c ↦ some (update h o (counted ((c + nrefs) % uint)))
  | deleted ↦ none
]

-- `refcnt_release`: who takes the last reference calls the deleter.
pub refcnt_release : ℕ → ℕ → Heap → Option Heap
refcnt_release o nrefs h = if nrefs == 0 then some h else elim (h o) [
  | counted c ↦
      some (update h o (if c == nrefs then deleted else counted ((c + uint - nrefs) % uint)))
  | deleted ↦ none
]

pub refcnt_is_solo : ℕ → Heap → Option Bool
refcnt_is_solo o h = elim (h o) [ counted c ↦ some (c == 1) | deleted ↦ none ]

pub refcnt_is_zero : ℕ → Heap → Option Bool
refcnt_is_zero o h = elim (h o) [ counted c ↦ some (c == 0) | deleted ↦ none ]

-- What one `compare_exchange_weak` meets: the count, as other threads have left it, and whether the
-- exchange fails although the count is the expected one.
pub record Attempt : Type 0 where
  pub found : ℕ
  pub spurious : Bool

pub data Acquired : Type 0 where
  acquired : (before after : ℕ) → Acquired  -- true, with the count that was exchanged
  refused : Acquired  -- false
  looping : Acquired  -- the attempts are used up

-- The loop of `refcnt_acquire_iff_live`.
pub acquire_loop : ℕ → ℕ → List Attempt → Acquired
acquire_loop nrefs expect [] = looping
acquire_loop nrefs expect (t ∷ ts) =
    let rest = if t.found == 0 then refused else acquire_loop nrefs t.found ts in
    if t.spurious
    then rest
    else if t.found == expect
    then acquired t.found ((expect + nrefs) % uint)
    else rest

pub refcnt_acquire_iff_live : ℕ → List Attempt → Acquired
unfolding acquire_loop
refcnt_acquire_iff_live nrefs ts = acquire_loop nrefs 1 ts
