-- ===== src/Monitor/Token.antt =====
-- include/ilias/monitor-inl.h and the end of src/monitor.cc: tokens and the monitors they lock.
use native.Mathlib.Decide.{ℕ_discrete}
use mathlib.Core.Logic.{ite}
use ilias_async.Base.{
  ℕ, ◌≡◌, ◌≢◌, Bool, true, false, not, ◌&&◌, ◌||◌, [], ◌++◌, Checked, ok, assert_failed, arith,
  ◌==◌, if◌then◌else◌, ltb,
}
use ilias_async.Monitor.{
  Access, none, read, upgrade, write, Monitor, Grants, unlock_, unlock_readers, add_,
  upgrade_to_write_,
}

-- `monitor::token`: the address of the monitor, 0 for `nullptr`, and the access.
pub record Token : Type 0 where
  pub owner : ℕ
  pub access : Access

-- The monitors by address.
abbrev pub Heap : Type 0
Heap = ℕ → Monitor

abbrev pub update : Heap → ℕ → Monitor → Heap
update h i m j = ite (ℕ_discrete i j) m (h j)

abbrev pub same_access : Access → Access → Bool
same_access none none = true
same_access read read = true
same_access upgrade upgrade = true
same_access write write = true
same_access _ _ = false

pub locked : Token → Bool
locked t = not (t.owner == 0) && not (same_access t.access none)

-- `token(const token&)`: the copy is `t` itself.
abbrev pub copy : Token → Heap → Heap
copy t h = if t.owner == 0 then h else update h t.owner (add_ t.access (h t.owner))

-- `token(token&&)`: the new token and the one that it is made from.
abbrev pub move : Token → Token × Token
move t = (t, record t { owner = 0 })

-- All of `unlock_`, with no other call between its two critical sections.
abbrev pub unlock_whole : Access → Monitor → Checked (Monitor × Grants)
unlock_whole a m = elim (unlock_ a m) [
  | ok (m', gs, more) ↦
      ok (if more then ((unlock_readers m').0, gs ++ (unlock_readers m').1) else (m', gs))
  | assert_failed ↦ assert_failed
]

-- `~token`
abbrev pub release : Token → Heap → Checked (Heap × Grants)
release t h = if t.owner == 0 then ok (h, []) else elim (unlock_whole t.access (h t.owner)) [
  | ok (m, gs) ↦ ok (update h t.owner m, gs)
  | assert_failed ↦ assert_failed
]

-- An assignment ends with both tokens, the heap and the promises that are fulfilled.
abbrev pub Assigned : Type 0
Assigned = Token × Token × Heap × Grants

-- `token(t).swap(*this)`: a copy of `t` is made, takes the place of `self`, and what `self` was is
-- destroyed with the temporary.
pub assign_swap : Token → Token → Heap → Checked Assigned
assign_swap self t h = elim (release self (copy t h)) [
  | ok (h', gs) ↦ ok (t, t, h', gs)
  | assert_failed ↦ assert_failed
]

-- `operator=(const token&)`
pub copy_assign : Token → Token → Heap → Checked Assigned
unfolding assign_swap
copy_assign self t h = assign_swap self t h

-- `operator=(token&&)`: `t` is a name here, so that `token(t)` copies too.
pub move_assign : Token → Token → Heap → Checked Assigned
unfolding assign_swap
move_assign self t h = assign_swap self t h

unfoldable pub eq : Token → Token → Bool
eq s t = s.owner == t.owner && same_access s.access t.access

pub ne : Token → Token → Bool
unfolding eq
ne s t = not (eq s t)

pub lt : Token → Token → Bool
lt s t = ltb s.owner t.owner || (s.owner == t.owner && same_access s.access t.access)

pub gt : Token → Token → Bool
unfolding lt
gt s t = lt t s

pub le : Token → Token → Bool
unfolding lt
le s t = not (lt t s)

pub ge : Token → Token → Bool
unfolding lt
ge s t = not (lt s t)

-- The messages of `std::invalid_argument`.
pub data Refusal : Type 0 where
  unlocked read_locked upgrade_locked write_locked none_locked : Refusal

pub data Result (A : Type 0) : Type 0 where
  done : A → Result A
  throws : Refusal → Result A

pub upgrade_to_write : Token → ℕ → Heap → Result (Heap × Grants)
upgrade_to_write t p h = if t.owner == 0 then throws unlocked else elim t.access [
  | upgrade ↦ let (m, gs) = upgrade_to_write_ p (h t.owner) in done (update h t.owner m, gs)
  | read ↦ throws read_locked
  | write ↦ throws write_locked
  | none ↦ throws none_locked
]

downgraded : Access → Token → Heap → Result (Token × Heap)
downgraded a t h =
    done (record { owner = t.owner; access = a }, update h t.owner (add_ a (h t.owner)))

pub downgrade_to_read : Token → Heap → Result (Token × Heap)
unfolding downgraded
downgrade_to_read t h = if t.owner == 0 then throws unlocked else elim t.access [
  | upgrade ↦ downgraded read t h
  | read ↦ throws read_locked
  | write ↦ downgraded read t h
  | none ↦ throws none_locked
]

pub downgrade_to_upgrade : Token → Heap → Result (Token × Heap)
unfolding downgraded
downgrade_to_upgrade t h = if t.owner == 0 then throws unlocked else elim t.access [
  | upgrade ↦ throws upgrade_locked
  | read ↦ throws read_locked
  | write ↦ downgraded upgrade t h
  | none ↦ throws none_locked
]

-- The comparisons order two tokens of one monitor with different access in neither way, and say at
-- the same time that each is at most the other.
pub lt_ignores_access :
    (s t : Token)
    → s.owner ≡ t.owner
    → eq s t ≡ false
    → (lt s t ≡ false) × (lt t s ≡ false) × (le s t ≡ true) × (le t s ≡ true)
unfolding eq lt le
lt_ignores_access s t e n = ground arith

-- Move assignment leaves its source as it was, and takes one more lock on its monitor where the
-- target was empty: it is copy assignment.
pub move_assign_copies :
    (self t : Token) (h : Heap)
    → self.owner ≡ 0
    → t.owner ≢ 0
    → (move_assign self t h ≡ ok (t, t, update h t.owner (add_ t.access (h t.owner)), []))
      × (move_assign self t h ≡ copy_assign self t h)
unfolding move_assign copy_assign
move_assign_copies self t h e n = ground arith

abbrev pub is_done : {A : Type 0} → Result A → Bool
is_done (done a) = true
is_done (throws e) = false
