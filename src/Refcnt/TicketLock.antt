-- ===== src/Refcnt/TicketLock.antt =====
-- src/refcnt.cc: `atom_lck::impl`, the lock under which the atomic operations of a `refpointer` run.
pub mod Fair
mod Tests
use ilias_async.Base.{
  ℕ, zero, suc, ◌+◌, ◌%◌, ◌<◌, ◌≡◌, Bool, true, false, List, [], ◌∷◌, ◌++◌, ◌==◌, if◌then◌else◌,
  length,
}
use ilias_async.Refcnt.{uint}

-- `m_ticket` and `m_start`; the tickets of the threads that wait, in the order in which these drew
-- them, and of those that have come out of `lock`.
pub record Lock : Type 0 where
  pub ticket : ℕ
  pub start : ℕ
  pub waiting : List ℕ
  pub inside : List ℕ

abbrev pub initial : Lock
initial = record { ticket = 0; start = 0; waiting = []; inside = [] }

-- `m_ticket.fetch_add(1U)`
unfoldable pub draw : Lock → Lock
draw l = record l { ticket = (l.ticket + 1) % uint; waiting = l.waiting ++ (l.ticket ∷ []) }

abbrev pub member : ℕ → List ℕ → Bool
member t [] = false
member t (u ∷ us) = if t == u then true else member t us

abbrev pub remove : ℕ → List ℕ → List ℕ
remove t [] = []
remove t (u ∷ us) = if t == u then us else u ∷ remove t us

-- A thread whose ticket is the start that it has loaded leaves the loops of `lock`.
unfoldable pub enter : ℕ → Lock → Lock
enter t l = record l { waiting = remove t l.waiting; inside = t ∷ l.inside }

-- `unlock`
unfoldable pub unlock : Lock → Lock
unlock l = record l { start = (l.start + 1) % uint }

-- The next step of any thread; fewer threads use the lock than there are tickets.
pub data Step (l : Lock) : Lock → Type 0 where
  draws : length l.waiting + length l.inside + 2 < uint → Step l (draw l)
  enters : (t : ℕ) → member t l.waiting ≡ true → t ≡ l.start → Step l (enter t l)
  leaves : (t : ℕ) (ts : List ℕ) → l.inside ≡ t ∷ ts → Step l (record (unlock l) { inside = ts })

pub data Reach : Lock → Type 0 where
  here : Reach initial
  next : {l m : Lock} → Reach l → Step l m → Reach m
