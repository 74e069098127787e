-- ===== src/Hazard.antt =====
-- src/hazard.cc, include/ilias/hazard.h: the table of hazards, and who may use one.
use ilias_async.Base.{
  ℕ, zero, suc, ◌+◌, ◌-◌, ◌%◌, ◌≡◌, Bool, true, false, not, ◌&&◌, ◌==◌, if◌then◌else◌, List, [],
  ◌∷◌,
}
pub mod Allocation
mod Tests

-- `hazard_t`; the bit `FLAG` is the lowest of the owner.
pub record Hazard : Type 0 where
  pub owner : ℕ
  pub value : ℕ

abbrev pub flag : ℕ
flag = 1

-- `validate_owner`: an exception is `refused`.
pub data Owner : Type 0 where
  valid : ℕ → Owner
  refused : Owner

unfoldable pub validate_owner : ℕ → Owner
validate_owner p = if p == 0 then refused else if not (p % 2 == 0) then refused else valid p

-- The inner loop of `allocate_hazard`. An exchange on a free hazard fails spuriously where the list says
-- so; later ones do not. The result is the rest of that list, and the hazards where one was allocated.
pub data Scan : Type 0 where
  allocated : List Hazard → Scan
  missed : List Bool → Scan

abbrev pub behind : Hazard → Scan → Scan
behind h (allocated hs) = allocated (h ∷ hs)
behind h (missed spurious) = missed spurious

unfoldable pub scan : List Bool → ℕ → List Hazard → Scan
scan spurious o [] = missed spurious
scan spurious o (h ∷ hs) = elim (h.owner == 0) [
  | false ↦ behind h (scan spurious o hs)
  | true ↦ elim spurious [
    | [] ↦ allocated (record h { owner = o } ∷ hs)
    | (false ∷ rest) ↦ allocated (record h { owner = o } ∷ hs)
    | (true ∷ rest) ↦ behind h (scan rest o hs)
  ]
]

-- Only the hazards from the index on are tried in the first turn.
unfoldable pub scan_from : ℕ → List Bool → ℕ → List Hazard → Scan
unfolding scan
scan_from zero spurious o hs = scan spurious o hs
scan_from (suc i) spurious o [] = missed spurious
scan_from (suc i) spurious o (h ∷ hs) = behind h (scan_from i spurious o hs)

-- The outer loop, with fuel for its turns after the first.
pub data Run : Type 0 where
  found : List Hazard → Run
  runs_on : Run

unfoldable pub allocate_loop : ℕ → List Bool → ℕ → List Hazard → Run
unfolding scan
allocate_loop zero spurious o hs = runs_on
allocate_loop (suc fuel) spurious o hs = elim (scan spurious o hs) [
  | allocated ks ↦ found ks
  | missed rest ↦ allocate_loop fuel rest o hs
]

-- `allocate_hazard`, where `hz_idx` has the value `idx`.
abbrev pub hazard_count : ℕ
hazard_count = 64

unfoldable pub allocate_hazard : ℕ → ℕ → List Bool → ℕ → List Hazard → Run
unfolding scan_from allocate_loop
allocate_hazard fuel idx spurious o hs = elim (scan_from (idx % hazard_count) spurious o hs) [
  | allocated ks ↦ found ks
  | missed rest ↦ allocate_loop fuel rest o hs
]

-- `mark`, where no other thread uses the hazard.
unfoldable pub mark : Hazard → ℕ → ℕ → Hazard × Bool
mark h o v =
    if not (h.value == v)
    then (h, false)
    else if h.owner == o
    then (record h { value = 0 }, true)
    else (h, false)

-- The loop of `hazard_grant_n`, with its variable `count`, and `hazard_grant_n`.
unfoldable pub grant_loop : ℕ → ℕ → ℕ → ℕ → List Hazard → List Hazard × ℕ
unfolding mark
grant_loop count o v nrefs [] = ([], count)
grant_loop count o v nrefs (h ∷ hs) = elim (count == nrefs) [
  | true ↦ (h ∷ hs, count)
  | false ↦
      let (k, b) = mark h o v in
      let (ks, n) = grant_loop (if b then count + 1 else count) o v nrefs hs in (k ∷ ks, n)
]

unfoldable pub hazard_grant_n : ℕ → ℕ → ℕ → List Hazard → List Hazard × ℕ
unfolding grant_loop
hazard_grant_n o v nrefs hs = grant_loop 0 o v nrefs hs
