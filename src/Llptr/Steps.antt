-- ===== src/Llptr/Steps.antt =====
-- include/ilias/llptr.h, src/hazard.cc: the atomic steps of all threads, in any order.
use ilias_async.Base.{ℕ, zero, suc, ◌+◌, ◌<◌, ◌≡◌, ◌≢◌, true, false, List, [], ◌∷◌, ◌⊎◌, length}
use ilias_async.Llptr.{
  free, foreign, entered, published, checked, used, done, Slot, reading, locked, marked, State,
  nobody, slot, granter, with_slot, add, sub, enter, publish, test, acquire_one, withdraw, leave,
  finish, Mode, compares, replace, acquire_more, skip, lock, take, unlock, give_up, hazard_count,
}

-- A pointer that a thread has loaded may be stale. A hazard of another `llptr` may have any value.
pub data Step (s : State) : State → Type 0 where
  enters :
      (i v : ℕ)
      → (slot s i).phase ≡ free
      → i < hazard_count
      → (slot s i).flag ≡ false
      → v ≢ 0
      → Step s (with_slot i (enter v (slot s i)) s)
  publishes :
      (i v : ℕ) → (slot s i).phase ≡ entered v → Step s (with_slot i (publish v (slot s i)) s)
  tests :
      (i v : ℕ) → (slot s i).phase ≡ published v → Step s (with_slot i (test s.cur v (slot s i)) s)
  acquires : (i v : ℕ) → (slot s i).phase ≡ checked v → Step s (acquire_one i v s)
  withdraws :
      (i v n : ℕ) → (slot s i).phase ≡ used v n → Step s (with_slot i (withdraw v n (slot s i)) s)
  reloads :
      (i v u : ℕ)
      → (slot s i).phase ≡ done v 0
      → u ≢ 0
      → Step s (with_slot i (enter u (slot s i)) s)
  loads_nil : (i v : ℕ) → (slot s i).phase ≡ done v 0 → Step s (with_slot i (leave (slot s i)) s)
  finishes : (i v n : ℕ) → (slot s i).phase ≡ done v (n + 1) → Step s (finish i v n s)
  foreign_enters :
      (i : ℕ)
      → (slot s i).phase ≡ free
      → i < hazard_count
      → (slot s i).flag ≡ false
      → Step s (with_slot i (record (slot s i) { phase = foreign }) s)
  foreign_moves :
      (i u : ℕ)
      → (slot s i).phase ≡ foreign
      → Step s (with_slot i (record (slot s i) { value = u }) s)
  foreign_leaves :
      (i : ℕ)
      → (slot s i).phase ≡ foreign
      → (slot s i).value ≡ 0
      → Step s (with_slot i (leave (slot s i)) s)
  creates :
      (v : ℕ)
      → v ≢ 0
      → s.refs v ≡ 0
      → Step s (record s { refs = add v 1 s.refs; held = add v 1 s.held })
  copies :
      (v : ℕ) → 0 < s.held v → Step s (record s { refs = add v 1 s.refs; held = add v 1 s.held })
  drops :
      (v : ℕ) → 0 < s.held v → Step s (record s { refs = sub v 1 s.refs; held = sub v 1 s.held })
  replaces :
      (m : Mode) (new : ℕ)
      → (new ≡ 0) ⊎ (0 < s.held new)
      → (m ≢ compares) ⊎ ((s.cur ≡ 0) ⊎ (0 < sub new 1 s.held s.cur))
      → Step s (replace m new s)
  acquires_more :
      (j : ℕ) → j < length s.granters → (granter s j).scanning ≡ false → Step s (acquire_more j s)
  sees_value :
      (j : ℕ)
      → j < length s.granters
      → (granter s j).scanning ≡ true
      → (granter s j).mark ≡ reading
      → (granter s j).idx < hazard_count
      → (slot s (granter s j).idx).value ≢ (granter s j).old
      → Step s (skip j s)
  sees_owner :
      (j : ℕ)
      → j < length s.granters
      → (granter s j).scanning ≡ true
      → (granter s j).mark ≡ reading
      → (granter s j).idx < hazard_count
      → ((slot s (granter s j).idx).phase ≡ free) ⊎ ((slot s (granter s j).idx).phase ≡ foreign)
      → Step s (skip j s)
  locks :
      (j : ℕ)
      → j < length s.granters
      → (granter s j).scanning ≡ true
      → (granter s j).mark ≡ reading
      → (granter s j).idx < hazard_count
      → (slot s (granter s j).idx).phase ≢ free
      → (slot s (granter s j).idx).phase ≢ foreign
      → (slot s (granter s j).idx).flag ≡ false
      → Step s (lock j s)
  takes : (j : ℕ) → j < length s.granters → (granter s j).mark ≡ locked → Step s (take j s)
  unlocks : (j : ℕ) → j < length s.granters → (granter s j).mark ≡ marked → Step s (unlock j s)
  gives_up :
      (j : ℕ)
      → j < length s.granters
      → (granter s j).scanning ≡ true
      → (granter s j).idx ≡ hazard_count
      → Step s (give_up j s)

abbrev pub free_slots : ℕ → List Slot
free_slots zero = []
free_slots (suc n) = nobody ∷ free_slots n

abbrev pub initial : State
initial = record {
  cur = 0;
  refs = λ v. 0;
  held = λ v. 0;
  slots = free_slots hazard_count;
  granters = [];
}

pub data Reach : State → Type 0 where
  here : Reach initial
  next : {s t : State} → Reach s → Step s t → Reach t
