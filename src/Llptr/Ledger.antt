-- ===== src/Llptr/Ledger.antt =====
-- include/ilias/llptr.h, src/hazard.cc: who holds the references that an object counts.
use native.Mathlib.Decide.{ℕ_discrete}
use ilias_async.Base.{
  ℕ, ◌+◌, ◌<◌, ◌≤◌, ◌≡◌, ◌≢◌, ◌∙◌, Bool, true, false, not, ◌&&◌, ◌||◌, ◌==◌, ltb, if◌then◌else◌,
  arith, length, All, ◌⊎◌, inl, inr,
}
use ilias_async.Llptr.{
  Phase, free, foreign, entered, published, checked, used, done, Slot, Mark, reading, locked,
  marked, Granter, State, nobody, put, slot, hazard_count,
}
use ilias_async.Llptr.Sums.{total, total-put, nth-put_same, nth-put_other, All-put, length-put}

abbrev pub one : ℕ → ℕ → ℕ
one p v = if p == v then 1 else 0

-- The references to `v` that a hazard stands for: those that its thread has acquired, and the one that
-- was granted where the value was exchanged.
abbrev pub phase_refs : ℕ → Phase → ℕ → ℕ
phase_refs v (published u) value = if u == v then (if value == 0 then 1 else 0) else 0
phase_refs v (checked u) value = if u == v then (if value == 0 then 1 else 0) else 0
phase_refs v (used u n) value = if u == v then n + (if value == 0 then 1 else 0) else 0
phase_refs v (done u n) value = if u == v then n else 0
phase_refs v p value = 0

abbrev pub slot_refs : ℕ → Slot → ℕ
slot_refs v x = phase_refs v x.phase x.value

abbrev pub granter_refs : ℕ → Granter → ℕ
granter_refs v g = if g.old == v then g.have + g.keep else 0

abbrev pub PhaseOk : Phase → ℕ → Bool → Type 0
PhaseOk free value flag = value ≡ 0
PhaseOk foreign value flag = flag ≡ false
PhaseOk (entered v) value flag = (v ≢ 0) × (value ≡ 0)
PhaseOk (published v) value flag = (v ≢ 0) × ((value ≡ 0) ⊎ (value ≡ v))
PhaseOk (checked v) value flag = (v ≢ 0) × ((value ≡ 0) ⊎ (value ≡ v))
PhaseOk (used v n) value flag = (v ≢ 0) × ((value ≡ 0) ⊎ (value ≡ v))
PhaseOk (done v n) value flag = (v ≢ 0) × (value ≡ 0)

abbrev pub SlotOk : Slot → Type 0
SlotOk x = PhaseOk x.phase x.value x.flag

-- A thread in `grant` has a reference for each hazard that it has not passed.
abbrev pub MarkOk : Bool → Mark → ℕ → ℕ → ℕ → Type 0
MarkOk false reading idx have keep = (idx ≡ 0) × (0 < have + keep) × (have ≤ hazard_count)
MarkOk false m idx have keep = ⊥
MarkOk true reading idx have keep = (idx ≤ hazard_count) × (hazard_count ≤ have + idx)
MarkOk true locked idx have keep = (idx < hazard_count) × (hazard_count ≤ have + idx)
MarkOk true marked idx have keep = (idx < hazard_count) × (hazard_count ≤ have + idx + 1)

abbrev pub GranterOk : Granter → Type 0
GranterOk g = (g.old ≢ 0) × MarkOk g.scanning g.mark g.idx g.have g.keep

abbrev pub is_reading : Mark → Bool
is_reading reading = true
is_reading m = false

abbrev pub is_marked : Mark → Bool
is_marked marked = true
is_marked m = false

abbrev pub locks_at : ℕ → Granter → ℕ
locks_at i g = if is_reading g.mark then 0 else (if g.idx == i then 1 else 0)

abbrev pub flagged : Slot → ℕ
flagged x = if x.flag then 1 else 0

-- The pointer that a thread is about to acquire without having been granted a reference, or 0.
abbrev pub phase_needs : Phase → ℕ → ℕ
phase_needs (checked v) value = if value == 0 then 0 else v
phase_needs p value = 0

abbrev pub needs : Slot → ℕ
needs x = phase_needs x.phase x.value

-- Whether a thread in `grant` has still to come to the hazard `i`.
abbrev pub comes : ℕ → ℕ → Mark → ℕ → ℕ → ℕ
comes old idx m v i =
    if (old == v) && (ltb idx i || ((idx == i) && not (is_marked m))) then 1 else 0

abbrev pub pending : ℕ → ℕ → Granter → ℕ
pending v i g = comes g.old g.idx g.mark v i

pub record Inv (s : State) : Type 0 where
  pub nslots : length s.slots ≡ hazard_count
  pub slots_ok : All SlotOk s.slots
  pub granters_ok : All GranterOk s.granters
  pub ledger :
      (v : ℕ)
      → v ≢ 0
      → s.refs v
        ≡ one s.cur v + s.held v + total (slot_refs v) s.slots + total (granter_refs v) s.granters
  pub locks : (i : ℕ) → total (locks_at i) s.granters ≡ flagged (slot s i)
  pub covered :
      (i : ℕ)
      → needs (slot s i) ≢ 0
      → 0 < one s.cur (needs (slot s i)) + total (pending (needs (slot s i)) i) s.granters

covers-cur : (p v t : ℕ) → v ≡ p → 0 < one p v + t
covers-cur p v t e = ground arith

-- Whether the need `v` of the hazard `i` is met.
abbrev pub Covered : State → ℕ → ℕ → Type 0
Covered s i v = 0 < one s.cur v + total (pending v i) s.granters

still-Covered :
    (s : State) (i v : ℕ)
    → (v ≡ 0) ⊎ ((v ≡ s.cur) ⊎ (v ≡ needs (slot s i)))
    → v ≢ 0
    → Inv s
    → Covered s i v
still-Covered s i v (inl z) n h = absurd (n z)
still-Covered s i v (inr (inl e)) n h = covers-cur s.cur v (total (pending v i) s.granters) e
still-Covered s i v (inr (inr e)) n h = rw e (h.covered i (λ z. n (e ∙ z)))

-- A step at one hazard.
pub slot_move-Inv :
    (i : ℕ) (y : Slot) (refs held : ℕ → ℕ) (s : State)
    → i < hazard_count
    → SlotOk y
    → y.flag ≡ (slot s i).flag
    → ((v : ℕ)
        → v ≢ 0
        → refs v + slot_refs v (slot s i) + s.held v ≡ s.refs v + slot_refs v y + held v)
    → (needs y ≡ 0) ⊎ ((needs y ≡ s.cur) ⊎ (needs y ≡ needs (slot s i)))
    → Inv s
    → Inv (record s { refs = refs; held = held; slots = put s.slots i y })
slot_move-Inv i y refs held s hi ok hf hr hn h =
    let range : i < length s.slots = omega (arith, h.nslots) in
    record {
      nslots = length-put s.slots i y ∙ h.nslots;
      slots_ok = All-put SlotOk s.slots i y h.slots_ok ok;
      granters_ok = h.granters_ok;
      ledger = λ v n.
          omega (arith, h.ledger v n, hr v n, total-put {0} nobody (slot_refs v) s.slots i y range);
      locks = λ k. elim (ℕ_discrete i k) [
        | yes e ↦ rw (← e, nth-put_same nobody s.slots i y range, hf) (h.locks i)
        | no n ↦ rw (nth-put_other nobody s.slots i k y n) (h.locks k)
      ];
      covered = λ k. elim (ℕ_discrete i k) [
        | yes e ↦
            rw (← e, nth-put_same nobody s.slots i y range)
              (λ n. still-Covered s i (needs y) hn n h)
        | no n ↦ rw (nth-put_other nobody s.slots i k y n) (h.covered k)
      ];
    }
