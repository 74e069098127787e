-- ===== src/Llptr/Marks.antt =====
-- src/hazard.cc: the steps of `mark` at one hazard, and the beginning and the end of `grant`.
use native.Mathlib.Decide.{ℕ_discrete}
use ilias_async.Base.{ℕ, ◌+◌, ◌<◌, ◌≡◌, ◌≢◌, refl, ◌∙◌, Bool, true, false, arith, length, inl}
use ilias_async.Llptr.{
  Phase, free, foreign, entered, published, checked, used, done, Slot, Granter, State, nobody, nil,
  slot, granter, with_slot, with_granter, hazard_count,
}
use ilias_async.Llptr.Sums.{total, total-put, nth-put_same, nth-put_other, All-put, length-put}
use ilias_async.Llptr.Ledger.{
  one, phase_refs, slot_refs, granter_refs, PhaseOk, SlotOk, GranterOk, locks_at, flagged, needs,
  phase_needs, pending, Inv,
}

the_need :
    (v u i : ℕ) (s : State)
    → v ≡ u
    → v ≢ 0
    → Inv s
    → u ≡ needs (slot s i)
    → 0 < one s.cur v + total (pending v i) s.granters
the_need v u i s e n h d = rw (e ∙ d) (h.covered i (λ z. n (e ∙ d ∙ z)))

-- A step of one thread in `grant` at its own record and at one hazard.
pub mark_move-Inv :
    (j i : ℕ) (g : Granter) (y : Slot) (s : State)
    → j < length s.granters
    → i < hazard_count
    → GranterOk g
    → SlotOk y
    → ((v : ℕ)
        → v ≢ 0
        → granter_refs v g + slot_refs v y ≡ granter_refs v (granter s j) + slot_refs v (slot s i))
    → ((k : ℕ) → i ≢ k → locks_at k g ≡ locks_at k (granter s j))
    → locks_at i g + flagged (slot s i) ≡ locks_at i (granter s j) + flagged y
    → ((v k : ℕ) → i ≢ k → pending v k g ≡ pending v k (granter s j))
    → (needs y ≢ 0
        → (needs y ≡ needs (slot s i))
          × (pending (needs y) i g ≡ pending (needs y) i (granter s j)))
    → Inv s
    → Inv (with_slot i y (with_granter j g s))
mark_move-Inv j i g y s hj hi okg oky hr hl hf hp hn h =
    let range : i < length s.slots = omega (arith, h.nslots, hi) in
    record {
      nslots = length-put s.slots i y ∙ h.nslots;
      slots_ok = All-put SlotOk s.slots i y h.slots_ok oky;
      granters_ok = All-put GranterOk s.granters j g h.granters_ok okg;
      ledger = λ v n. omega (
        arith,
        h.ledger v n,
        hr v n,
        total-put {0} nil (granter_refs v) s.granters j g hj,
        total-put {0} nobody (slot_refs v) s.slots i y range,
      );
      locks = λ k. elim (ℕ_discrete i k) [
        | yes e ↦
            rw (← e, nth-put_same nobody s.slots i y range)
              (omega (arith, h.locks i, hf, total-put {0} nil (locks_at i) s.granters j g hj))
        | no n ↦
            rw (nth-put_other nobody s.slots i k y n)
              (omega (arith, h.locks k, hl k n, total-put {0} nil (locks_at k) s.granters j g hj))
      ];
      covered = λ k. elim (ℕ_discrete i k) [
        | yes e ↦
            rw (← e, nth-put_same nobody s.slots i y range)
              (λ n.
                let (same, p) = hn n in
                omega (
                  arith,
                  the_need (needs y) (needs (slot s i)) i s same n h refl,
                  p,
                  total-put {0} nil (pending (needs y) i) s.granters j g hj,
                ))
        | no n ↦ rw (nth-put_other nobody s.slots i k y n) (λ m. omega (
          arith,
          h.covered k m,
          hp (needs (slot s k)) k n,
          total-put {0} nil (pending (needs (slot s k)) k) s.granters j g hj,
        ))
      ];
    }

pub PhaseOk-lock :
    (p : Phase) (value : ℕ) (flag : Bool)
    → p ≢ foreign
    → PhaseOk p value flag
    → PhaseOk p value true
PhaseOk-lock free value flag n h = h
PhaseOk-lock foreign value flag n h = absurd (n refl)
PhaseOk-lock (entered v) value flag n h = h
PhaseOk-lock (published v) value flag n h = h
PhaseOk-lock (checked v) value flag n h = h
PhaseOk-lock (used v m) value flag n h = h
PhaseOk-lock (done v m) value flag n h = h

pub PhaseOk-unlock :
    (p : Phase) (value : ℕ) (flag : Bool) → PhaseOk p value flag → PhaseOk p value false
PhaseOk-unlock free value flag h = h
PhaseOk-unlock foreign value flag h = refl
PhaseOk-unlock (entered v) value flag h = h
PhaseOk-unlock (published v) value flag h = h
PhaseOk-unlock (checked v) value flag h = h
PhaseOk-unlock (used v m) value flag h = h
PhaseOk-unlock (done v m) value flag h = h

-- Under its flag, a hazard whose value is a pointer other than 0 is one of a thread that reads that
-- pointer, and taking its value grants the thread a reference.
pub PhaseOk-take :
    (p : Phase) (value : ℕ)
    → value ≢ 0
    → PhaseOk p value true
    → PhaseOk p 0 true
      × ((v : ℕ) → v ≢ 0 → phase_refs v p 0 ≡ phase_refs v p value + one value v)
      × (phase_needs p 0 ≡ 0)
PhaseOk-take free value n h = absurd (n h)
PhaseOk-take foreign value n h = absurd (cc h)
PhaseOk-take (entered v) value n h = absurd (n h.1)
PhaseOk-take (published v) value n h = ((h.0, inl refl), λ u m. ground (arith, h.1), refl)
PhaseOk-take (checked v) value n h = ((h.0, inl refl), λ u m. ground (arith, h.1), refl)
PhaseOk-take (used v m) value n h = ((h.0, inl refl), λ u k. ground (arith, h.1), refl)
PhaseOk-take (done v m) value n h = absurd (n h.1)

pub needs-value :
    (p : Phase) (value : ℕ) (flag : Bool)
    → PhaseOk p value flag
    → phase_needs p value ≢ 0
    → phase_needs p value ≡ value
needs-value free value flag h n = absurd (n refl)
needs-value foreign value flag h n = absurd (n refl)
needs-value (entered v) value flag h n = absurd (n refl)
needs-value (published v) value flag h n = absurd (n refl)
needs-value (checked v) value flag h n = ground (arith, h.1, n)
needs-value (used v m) value flag h n = absurd (n refl)
needs-value (done v m) value flag h n = absurd (n refl)
