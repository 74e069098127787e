-- ===== src/Llptr/Slots.antt =====
-- include/ilias/llptr.h, include/ilias/hazard-inl.h: the steps of the threads that read an `llptr`.
use native.Mathlib.Decide.{dec_lt}
use ilias_async.Base.{
  ℕ, ◌+◌, ◌<◌, ◌≤◌, ◌≡◌, ◌≢◌, refl, sym, ap, ◌∙◌, Bool, true, false, ◌==◌, if◌then◌else◌, arith,
  length, ◌⊎◌, inl, inr, Bool-cases,
}
use ilias_async.Llptr.{
  Phase, free, foreign, entered, published, checked, used, done, State, nobody, slot, with_slot,
  hazard_count, enter, publish, test, acquire_one, withdraw, leave, finish, add, sub,
}
use ilias_async.Llptr.Sums.{All-nth, nth-out, le-total}
use ilias_async.Llptr.Ledger.{
  phase_refs, slot_refs, PhaseOk, SlotOk, needs, phase_needs, Inv, slot_move-Inv,
}

pub slot-Ok : (i : ℕ) (s : State) → Inv s → SlotOk (slot s i)
slot-Ok i s h = All-nth nobody SlotOk s.slots i refl h.slots_ok

pub phase-Ok :
    (i : ℕ) (p : Phase) (s : State)
    → (slot s i).phase ≡ p
    → Inv s
    → PhaseOk p (slot s i).value (slot s i).flag
phase-Ok i p s e h = rw e at (slot-Ok i s h)

unfoldable pub is_free : Phase → Bool
is_free free = true
is_free p = false

pub out_of_range : (i : ℕ) (s : State) → hazard_count ≤ i → Inv s → is_free (slot s i).phase ≡ true
unfolding is_free
out_of_range i s g h = rw (nth-out nobody s.slots i (omega (arith, h.nslots, g))) refl

-- A hazard that is not free is one of the array.
pub in_range :
    (i : ℕ) (p : Phase) (s : State)
    → (slot s i).phase ≡ p
    → is_free p ≡ false
    → Inv s
    → i < hazard_count
in_range i p s e n h = elim (dec_lt i hazard_count) [
  | yes l ↦ l
  | no g ↦ absurd (cc (sym (out_of_range i s (omega (arith, g)) h) ∙ ap is_free e ∙ n))
]

-- The phase and the value of a hazard change, and neither the references nor the flag.
value_move-Inv :
    (i : ℕ) (p q : Phase) (value : ℕ) (s : State)
    → (slot s i).phase ≡ p
    → i < hazard_count
    → PhaseOk q value (slot s i).flag
    → ((v : ℕ) → v ≢ 0 → phase_refs v p (slot s i).value ≡ phase_refs v q value)
    → (phase_needs q value ≡ 0)
      ⊎ ((phase_needs q value ≡ s.cur) ⊎ (phase_needs q value ≡ needs (slot s i)))
    → Inv s
    → Inv (with_slot i (record (slot s i) { phase = q; value = value }) s)
value_move-Inv i p q value s e hi ok hr hn h =
    slot_move-Inv i (record (slot s i) { phase = q; value = value }) s.refs s.held s hi ok refl
      (λ v n. omega (arith, hr v n, ap (λ (p : Phase). phase_refs v p (slot s i).value) e)) hn h

pub enter-Inv :
    (i v : ℕ) (p : Phase) (s : State)
    → (slot s i).phase ≡ p
    → i < hazard_count
    → v ≢ 0
    → (slot s i).value ≡ 0
    → ((u : ℕ) → u ≢ 0 → phase_refs u p (slot s i).value ≡ 0)
    → Inv s
    → Inv (with_slot i (enter v (slot s i)) s)
unfolding enter
enter-Inv i v p s e hi hv hz hr h =
    value_move-Inv i p (entered v) (slot s i).value s e hi (hv, hz) hr (inl refl) h

pub publish-Inv :
    (i v : ℕ) (s : State)
    → (slot s i).phase ≡ entered v
    → Inv s
    → Inv (with_slot i (publish v (slot s i)) s)
unfolding publish is_free
publish-Inv i v s e h =
    let (hv, hz) = phase-Ok i (entered v) s e h in
    value_move-Inv i (entered v) (published v) v s e (in_range i (entered v) s e refl h)
      (hv, inr refl) (λ u n. ground (arith, hv)) (inl refl) h

pub test-Inv :
    (i v : ℕ) (s : State)
    → (slot s i).phase ≡ published v
    → Inv s
    → Inv (with_slot i (test s.cur v (slot s i)) s)
unfolding test is_free
test-Inv i v s e h =
    let ok = phase-Ok i (published v) s e h in
    let hi = in_range i (published v) s e refl h in
    elim (Bool-cases (s.cur == v)) [
      | inl b ↦ rw b (
          value_move-Inv i (published v) (checked v) (slot s i).value s e hi ok (λ u n. refl)
            (ground arith) h)
      | inr b ↦ rw b (
          value_move-Inv i (published v) (used v 0) (slot s i).value s e hi ok (λ u n. ground arith)
            (inl refl) h)
    ]

pub acquire_one-Inv :
    (i v : ℕ) (s : State) → (slot s i).phase ≡ checked v → Inv s → Inv (acquire_one i v s)
unfolding acquire_one is_free
acquire_one-Inv i v s e h =
    slot_move-Inv i (record (slot s i) { phase = used v 1 }) (add v 1 s.refs) s.held s
      (in_range i (checked v) s e refl h) (phase-Ok i (checked v) s e h) refl
      (λ u n. ground (arith, ap (λ (p : Phase). phase_refs u p (slot s i).value) e)) (inl refl) h

pub withdraw-Inv :
    (i v n : ℕ) (s : State)
    → (slot s i).phase ≡ used v n
    → Inv s
    → Inv (with_slot i (withdraw v n (slot s i)) s)
unfolding withdraw is_free
withdraw-Inv i v n s e h =
    let (hv, hz) = phase-Ok i (used v n) s e h in
    value_move-Inv i (used v n) (done v (if (slot s i).value == 0 then n + 1 else n)) 0 s e
      (in_range i (used v n) s e refl h) (hv, refl) (λ u m. ground arith) (inl refl) h

pub leave-Inv :
    (i : ℕ) (p : Phase) (s : State)
    → (slot s i).phase ≡ p
    → is_free p ≡ false
    → (slot s i).value ≡ 0
    → ((u : ℕ) → u ≢ 0 → phase_refs u p (slot s i).value ≡ 0)
    → Inv s
    → Inv (with_slot i (leave (slot s i)) s)
unfolding leave
leave-Inv i p s e hf hz hr h =
    value_move-Inv i p free (slot s i).value s e (in_range i p s e hf h) hz hr (inl refl) h

pub finish-Inv :
    (i v n : ℕ) (s : State) → (slot s i).phase ≡ done v (n + 1) → Inv s → Inv (finish i v n s)
unfolding finish leave is_free
finish-Inv i v n s e h =
    let hi = in_range i (done v (n + 1)) s e refl h in
    let range : i < length s.slots = omega (arith, h.nslots, hi) in
    slot_move-Inv i (leave (slot s i)) (sub v n s.refs) (add v 1 s.held) s hi
      (phase-Ok i (done v (n + 1)) s e h).1 refl
      (λ u m. ground (
        arith,
        ap (λ (p : Phase). phase_refs u p (slot s i).value) e,
        h.ledger u m,
        le-total nobody (slot_refs u) s.slots i range,
      ))
      (inl refl) h

pub foreign_enter-Inv :
    (i : ℕ) (s : State)
    → (slot s i).phase ≡ free
    → i < hazard_count
    → (slot s i).flag ≡ false
    → Inv s
    → Inv (with_slot i (record (slot s i) { phase = foreign }) s)
foreign_enter-Inv i s e hi hf h =
    value_move-Inv i free foreign (slot s i).value s e hi hf (λ u n. refl) (inl refl) h

pub foreign_move-Inv :
    (i u : ℕ) (s : State)
    → (slot s i).phase ≡ foreign
    → Inv s
    → Inv (with_slot i (record (slot s i) { value = u }) s)
unfolding is_free
foreign_move-Inv i u s e h =
    slot_move-Inv i (record (slot s i) { value = u }) s.refs s.held s
      (in_range i foreign s e refl h) (rw e (phase-Ok i foreign s e h)) refl (λ v n. rw e refl)
      (inl (rw e refl)) h
