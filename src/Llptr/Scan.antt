-- ===== src/Llptr/Scan.antt =====
-- src/hazard.cc: `mark` at one hazard.
use native.Mathlib.Decide.{ℕ_discrete}
use ilias_async.Base.{
  ℕ, zero, suc, ◌+◌, ◌-◌, ◌<◌, ◌≡◌, ◌≢◌, refl, sym, ap, ◌∙◌, true, false, ◌==◌, if◌then◌else◌,
  arith, length, ◌⊎◌, inl, inr,
}
use ilias_async.Llptr.{
  Phase, free, foreign, Slot, Mark, reading, locked, marked, State, nil, slot, granter,
  hazard_count, skip, lock, take, unlock,
}
use ilias_async.Llptr.Sums.{le-total}
use ilias_async.Llptr.Ledger.{
  one, phase_refs, slot_refs, PhaseOk, locks_at, is_reading, flagged, needs, phase_needs, comes,
  Inv,
}
use ilias_async.Llptr.Slots.{slot-Ok}
use ilias_async.Llptr.Granters.{granter_move-Inv, granter-Ok, mark-Ok, scanning-Ok, skip-Inv}
use ilias_async.Llptr.Marks.{mark_move-Inv, PhaseOk-lock, PhaseOk-unlock, PhaseOk-take, needs-value}

pub lock-Inv :
    (j : ℕ) (s : State)
    → j < length s.granters
    → (granter s j).scanning ≡ true
    → (granter s j).mark ≡ reading
    → (granter s j).idx < hazard_count
    → (slot s (granter s j).idx).phase ≢ foreign
    → (slot s (granter s j).idx).flag ≡ false
    → Inv s
    → Inv (lock j s)
unfolding lock
lock-Inv j s hj hs hm hi hp hf h =
    let g = granter s j in
    let x = slot s g.idx in
    let ok = mark-Ok j true reading s hj hs hm h in
    mark_move-Inv j g.idx (record g { mark = locked }) (record x { flag = true }) s hj hi
      ((granter-Ok j s hj h).0, rw hs (hi, ok.1))
      (PhaseOk-lock x.phase x.value x.flag hp (slot-Ok g.idx s h)) (λ v n. refl)
      (λ k n. rw hm (ground (arith, n))) (rw (hm, hf) (ground arith)) (λ v k n. rw hm refl)
      (λ n. (refl, rw hm refl)) h

-- The hazard at which a thread has set the flag.
flag-set :
    (j : ℕ) (s : State)
    → j < length s.granters
    → locks_at (granter s j).idx (granter s j) ≡ 1
    → Inv s
    → (slot s (granter s j).idx).flag ≡ true
flag-set j s hj hl h =
    let i = (granter s j).idx in
    flagged-one (slot s i)
      (omega (arith, h.locks i, hl, le-total {0} nil (locks_at i) s.granters j hj))
  where
    flagged-one : (x : Slot) → 0 < flagged x → x.flag ≡ true
    flagged-one x l = ground arith

locks_at-own :
    (m : Mark) (i : ℕ)
    → (m ≡ locked) ⊎ (m ≡ marked)
    → (if is_reading m then 0 else (if i == i then 1 else 0)) ≡ suc zero
locks_at-own reading i (inl e) = absurd (cc e)
locks_at-own reading i (inr e) = absurd (cc e)
locks_at-own locked i e = ground arith
locks_at-own marked i e = ground arith

pub unlock-Inv :
    (j : ℕ) (s : State)
    → j < length s.granters
    → (granter s j).mark ≡ marked
    → Inv s
    → Inv (unlock j s)
unfolding unlock skip
unlock-Inv j s hj hm h =
    let g = granter s j in
    let x = slot s g.idx in
    let okg = granter-Ok j s hj h in
    let hs = scanning-Ok g.scanning g.mark g.idx g.have g.keep (inr hm) okg.1 in
    let ok = mark-Ok j true marked s hj hs hm h in
    let set = flag-set j s hj (locks_at-own g.mark g.idx (inr hm)) h in
    mark_move-Inv j g.idx (record g { idx = g.idx + 1; mark = reading }) (record x { flag = false })
      s hj ok.0 (okg.0, rw hs (omega (arith, ok.0), omega (arith, ok.1)))
      (PhaseOk-unlock x.phase x.value x.flag (slot-Ok g.idx s h)) (λ v n. refl)
      (λ k n. rw hm (ground (arith, n))) (rw (hm, set) (ground arith))
      (λ v k n. rw hm (ground (arith, n))) (λ n. (refl, rw hm (ground arith))) h

pub value-eq : (a b : ℕ) → a ≡ b → (a == b) ≡ true
value-eq a b e = ground arith

pub value-ne : (a b : ℕ) → a ≢ b → (a == b) ≡ false
value-ne a b n = ground arith

taken-refs :
    (old value have keep v r t : ℕ)
    → value ≡ old
    → 0 < have
    → t ≡ r + one value v
    → (if old == v then have - 1 + keep else 0) + t ≡ (if old == v then have + keep else 0) + r
taken-refs old value have keep v r t e h c = ground arith

unmet :
    (old idx i v value : ℕ)
    → value ≢ old
    → (i ≡ idx → v ≡ value)
    → comes old idx marked v i ≡ comes old idx locked v i
unmet old idx i v value n e = ground (arith, e)

needs-at :
    (i k : ℕ) (s : State)
    → needs (slot s i) ≢ 0
    → Inv s
    → i ≡ k
    → needs (slot s i) ≡ (slot s k).value
needs-at i k s n h e =
    let same : needs (slot s i) ≡ needs (slot s k) = ap (λ (m : ℕ). needs (slot s m)) e in
    same
    ∙ needs-value (slot s k).phase (slot s k).value (slot s k).flag (slot-Ok k s h)
        (λ z. n (same ∙ z))

pub take-Inv :
    (j : ℕ) (s : State)
    → j < length s.granters
    → (granter s j).mark ≡ locked
    → Inv s
    → Inv (take j s)
unfolding take
take-Inv j s hj hm h =
    let g = granter s j in
    let x = slot s g.idx in
    let okg = granter-Ok j s hj h in
    let hs = scanning-Ok g.scanning g.mark g.idx g.have g.keep (inl hm) okg.1 in
    let ok = mark-Ok j true locked s hj hs hm h in
    let set = flag-set j s hj (locks_at-own g.mark g.idx (inl hm)) h in
    let okx : PhaseOk x.phase x.value true = rw set at (slot-Ok g.idx s h) in
    elim (ℕ_discrete x.value g.old) [
      | yes e ↦
          let t = PhaseOk-take x.phase x.value (λ z. okg.0 (sym e ∙ z)) okx in
          rw (value-eq x.value g.old e) (
            mark_move-Inv j g.idx (record g { mark = marked; have = g.have - 1 })
              (record x { value = 0 }) s hj ok.0 (okg.0, rw hs (ok.0, omega (arith, ok.1)))
              (rw set t.0)
              (λ v n.
                taken-refs g.old x.value g.have g.keep v (slot_refs v x) (phase_refs v x.phase 0) e
                  (omega (arith, ok.0, ok.1)) (t.1 v n))
              (λ k n. rw hm (ground (arith, n))) (rw hm refl) (λ v k n. rw hm (ground (arith, n)))
              (λ n. absurd (n t.2)) h)
      | no n ↦ rw (value-ne x.value g.old n) (
          granter_move-Inv j (record g { mark = marked }) s.refs s hj
            (okg.0, rw hs (ok.0, omega (arith, ok.1))) (λ v m. refl) (λ i. rw hm refl)
            (λ i m.
              rw hm (unmet g.old g.idx i (needs (slot s i)) x.value n (needs-at i g.idx s m h)))
            h)
    ]

pub sees_value-Inv :
    (j : ℕ) (s : State)
    → j < length s.granters
    → (granter s j).scanning ≡ true
    → (granter s j).mark ≡ reading
    → (granter s j).idx < hazard_count
    → (slot s (granter s j).idx).value ≢ (granter s j).old
    → Inv s
    → Inv (skip j s)
sees_value-Inv j s hj hs hm hi hv h =
    let i = (granter s j).idx in
    skip-Inv j s hj hs hm hi
      (elim (ℕ_discrete (needs (slot s i)) 0) [
        | yes z ↦ inl z
        | no n ↦ inr (λ e. hv (sym (needs-at i i s n h refl) ∙ e))
      ])
      h

no-needs : (p : Phase) (value : ℕ) → (p ≡ free) ⊎ (p ≡ foreign) → phase_needs p value ≡ 0
no-needs p value (inl e) = rw e refl
no-needs p value (inr e) = rw e refl

pub sees_owner-Inv :
    (j : ℕ) (s : State)
    → j < length s.granters
    → (granter s j).scanning ≡ true
    → (granter s j).mark ≡ reading
    → (granter s j).idx < hazard_count
    → ((slot s (granter s j).idx).phase ≡ free) ⊎ ((slot s (granter s j).idx).phase ≡ foreign)
    → Inv s
    → Inv (skip j s)
sees_owner-Inv j s hj hs hm hi hp h =
    let x = slot s (granter s j).idx in
    skip-Inv j s hj hs hm hi (inl (no-needs x.phase x.value hp)) h
