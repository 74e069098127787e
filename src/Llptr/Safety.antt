-- ===== src/Llptr/Safety.antt =====
-- include/ilias/llptr.h, src/hazard.cc: what holds in every state that the threads come to.
use ilias_async.Base.{
  ℕ, zero, suc, ◌+◌, ◌<◌, ◌≤◌, ◌≡◌, ◌≢◌, refl, sym, ap, ◌∙◌, Bool, true, false, List, [], ◌∷◌, ◌==◌,
  if◌then◌else◌, arith, length, All, ◌⊎◌, inl, inr,
}
use ilias_async.Llptr.{
  Phase, free, foreign, entered, checked, done, Mark, reading, locked, marked, Granter, State,
  nobody, nth, slot, hazard_count,
}
use ilias_async.Llptr.Steps.{
  Step, enters, publishes, tests, acquires, withdraws, reloads, loads_nil, finishes, foreign_enters,
  foreign_moves, foreign_leaves, creates, copies, drops, replaces, acquires_more, sees_value,
  sees_owner, locks, takes, unlocks, gives_up, free_slots, initial, Reach, here, next,
}
use ilias_async.Llptr.Sums.{total, le-total}
use ilias_async.Llptr.Ledger.{
  one, phase_refs, slot_refs, granter_refs, SlotOk, MarkOk, GranterOk, pending, comes, Inv, needs,
}
use ilias_async.Llptr.Slots
use ilias_async.Llptr.Slots.{phase-Ok, in_range, is_free}
use ilias_async.Llptr.Granters.{copy-Inv, drop-Inv, acquire_more-Inv}
use ilias_async.Llptr.Scan.{lock-Inv, take-Inv, unlock-Inv, sees_value-Inv, sees_owner-Inv}
use ilias_async.Llptr.Replace.{give_up-Inv, replace-Inv}

Step-Inv : {s t : State} → Step s t → Inv s → Inv t
unfolding is_free
Step-Inv {s} (enters i v e hi hf hv) h =
    Slots.enter-Inv i v free s e hi hv (phase-Ok i free s e h) (λ u n. refl) h
Step-Inv {s} (publishes i v e) h = Slots.publish-Inv i v s e h
Step-Inv {s} (tests i v e) h = Slots.test-Inv i v s e h
Step-Inv {s} (acquires i v e) h = Slots.acquire_one-Inv i v s e h
Step-Inv {s} (withdraws i v n e) h = Slots.withdraw-Inv i v n s e h
Step-Inv {s} (reloads i v u e n) h =
    Slots.enter-Inv i u (done v 0) s e (in_range i (done v 0) s e refl h) n
      (phase-Ok i (done v 0) s e h).1 (λ w m. ground arith) h
Step-Inv {s} (loads_nil i v e) h =
    Slots.leave-Inv i (done v 0) s e refl (phase-Ok i (done v 0) s e h).1 (λ w m. ground arith) h
Step-Inv {s} (finishes i v n e) h = Slots.finish-Inv i v n s e h
Step-Inv {s} (foreign_enters i e hi hf) h = Slots.foreign_enter-Inv i s e hi hf h
Step-Inv {s} (foreign_moves i u e) h = Slots.foreign_move-Inv i u s e h
Step-Inv {s} (foreign_leaves i e z) h = Slots.leave-Inv i foreign s e refl z (λ w m. refl) h
Step-Inv {s} (creates v n z) h = copy-Inv v s h
Step-Inv {s} (copies v l) h = copy-Inv v s h
Step-Inv {s} (drops v l) h = drop-Inv v s l h
Step-Inv {s} (replaces m new hn hc) h = replace-Inv m new s hn hc h
Step-Inv {s} (acquires_more j hj hs) h = acquire_more-Inv j s hj hs h
Step-Inv {s} (sees_value j hj hs hm hi hv) h = sees_value-Inv j s hj hs hm hi hv h
Step-Inv {s} (sees_owner j hj hs hm hi hp) h = sees_owner-Inv j s hj hs hm hi hp h
Step-Inv {s} (locks j hj hs hm hi hf hg hl) h = lock-Inv j s hj hs hm hi hg hl h
Step-Inv {s} (takes j hj hm) h = take-Inv j s hj hm h
Step-Inv {s} (unlocks j hj hm) h = unlock-Inv j s hj hm h
Step-Inv {s} (gives_up j hj hs hi) h = give_up-Inv j s hj hs hi h

free_slots-length : (n : ℕ) → length (free_slots n) ≡ n
free_slots-length zero = refl
free_slots-length (suc n) = omega (arith, free_slots-length n)

free_slots-Ok : (n : ℕ) → All SlotOk (free_slots n)
free_slots-Ok zero = tt
free_slots-Ok (suc n) = (refl, free_slots-Ok n)

free_slots-refs : (n v : ℕ) → total (slot_refs v) (free_slots n) ≡ 0
free_slots-refs zero v = refl
free_slots-refs (suc n) v = omega (arith, free_slots-refs n v)

free_slots-nth : (n i : ℕ) → nth nobody (free_slots n) i ≡ nobody
free_slots-nth zero i = refl
free_slots-nth (suc n) zero = refl
free_slots-nth (suc n) (suc i) = free_slots-nth n i

initial-Inv : Inv initial
initial-Inv = record {
  nslots = free_slots-length hazard_count;
  slots_ok = free_slots-Ok hazard_count;
  granters_ok = tt;
  ledger = λ v n. ground (arith, free_slots-refs hazard_count v);
  locks = λ i. rw (free_slots-nth hazard_count i) refl;
  covered = λ i. rw (free_slots-nth hazard_count i) (λ n. absurd (n refl));
}

pub Reach-Inv : {s : State} → Reach s → Inv s
Reach-Inv here = initial-Inv
Reach-Inv (next r st) = Step-Inv st (Reach-Inv r)

-- A thread that has a hazard still to come to has a reference for it.
comes-refs :
    (b : Bool) (m : Mark) (old idx have keep v i : ℕ)
    → i < hazard_count
    → MarkOk b m idx have keep
    → comes old idx m v i ≤ (if old == v then have + keep else 0)
comes-refs false reading old idx have keep v i l h = ground (arith, h.1)
comes-refs false locked old idx have keep v i l h = absurd h
comes-refs false marked old idx have keep v i l h = absurd h
comes-refs true reading old idx have keep v i l h = ground (arith, h.1)
comes-refs true locked old idx have keep v i l h = ground (arith, h.1)
comes-refs true marked old idx have keep v i l h = ground (arith, h.1)

pending-refs :
    (v i : ℕ) (gs : List Granter)
    → i < hazard_count
    → All GranterOk gs
    → total (pending v i) gs ≤ total (granter_refs v) gs
pending-refs v i [] l ok = omega arith
pending-refs v i (g ∷ gs) l ok = omega (
  arith,
  pending-refs v i gs l ok.1,
  comes-refs g.scanning g.mark g.old g.idx g.have g.keep v i l ok.0.1,
)

checked-refs :
    (v value : ℕ)
    → (value ≡ 0) ⊎ (value ≡ v)
    → v ≢ 0
    → (value ≢ 0) ⊎ (phase_refs v (checked v) value ≡ 1)
checked-refs v value (inl z) n = inr (ground arith)
checked-refs v value (inr e) n = inl (λ z. n (sym e ∙ z))

-- A thread that has found its pointer again in the `llptr`, after it had published it, acquires a
-- reference of an object that is alive, whatever the others have done since then.
pub acquire_alive : {s : State} (i v : ℕ) → Reach s → (slot s i).phase ≡ checked v → 0 < s.refs v
unfolding is_free
acquire_alive {s} i v r e =
    let h = Reach-Inv r in
    let (hv, hz) = phase-Ok i (checked v) s e h in
    let hi = in_range i (checked v) s e refl h in
    let range : i < length s.slots = omega (arith, h.nslots, hi) in
    elim (checked-refs v (slot s i).value hz hv) [
      | inr granted ↦ omega (
        arith,
        h.ledger v hv,
        granted,
        ap (λ (p : Phase). phase_refs v p (slot s i).value) e,
        le-total {0} nobody (slot_refs v) s.slots i range,
      )
      | inl n ↦
          let need : needs (slot s i) ≡ v = rw e (ground (arith, n)) in
          omega (
            arith,
            h.ledger v hv,
            rw need at (h.covered i (λ z. hv (sym need ∙ z))),
            pending-refs v i s.granters hi h.granters_ok,
          )
    ]

-- In every state that the threads come to, an object counts the references of the `llptr`, of the other
-- pointers, of the threads that are reading the `llptr`, and of those that are replacing its pointer.
pub references_counted :
    {s : State} (v : ℕ)
    → Reach s
    → v ≢ 0
    → s.refs v
      ≡ one s.cur v + s.held v + total (slot_refs v) s.slots + total (granter_refs v) s.granters
references_counted v r n = (Reach-Inv r).ledger v n

-- The assertions on hazards hold: the value is 0 before a thread publishes its pointer, and when it
-- destroys its hazard.
pub hazard_asserts :
    {s : State} (i v n : ℕ)
    → Reach s
    → ((slot s i).phase ≡ entered v) ⊎ ((slot s i).phase ≡ done v n)
    → (slot s i).value ≡ 0
hazard_asserts {s} i v n r (inl e) = (phase-Ok i (entered v) s e (Reach-Inv r)).1
hazard_asserts {s} i v n r (inr e) = (phase-Ok i (done v n) s e (Reach-Inv r)).1
