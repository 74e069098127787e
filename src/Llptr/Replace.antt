-- ===== src/Llptr/Replace.antt =====
-- include/ilias/llptr.h, include/ilias/hazard-inl.h: the beginning and the end of `grant`.
use native.Mathlib.Decide.{ℕ_discrete, dec_lt}
use ilias_async.Base.{
  ℕ, zero, ◌+◌, ◌<◌, ◌≡◌, ◌≢◌, refl, ap, true, ◌==◌, if◌then◌else◌, arith, length, ◌⊎◌, inl, inr,
}
use ilias_async.Llptr.{
  Slot, Mark, reading, locked, marked, State, nobody, nil, slot, granter, hazard_count, sub, Mode,
  stores, exchanges, compares, start, gives, replace, give_up,
}
use ilias_async.Llptr.Sums.{total, total-remove, All-remove, nth-out}
use ilias_async.Llptr.Ledger.{
  one, granter_refs, MarkOk, GranterOk, locks_at, is_reading, needs, pending, comes, Inv,
}
use ilias_async.Llptr.Granters.{granter-Ok, start-Ok, start-refs, start-locks_at}
use ilias_async.Llptr.Scan.{value-eq, value-ne}

-- At the end of the array no flag is set.
end-reading :
    (m : Mark) (idx have keep : ℕ) → idx ≡ hazard_count → MarkOk true m idx have keep → m ≡ reading
end-reading reading idx have keep e h = refl
end-reading locked idx have keep e h = absurd (omega (arith, h.0))
end-reading marked idx have keep e h = absurd (omega (arith, h.0))

needs-range : (i : ℕ) (s : State) → needs (slot s i) ≢ 0 → Inv s → i < hazard_count
needs-range i s n h = elim (dec_lt i hazard_count) [
  | yes l ↦ l
  | no g ↦
      absurd
        (n (ap (λ (x : Slot). needs x) (nth-out nobody s.slots i (omega (arith, h.nslots, g)))))
]

pub give_up-Inv :
    (j : ℕ) (s : State)
    → j < length s.granters
    → (granter s j).scanning ≡ true
    → (granter s j).idx ≡ hazard_count
    → Inv s
    → Inv (give_up j s)
unfolding give_up
give_up-Inv j s hj hs hi h =
    let g = granter s j in
    let hm = end-reading g.mark g.idx g.have g.keep hi (rw hs at (granter-Ok j s hj h).1) in
    record {
      nslots = h.nslots;
      slots_ok = h.slots_ok;
      granters_ok = All-remove GranterOk s.granters j h.granters_ok;
      ledger = λ v n.
          ground (arith, h.ledger v n, total-remove {0} nil (granter_refs v) s.granters j hj);
      locks = λ i. omega (
        arith,
        h.locks i,
        total-remove {0} nil (locks_at i) s.granters j hj,
        unlocked-mark g.idx i g.mark hm,
      );
      covered = λ i n. omega (
        arith,
        h.covered i n,
        total-remove {0} nil (pending (needs (slot s i)) i) s.granters j hj,
        past g.old g.idx g.mark (needs (slot s i)) i hi (needs-range i s n h),
      );
    }
  where
    unlocked-mark :
        (idx i : ℕ) (m : Mark)
        → m ≡ reading
        → (if is_reading m then 0 else (if idx == i then 1 else 0)) ≡ zero
    unlocked-mark idx i m e = rw e refl

    past :
        (old idx : ℕ) (m : Mark) (v i : ℕ)
        → idx ≡ hazard_count
        → i < hazard_count
        → comes old idx m v i ≡ 0
    past old idx m v i e l = ground arith

-- The reference of the new pointer moves into the `llptr`.
new-refs :
    (new v : ℕ) (held : ℕ → ℕ)
    → (new ≡ 0) ⊎ (0 < held new)
    → v ≢ 0
    → sub new 1 held v + one new v ≡ held v
new-refs new v held (inl e) n = ground arith
new-refs new v held (inr e) n = ground arith

gives-nil : (m : Mode) (v : ℕ) (f : ℕ → ℕ) → v ≢ 0 → gives m 0 f v ≡ f v
gives-nil stores v f n = refl
gives-nil exchanges v f n = refl
gives-nil compares v f n = ground arith

pass-Covered : (m : Mode) (old v i t : ℕ) → 0 < one old v + t → 0 < pending v i (start m old) + t
pass-Covered stores old v i t h = ground arith
pass-Covered exchanges old v i t h = ground arith
pass-Covered compares old v i t h = ground arith

one-nil : (v : ℕ) → v ≢ 0 → one 0 v ≡ 0
one-nil v n = ground arith

left :
    (m : Mode) (old rest : ℕ)
    → old ≢ 0
    → (m ≢ compares) ⊎ ((old ≡ 0) ⊎ (0 < rest))
    → (m ≢ compares) ⊎ (0 < rest)
left m old rest n (inl h) = inl h
left m old rest n (inr (inl z)) = absurd (n z)
left m old rest n (inr (inr h)) = inr h

pub replace-Inv :
    (m : Mode) (new : ℕ) (s : State)
    → (new ≡ 0) ⊎ (0 < s.held new)
    → (m ≢ compares) ⊎ ((s.cur ≡ 0) ⊎ (0 < sub new 1 s.held s.cur))
    → Inv s
    → Inv (replace m new s)
unfolding replace
replace-Inv m new s hn hc h = elim (ℕ_discrete s.cur 0) [
  | yes z ↦ rw (value-eq s.cur 0 z) (record {
    nslots = h.nslots;
    slots_ok = h.slots_ok;
    granters_ok = h.granters_ok;
    ledger = λ v n. omega (
      arith,
      h.ledger v n,
      new-refs new v s.held hn n,
      gives-nil m v (sub new 1 s.held) n,
      ap (λ (c : ℕ). one c v) z,
      ap (λ (c : ℕ). gives m c (sub new 1 s.held) v) z,
      one-nil v n,
    );
    locks = h.locks;
    covered = λ i n. omega (
      arith,
      h.covered i n,
      ap (λ (c : ℕ). one c (needs (slot s i))) z,
      one-nil (needs (slot s i)) n,
    );
  })
  | no z ↦ rw (value-ne s.cur 0 z) (record {
    nslots = h.nslots;
    slots_ok = h.slots_ok;
    granters_ok = (start-Ok m s.cur z, h.granters_ok);
    ledger = λ v n. omega (
      arith,
      h.ledger v n,
      new-refs new v s.held hn n,
      start-refs m s.cur v (sub new 1 s.held) (left m s.cur (sub new 1 s.held s.cur) z hc),
    );
    locks = λ i. omega (arith, h.locks i, start-locks_at m s.cur i);
    covered = λ i n. omega (
      arith,
      pass-Covered m s.cur (needs (slot s i)) i (total (pending (needs (slot s i)) i) s.granters)
          (h.covered i n),
    );
  })
]
