-- ===== src/Llptr/Granters.antt =====
-- include/ilias/llptr.h, src/hazard.cc: the steps of the threads that replace the pointer of an
-- `llptr`, and of those that copy, drop and create references.
use ilias_async.Base.{
  ℕ, zero, suc, ◌+◌, ◌-◌, ◌<◌, ◌≤◌, ◌≡◌, ◌≢◌, refl, Bool, true, false, List, [], ◌∷◌, arith, length,
  All, ◌⊎◌, inl, inr,
}
use ilias_async.Llptr.{
  Mark, reading, locked, marked, Granter, State, nil, nth, put, slot, granter, hazard_count, add,
  sub, Mode, stores, exchanges, compares, start, gives, acquire_more, skip,
}
use ilias_async.Llptr.Sums.{total-put, All-put}
use ilias_async.Llptr.Ledger.{
  one, granter_refs, MarkOk, GranterOk, locks_at, needs, pending, comes, Inv,
}

pub refs_move-Inv :
    (refs held : ℕ → ℕ) (s : State)
    → ((v : ℕ) → v ≢ 0 → refs v + s.held v ≡ s.refs v + held v)
    → Inv s
    → Inv (record s { refs = refs; held = held })
refs_move-Inv refs held s hr h = record {
  nslots = h.nslots;
  slots_ok = h.slots_ok;
  granters_ok = h.granters_ok;
  ledger = λ v n. omega (arith, h.ledger v n, hr v n);
  locks = h.locks;
  covered = h.covered;
}

pub copy-Inv :
    (v : ℕ) (s : State) → Inv s → Inv (record s { refs = add v 1 s.refs; held = add v 1 s.held })
copy-Inv v s h = refs_move-Inv (add v 1 s.refs) (add v 1 s.held) s (λ u n. ground arith) h

pub drop-Inv :
    (v : ℕ) (s : State)
    → 0 < s.held v
    → Inv s
    → Inv (record s { refs = sub v 1 s.refs; held = sub v 1 s.held })
drop-Inv v s hh h =
    refs_move-Inv (sub v 1 s.refs) (sub v 1 s.held) s (λ u n. ground (arith, h.ledger u n, hh)) h

pub start-Ok : (m : Mode) (old : ℕ) → old ≢ 0 → GranterOk (start m old)
start-Ok stores old n = (n, (refl, omega arith, omega arith))
start-Ok exchanges old n = (n, (refl, omega arith, omega arith))
start-Ok compares old n = (n, (refl, omega arith, omega arith))

-- The reference of the `llptr`, and the one that `compare_exchange` is given, are the new granter's.
pub start-refs :
    (m : Mode) (old v : ℕ) (held : ℕ → ℕ)
    → (m ≢ compares) ⊎ (0 < held old)
    → gives m old held v + granter_refs v (start m old) ≡ held v + one old v
start-refs stores old v held h = ground arith
start-refs exchanges old v held h = ground arith
start-refs compares old v held (inl n) = absurd (n refl)
start-refs compares old v held (inr h) = ground arith

pub start-pending : (m : Mode) (old i : ℕ) → pending old i (start m old) ≡ 1
start-pending stores old i = ground arith
start-pending exchanges old i = ground arith
start-pending compares old i = ground arith

pub start-locks_at : (m : Mode) (old i : ℕ) → locks_at i (start m old) ≡ 0
start-locks_at stores old i = refl
start-locks_at exchanges old i = refl
start-locks_at compares old i = refl

-- A step of one thread in `grant` at its own record, with no change to a hazard.
pub granter_move-Inv :
    (j : ℕ) (g : Granter) (refs : ℕ → ℕ) (s : State)
    → j < length s.granters
    → GranterOk g
    → ((v : ℕ) → v ≢ 0 → refs v + granter_refs v (granter s j) ≡ s.refs v + granter_refs v g)
    → ((i : ℕ) → locks_at i g ≡ locks_at i (granter s j))
    → ((i : ℕ)
        → needs (slot s i) ≢ 0
        → pending (needs (slot s i)) i g ≡ pending (needs (slot s i)) i (granter s j))
    → Inv s
    → Inv (record s { refs = refs; granters = put s.granters j g })
granter_move-Inv j g refs s hj ok hr hl hp h = record {
  nslots = h.nslots;
  slots_ok = h.slots_ok;
  granters_ok = All-put GranterOk s.granters j g h.granters_ok ok;
  ledger = λ v n.
      omega (arith, h.ledger v n, hr v n, total-put {0} nil (granter_refs v) s.granters j g hj);
  locks = λ i. omega (arith, h.locks i, hl i, total-put {0} nil (locks_at i) s.granters j g hj);
  covered = λ i n. omega (
    arith,
    h.covered i n,
    hp i n,
    total-put {0} nil (pending (needs (slot s i)) i) s.granters j g hj,
  );
}

pub granter-Ok : (j : ℕ) (s : State) → j < length s.granters → Inv s → GranterOk (granter s j)
granter-Ok j s hj h = at s.granters j hj h.granters_ok
  where
    at : (gs : List Granter) (j : ℕ) → j < length gs → All GranterOk gs → GranterOk (nth nil gs j)
    at [] j l a = absurd (omega arith)
    at (g ∷ gs) zero l a = a.0
    at (g ∷ gs) (suc j) l a = at gs j (omega arith) a.1

pub mark-Ok :
    (j : ℕ) (b : Bool) (m : Mark) (s : State)
    → j < length s.granters
    → (granter s j).scanning ≡ b
    → (granter s j).mark ≡ m
    → Inv s
    → MarkOk b m (granter s j).idx (granter s j).have (granter s j).keep
mark-Ok j b m s hj eb em h = rw (eb, em) at (granter-Ok j s hj h).1

-- A thread that has locked or marked is scanning.
pub scanning-Ok :
    (b : Bool) (m : Mark) (idx have keep : ℕ)
    → (m ≡ locked) ⊎ (m ≡ marked)
    → MarkOk b m idx have keep
    → b ≡ true
scanning-Ok true m idx have keep e k = refl
scanning-Ok false reading idx have keep (inl e) k = absurd (cc e)
scanning-Ok false reading idx have keep (inr e) k = absurd (cc e)
scanning-Ok false locked idx have keep e k = absurd k
scanning-Ok false marked idx have keep e k = absurd k

passed :
    (old idx i v u : ℕ)
    → v ≢ 0
    → (u ≡ 0) ⊎ (u ≢ old)
    → (i ≡ idx → v ≡ u)
    → comes old (idx + 1) reading v i ≡ comes old idx reading v i
passed old idx i v u n (inl z) e = ground (arith, e)
passed old idx i v u n (inr z) e = ground (arith, e)

more-Ok :
    (m : Mark) (idx have keep : ℕ)
    → MarkOk false m idx have keep
    → MarkOk true m idx hazard_count keep × (m ≡ reading) × (have ≤ hazard_count)
more-Ok reading idx have keep h = ((omega (arith, h.0), omega arith), refl, h.2)
more-Ok locked idx have keep h = absurd h
more-Ok marked idx have keep h = absurd h

pub acquire_more-Inv :
    (j : ℕ) (s : State)
    → j < length s.granters
    → (granter s j).scanning ≡ false
    → Inv s
    → Inv (acquire_more j s)
unfolding acquire_more
acquire_more-Inv j s hj hs h =
    let g = granter s j in
    let ok = granter-Ok j s hj h in
    let more = more-Ok g.mark g.idx g.have g.keep (rw hs at ok.1) in
    granter_move-Inv j (record g { have = hazard_count; scanning = true })
      (add g.old (hazard_count - g.have) s.refs) s hj (ok.0, more.0) (λ v n. ground (arith, more.2))
      (λ i. refl) (λ i n. refl) h

-- The hazard that a thread passes does not need it.
pub skip-Inv :
    (j : ℕ) (s : State)
    → j < length s.granters
    → (granter s j).scanning ≡ true
    → (granter s j).mark ≡ reading
    → (granter s j).idx < hazard_count
    → (needs (slot s (granter s j).idx) ≡ 0)
      ⊎ (needs (slot s (granter s j).idx) ≢ (granter s j).old)
    → Inv s
    → Inv (skip j s)
unfolding skip
skip-Inv j s hj hs hm hi hn h =
    let g = granter s j in
    let ok = mark-Ok j true reading s hj hs hm h in
    granter_move-Inv j (record g { idx = g.idx + 1; mark = reading }) s.refs s hj
      ((granter-Ok j s hj h).0, rw hs (omega (arith, hi), omega (arith, ok.1))) (λ v n. refl)
      (λ i. rw hm refl)
      (λ i n.
        rw hm
          (passed g.old g.idx i (needs (slot s i)) (needs (slot s g.idx)) n hn (λ e. rw e refl)))
      h
