-- ===== src/Llptr.antt =====
-- include/ilias/llptr.h on the hazards of src/hazard.cc and include/ilias/hazard-inl.h: one `llptr`, the
-- threads that read it, and those that replace its pointer. An object is a number other than 0, its
-- address; 0 is `nullptr`.
pub mod Steps
pub mod Sums
pub mod Slots
pub mod Granters
pub mod Marks
pub mod Scan
pub mod Replace
pub mod Safety
pub mod Ledger
mod Tests
use ilias_async.Base.{ℕ, zero, suc, ◌+◌, ◌-◌, Bool, true, false, List, [], ◌∷◌, ◌==◌, if◌then◌else◌}

-- How far a thread is that uses a hazard of this `llptr`, with the pointer that it has loaded: the
-- hazard is constructed, its value is published, the pointer was found again in the `llptr`, the
-- operation is over with the references that it has acquired, `do_hazard` is over with those that it has
-- counted. A hazard of another `llptr` is foreign.
pub data Phase : Type 0 where
  free foreign : Phase
  entered published checked : ℕ → Phase
  used done : ℕ → ℕ → Phase

-- `hazard_t`: its `value`, and the bit `FLAG` of its `owner`; the phase tells the rest of the owner.
pub record Slot : Type 0 where
  pub phase : Phase
  pub value : ℕ
  pub flag : Bool

abbrev pub hazard_count : ℕ
hazard_count = 64

-- What `mark` has done to the hazard of the loop: nothing, set its flag, or exchanged its value.
pub data Mark : Type 0 where
  reading locked marked : Mark

-- A thread in `grant` for the pointer `old` that it has taken out of the `llptr`: `have` is `nrefs`, the
-- references that it may still give away, `keep` those of its own pointer; `scanning` once it has
-- acquired the additional ones, at the hazard `idx`.
pub record Granter : Type 0 where
  pub old : ℕ
  pub have : ℕ
  pub keep : ℕ
  pub scanning : Bool
  pub idx : ℕ
  pub mark : Mark

-- The pointer of the `llptr`; the reference counts; the references that other pointers of the program
-- hold; the hazards, and the threads in `grant`.
pub record State : Type 0 where
  pub cur : ℕ
  pub refs : ℕ → ℕ
  pub held : ℕ → ℕ
  pub slots : List Slot
  pub granters : List Granter

abbrev pub nobody : Slot
nobody = record { phase = free; value = 0; flag = false }

abbrev pub nil : Granter
nil = record { old = 0; have = 0; keep = 0; scanning = false; idx = 0; mark = reading }

abbrev pub nth {ℓ} : {A : Type ℓ} → A → List A → ℕ → A
nth d [] i = d
nth d (x ∷ xs) zero = x
nth d (x ∷ xs) (suc i) = nth d xs i

abbrev pub put {ℓ} : {A : Type ℓ} → List A → ℕ → A → List A
put [] i y = []
put (x ∷ xs) zero y = y ∷ xs
put (x ∷ xs) (suc i) y = x ∷ put xs i y

abbrev pub remove {ℓ} : {A : Type ℓ} → List A → ℕ → List A
remove [] i = []
remove (x ∷ xs) zero = xs
remove (x ∷ xs) (suc i) = x ∷ remove xs i

abbrev pub slot : State → ℕ → Slot
slot s i = nth nobody s.slots i

abbrev pub granter : State → ℕ → Granter
granter s j = nth nil s.granters j

abbrev pub with_slot : ℕ → Slot → State → State
with_slot i x s = record s { slots = put s.slots i x }

abbrev pub with_granter : ℕ → Granter → State → State
with_granter j g s = record s { granters = put s.granters j g }

-- `acquire(*p, n)` and `release(*p, n)`
abbrev pub add : ℕ → ℕ → (ℕ → ℕ) → ℕ → ℕ
add p n f v = if p == v then f v + n else f v

abbrev pub sub : ℕ → ℕ → (ℕ → ℕ) → ℕ → ℕ
sub p n f v = if p == v then f v - n else f v

-- `basic_hazard::basic_hazard` with the pointer `v` that was loaded before; also the next round of the
-- loop in `load`, which keeps the hazard.
unfoldable pub enter : ℕ → Slot → Slot
enter v x = record x { phase = entered v }

-- `do_hazard`: `value.exchange(v)`
unfoldable pub publish : ℕ → Slot → Slot
publish v x = record x { phase = published v; value = v }

-- The test in the operation of `llptr::do_hazard`
unfoldable pub test : ℕ → ℕ → Slot → Slot
test cur v x = record x { phase = if cur == v then checked v else used v 0 }

-- Its `acquire(*v_ptr, 1U)`
unfoldable pub acquire_one : ℕ → ℕ → State → State
acquire_one i v s = record s {
  refs = add v 1 s.refs;
  slots = put s.slots i (record (nth nobody s.slots i) { phase = used v 1 });
}

-- `do_hazard`: `value.exchange(0U)`, and `on_nil`
unfoldable pub withdraw : ℕ → ℕ → Slot → Slot
withdraw v n x = record x { phase = done v (if x.value == 0 then n + 1 else n); value = 0 }

-- `basic_hazard::~basic_hazard`
unfoldable pub leave : Slot → Slot
leave x = record x { phase = free }

-- The end of `load`: of `n + 1` references, `n` are released, and the result has the other.
unfoldable pub finish : ℕ → ℕ → ℕ → State → State
unfolding leave
finish i v n s = record s {
  refs = sub v n s.refs;
  held = add v 1 s.held;
  slots = put s.slots i (leave (nth nobody s.slots i));
}

-- How a pointer is replaced: by `store` and `compare_exchange` with a pointer that is not counted,
-- by `exchange`, which returns the old pointer, or by `compare_exchange` with an expected pointer that
-- is moved in.
pub data Mode : Type 0 where
  stores exchanges compares : Mode

abbrev pub start : Mode → ℕ → Granter
start stores old = record {
  old = old;
  have = 1;
  keep = 0;
  scanning = false;
  idx = 0;
  mark = reading;
}
start exchanges old = record {
  old = old;
  have = 0;
  keep = 1;
  scanning = false;
  idx = 0;
  mark = reading;
}
start compares old = record {
  old = old;
  have = 2;
  keep = 0;
  scanning = false;
  idx = 0;
  mark = reading;
}

abbrev pub gives : Mode → ℕ → (ℕ → ℕ) → ℕ → ℕ
gives compares old f = sub old 1 f
gives m old f = f

-- The exchange of `store`, `exchange` and a `compare_exchange` that succeeds: the reference of the new
-- pointer moves into the `llptr`. `grant` returns at once for `nullptr`.
unfoldable pub replace : Mode → ℕ → State → State
replace m new s = record s {
  cur = new;
  held = gives m s.cur (sub new 1 s.held);
  granters = if s.cur == 0 then s.granters else start m s.cur ∷ s.granters;
}

-- `basic_hazard::grant`: `acquire(hzc - nrefs)`
unfoldable pub acquire_more : ℕ → State → State
acquire_more j s =
    let g = nth nil s.granters j in
    record s {
      refs = add g.old (hazard_count - g.have) s.refs;
      granters = put s.granters j (record g { have = hazard_count; scanning = true });
    }

-- `mark` goes on to the next hazard: it sees another value, or another owner, or it clears the flag.
unfoldable pub skip : ℕ → State → State
skip j s =
    let g = nth nil s.granters j in with_granter j (record g { idx = g.idx + 1; mark = reading }) s

-- `mark`: `owner.compare_exchange_weak(owner, owner | FLAG)`
unfoldable pub lock : ℕ → State → State
lock j s =
    let g = nth nil s.granters j in
    with_slot g.idx (record (nth nobody s.slots g.idx) { flag = true })
      (with_granter j (record g { mark = locked }) s)

-- `mark`: `value.compare_exchange_strong(value, 0U)`
unfoldable pub take : ℕ → State → State
take j s =
    let g = nth nil s.granters j in
    let x = nth nobody s.slots g.idx in
    if x.value == g.old
    then with_slot g.idx (record x { value = 0 })
        (with_granter j (record g { mark = marked; have = g.have - 1 }) s)
    else with_granter j (record g { mark = marked }) s

-- `mark`: `owner.fetch_and(MASK)`
unfoldable pub unlock : ℕ → State → State
unfolding skip
unlock j s =
    let g = nth nil s.granters j in
    with_slot g.idx (record (nth nobody s.slots g.idx) { flag = false }) (skip j s)

-- `basic_hazard::grant`: `release(nrefs)`; the pointer that `exchange` returns keeps its own.
unfoldable pub give_up : ℕ → State → State
give_up j s =
    let g = nth nil s.granters j in
    record s {
      refs = sub g.old g.have s.refs;
      held = add g.old g.keep s.held;
      granters = remove s.granters j;
    }
