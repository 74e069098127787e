-- ===== src/Hazard/Allocation.antt =====
-- src/hazard.cc: the search of `allocate_hazard`, and the count of `hazard_grant_n`.
use mathlib.Core.Path.{subst}
use ilias_async.Base.{
  ℕ, zero, suc, ◌+◌, ◌%◌, ◌<◌, ◌≤◌, ◌≡◌, refl, ap, Bool, true, false, Bool-cases, inl, inr, ◌==◌,
  if◌then◌else◌, List, [], ◌∷◌, ◌++◌, length, arith,
}
use ilias_async.Hazard.{
  Hazard, Scan, allocated, missed, behind, scan, scan_from, Run, found, runs_on, allocate_loop,
  allocate_hazard, hazard_count, mark, grant_loop, hazard_grant_n,
}

-- One free hazard has become that of `o`.
pub record Allocates (o : ℕ) (hs ks : List Hazard) : Type 0 where
  pub pre : List Hazard
  pub one : Hazard
  pub post : List Hazard
  pub before : hs ≡ pre ++ (one ∷ post)
  pub was_free : one.owner ≡ 0
  pub after : ks ≡ pre ++ (record one { owner = o } ∷ post)

abbrev pub has_free : List Hazard → Bool
has_free [] = false
has_free (h ∷ hs) = if h.owner == 0 then true else has_free hs

-- A turn allocates a hazard, or fails spuriously on each free one.
abbrev pub Scanned : ℕ → List Bool → List Hazard → Bool → Scan → Type 0
Scanned o spurious hs b (allocated ks) = Allocates o hs ks
Scanned o spurious hs true (missed rest) = length rest < length spurious
Scanned o spurious hs false (missed rest) = length rest ≤ length spurious

Allocates-behind :
    (o : ℕ) (h : Hazard) (hs ks : List Hazard) → Allocates o hs ks → Allocates o (h ∷ hs) (h ∷ ks)
Allocates-behind o h hs ks a = record {
  pre = h ∷ a.pre;
  one = a.one;
  post = a.post;
  before = ap (λ l. h ∷ l) a.before;
  was_free = a.was_free;
  after = ap (λ l. h ∷ l) a.after;
}

Scanned-behind :
    (o : ℕ) (spurious : List Bool) (h : Hazard) (hs : List Hazard) (b : Bool) (r : Scan)
    → Scanned o spurious hs b r
    → Scanned o spurious (h ∷ hs) b (behind h r)
Scanned-behind o spurious h hs b (allocated ks) a = Allocates-behind o h hs ks a
Scanned-behind o spurious h hs true (missed rest) a = a
Scanned-behind o spurious h hs false (missed rest) a = a

Scanned-fewer :
    (o : ℕ) (rest : List Bool) (h : Hazard) (hs : List Hazard) (b : Bool) (r : Scan)
    → Scanned o rest hs b r
    → Scanned o (true ∷ rest) (h ∷ hs) true (behind h r)
Scanned-fewer o rest h hs b (allocated ks) a = Allocates-behind o h hs ks a
Scanned-fewer o rest h hs true (missed r) a = omega (arith, a)
Scanned-fewer o rest h hs false (missed r) a = omega (arith, a)

Allocates-here :
    (o : ℕ) (h : Hazard) (hs : List Hazard)
    → h.owner ≡ 0
    → Allocates o (h ∷ hs) (record h { owner = o } ∷ hs)
Allocates-here o h hs e = record {
  pre = [];
  one = h;
  post = hs;
  before = refl;
  was_free = e;
  after = refl;
}

scan-taken :
    (spurious : List Bool) (o : ℕ) (h : Hazard) (hs : List Hazard)
    → (h.owner == 0) ≡ false
    → Scanned o spurious hs (has_free hs) (scan spurious o hs)
    → Scanned o spurious (h ∷ hs) (has_free (h ∷ hs)) (scan spurious o (h ∷ hs))
unfolding scan
scan-taken spurious o h hs e r =
    rw (e, scan) (Scanned-behind o spurious h hs (has_free hs) (scan spurious o hs) r)

scan-Scanned :
    (spurious : List Bool) (o : ℕ) (hs : List Hazard)
    → Scanned o spurious hs (has_free hs) (scan spurious o hs)
unfolding scan
scan-Scanned spurious o [] = omega arith
scan-Scanned [] o (h ∷ hs) = elim (Bool-cases (h.owner == 0)) [
  | inl e ↦ rw (e, scan) (Allocates-here o h hs (ground (arith, e)))
  | inr e ↦ scan-taken [] o h hs e (scan-Scanned [] o hs)
]
scan-Scanned (false ∷ rest) o (h ∷ hs) = elim (Bool-cases (h.owner == 0)) [
  | inl e ↦ rw (e, scan) (Allocates-here o h hs (ground (arith, e)))
  | inr e ↦ scan-taken (false ∷ rest) o h hs e (scan-Scanned (false ∷ rest) o hs)
]
scan-Scanned (true ∷ rest) o (h ∷ hs) = elim (Bool-cases (h.owner == 0)) [
  | inl e ↦
      rw (e, scan)
        (Scanned-fewer o rest h hs (has_free hs) (scan rest o hs) (scan-Scanned rest o hs))
  | inr e ↦ scan-taken (true ∷ rest) o h hs e (scan-Scanned (true ∷ rest) o hs)
]

weaken :
    (o : ℕ) (spurious : List Bool) (hs : List Hazard) (b : Bool) (r : Scan)
    → Scanned o spurious hs b r
    → Scanned o spurious hs false r
weaken o spurious hs b (allocated ks) a = a
weaken o spurious hs true (missed rest) a = omega (arith, a)
weaken o spurious hs false (missed rest) a = a

scan_from-Scanned :
    (i : ℕ) (spurious : List Bool) (o : ℕ) (hs : List Hazard)
    → Scanned o spurious hs false (scan_from i spurious o hs)
unfolding scan_from
scan_from-Scanned zero spurious o hs =
    weaken o spurious hs (has_free hs) (scan spurious o hs) (scan-Scanned spurious o hs)
scan_from-Scanned (suc i) spurious o [] = omega arith
scan_from-Scanned (suc i) spurious o (h ∷ hs) =
    Scanned-behind o spurious h hs false (scan_from i spurious o hs)
      (scan_from-Scanned i spurious o hs)

-- Ends with a hazard allocated.
unfoldable pub Finds : ℕ → List Hazard → Run → Type 0
Finds o hs (found ks) = Allocates o hs ks
Finds o hs runs_on = ⊥

module _ (o : ℕ) (hs : List Hazard) where
  after_scan :
      (fuel : ℕ) (spurious : List Bool) (b : Bool) (r : Scan)
      → ((rest : List Bool)
          → Scanned o spurious hs b (missed rest)
          → Finds o hs (allocate_loop fuel rest o hs))
      → Scanned o spurious hs b r
      → Finds o hs (elim r [ allocated ks ↦ found ks | missed rest ↦ allocate_loop fuel rest o hs ])
  unfolding Finds
  after_scan fuel spurious b (allocated ks) k a = a
  after_scan fuel spurious b (missed rest) k a = k rest a

  allocate_loop-Finds :
      (fuel : ℕ) (spurious : List Bool)
      → has_free hs ≡ true
      → length spurious < fuel
      → Finds o hs (allocate_loop fuel spurious o hs)
  unfolding allocate_loop
  allocate_loop-Finds zero spurious free l = absurd (omega (arith, l))
  allocate_loop-Finds (suc fuel) spurious free l =
      after_scan fuel spurious true (scan spurious o hs)
        (λ rest a. allocate_loop-Finds fuel rest free (omega (arith, l, a)))
        (subst (λ b. Scanned o spurious hs b (scan spurious o hs)) free
          (scan-Scanned spurious o hs))

-- Where a hazard is free, allocate_hazard returns with one that was free, wherever it starts and
-- whatever exchanges fail spuriously; the others are as they were. It is given one turn more than
-- there are such exchanges, after the first, partial one.
pub allocate_hazard-Finds :
    (idx o : ℕ) (spurious : List Bool) (hs : List Hazard)
    → has_free hs ≡ true
    → Finds o hs (allocate_hazard (suc (length spurious)) idx spurious o hs)
unfolding allocate_hazard
allocate_hazard-Finds idx o spurious hs free =
    after_scan o hs (suc (length spurious)) spurious false
      (scan_from (idx % hazard_count) spurious o hs)
      (λ rest a. allocate_loop-Finds o hs (suc (length spurious)) rest free (omega (arith, a)))
      (scan_from-Scanned (idx % hazard_count) spurious o hs)

grant_loop-bound :
    (count o v nrefs : ℕ) (hs : List Hazard)
    → count ≤ nrefs
    → (grant_loop count o v nrefs hs).1 ≤ nrefs
unfolding grant_loop
grant_loop-bound count o v nrefs [] l = l
grant_loop-bound count o v nrefs (h ∷ hs) l = elim (Bool-cases (count == nrefs)) [
  | inl e ↦ rw (e, grant_loop) l
  | inr e ↦ elim (Bool-cases (mark h o v).1) [
    | inl b ↦
        rw (e, b, grant_loop) (grant_loop-bound (count + 1) o v nrefs hs (ground (arith, e, l)))
    | inr b ↦ rw (e, b, grant_loop) (grant_loop-bound count o v nrefs hs l)
  ]
]

-- No more than `nrefs` references are granted.
pub hazard_grant_n-bound :
    (o v nrefs : ℕ) (hs : List Hazard) → (hazard_grant_n o v nrefs hs).1 ≤ nrefs
unfolding hazard_grant_n
hazard_grant_n-bound o v nrefs hs = grant_loop-bound 0 o v nrefs hs (omega arith)
