-- ===== src/Workq/Service/Position.antt =====
-- src/workq.cc: the iterator of a thread in the queue of its service, and the change of one workq.
use ilias_async.LlList.Iterator.{
  member, Ring, link, Spot, on, gap, at_head, elements, begin, increment, spot_onto, rewind,
}
use ilias_async.LlList.Iterator.Visits.{link_at-increment, IsRing, increment-elements}
use ilias_async.Base.{
  ℕ, ◌≡◌, refl, ◌∙◌, Bool, true, false, Bool-cases, inl, inr, List, [], ◌∷◌, arith,
}
use ilias_async.Workq.RunLock.{Workq}
use native.Mathlib.Decide.{ℕ_discrete}
use ilias_async.Workq.Service.{link_next, wakeup, Service, set_workq, get_runq_iterpos}

pub set_workq-same : (f : ℕ → Workq) (w : ℕ) (q : Workq) → set_workq f w q w ≡ q
unfolding ℕ_discrete
set_workq-same f w q = ground arith

pub wakeup-workqs : (n : ℕ) (s : Service) → (wakeup n s).workqs ≡ s.workqs
unfolding wakeup
wakeup-workqs n s = ground arith

pub begin-elements : (xs : List ℕ) → elements (begin xs) ≡ xs
unfolding begin
begin-elements [] = refl
begin-elements (x ∷ xs) = refl

pub begin-IsRing : (xs : List ℕ) → IsRing (begin xs)
unfolding begin
begin-IsRing [] = tt
begin-IsRing (x ∷ xs) = tt

-- The iterator that the thread goes on from.
abbrev pub position : Bool → Ring → Ring
position true r = r
position false r = begin (elements r)

pub position-elements : (b : Bool) (r : Ring) → elements (position b r) ≡ elements r
position-elements true r = refl
position-elements false r = begin-elements (elements r)

pub position-IsRing : (b : Bool) (r : Ring) → IsRing r → IsRing (position b r)
position-IsRing true r h = h
position-IsRing false r h = begin-IsRing (elements r)

pub get_runq_iterpos_lem :
    (s : Service) → get_runq_iterpos s ≡ record s { mine = true; runq = position s.mine s.runq }
unfolding get_runq_iterpos
get_runq_iterpos_lem s = elim (Bool-cases s.mine) [
  | inl e ↦ rw (e, get_runq_iterpos) refl
  | inr e ↦ rw (e, get_runq_iterpos) refl
]

after_spot :
    (s : Spot) (b : List ℕ) (w : ℕ) (a : List ℕ)
    → rewind (spot_onto s b) (w ∷ a) ≡ rewind b (spot_onto s (w ∷ a))
after_spot (on x) b w a = refl
after_spot gap b w a = refl
after_spot at_head b w a = refl

-- Linking before a copy of the iterator that was moved on: the new workq comes right after the
-- iterator, unless it is on the queue already.
pub link_next-link :
    (w : ℕ) (r : Ring) → IsRing r → elements (link w (increment r)) ≡ elements (link_next w r)
unfolding link link_next
link_next-link w r h =
    let same = increment-elements r.behind r.ahead r.ptr r.spot h in
    elim (Bool-cases (member w (elements r))) [
      | inl e ↦ rw (same, e) same
      | inr e ↦ rw (same, e) (link_at-increment w r ∙ after_spot r.spot r.behind w r.ahead)
    ]
