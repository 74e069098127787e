-- ===== src/LlList/Memory.antt =====
-- include/ilias/ll_list.h: `elem`, and the memory that holds the elements.
use ilias_async.Base.{ℕ, Bool, true, false, not, ◌&&◌, ◌==◌, if◌then◌else◌}

-- `elem_type`
pub data ElemType : Type 0 where
  head element iterator : ElemType

-- `succ_` with `S_MARKED` and `D_MARKED`, and `pred_` with `MARKED`.
pub record Succ : Type 0 where
  pub to : ℕ
  pub s_marked : Bool
  pub d_marked : Bool

pub record Pred : Type 0 where
  pub to : ℕ
  pub is_marked : Bool

-- `elem`
pub record Elem : Type 0 where
  pub succ : Succ
  pub pred : Pred
  pub kind : ElemType
  pub linking : Bool

abbrev pub Memory : Type 0
Memory = ℕ → Elem

abbrev pub s_plain : ℕ → Succ
s_plain b = record { to = b; s_marked = false; d_marked = false }

abbrev pub p_plain : ℕ → Pred
p_plain a = record { to = a; is_marked = false }

abbrev pub same_bool : Bool → Bool → Bool
same_bool true b = b
same_bool false b = not b

abbrev pub same_succ : Succ → Succ → Bool
same_succ u v =
    (u.to == v.to) && (same_bool u.s_marked v.s_marked && same_bool u.d_marked v.d_marked)

abbrev pub same_pred : Pred → Pred → Bool
same_pred u v = (u.to == v.to) && same_bool u.is_marked v.is_marked

abbrev pub put_succ : ℕ → Succ → Memory → Memory
put_succ a u h e = if a == e then record (h e) { succ = u } else h e

abbrev pub put_pred : ℕ → Pred → Memory → Memory
put_pred a u h e = if a == e then record (h e) { pred = u } else h e

-- What a function ends in; `runs_on` where it needs more turns than its fuel.
pub data Run {ℓ} (A : Type ℓ) : Type ℓ where
  returns : A → Run A
  fails : Run A
  runs_on : Run A

infixl 5 ◌>>=◌
abbrev pub ◌>>=◌ {ℓ κ} : {A : Type ℓ} {B : Type κ} → Run A → (A → Run B) → Run B
returns a >>= f = f a
fails >>= f = fails
runs_on >>= f = runs_on

abbrev pub check {ℓ} : {A : Type ℓ} → Bool → Run A → Run A
check true k = k
check false k = fails
