-- ===== src/FlagPtr.antt =====
-- include/ilias/llptr.h: `atomic_flag_ptr`, a pointer and flags in the bits of one word.
use ilias_async.Base.{
  ℕ, zero, suc, ◌+◌, ◌-◌, ◌*◌, ◌/◌, ◌%◌, ◌^◌, ◌≡◌, Bool, true, false, not, ◌&&◌, ◌||◌, ◌==◌,
  if◌then◌else◌, List, [], ◌∷◌,
}
pub mod Words
pub mod Flags
pub mod Pair
mod Tests

-- The operators of the bits of two words, on `w` bits.
abbrev pub is_odd : ℕ → Bool
is_odd n = not (n % 2 == 0)

unfoldable pub bits : (Bool → Bool → Bool) → ℕ → ℕ → ℕ → ℕ
bits op zero a b = 0
bits op (suc w) a b = (if op (is_odd a) (is_odd b) then 1 else 0) + 2 * bits op w (a / 2) (b / 2)

abbrev pub both : Bool → Bool → Bool
both a b = a && b

abbrev pub either : Bool → Bool → Bool
either a b = a || b

abbrev pub differ : Bool → Bool → Bool
differ a b = if a then not b else b

-- `_flags` and `_mask`, of `f` flags in words of `w` bits.
abbrev pub flag_bits : ℕ → ℕ
flag_bits f = 2 ^ f - 1

abbrev pub mask : ℕ → ℕ → ℕ
mask w f = 2 ^ w - 1 - flag_bits f

-- `_encode`, `_ptr` and `_bitmask`
unfoldable pub encode : ℕ → ℕ → ℕ → ℕ
unfolding bits
encode w p fl = bits either w p fl

unfoldable pub ptr : ℕ → ℕ → ℕ → ℕ
unfolding bits
ptr w f v = bits both w v (mask w f)

unfoldable pub bitmask : ℕ → ℕ → ℕ → ℕ
unfolding bits
bitmask w f v = bits both w v (flag_bits f)

-- The calls, with their arguments, and what they return: `_decode` of a word, flags, whether a
-- compare_exchange was successful, or what it has found.
pub data Call : Type 0 where
  load reset load_flags : Call
  store exchange : ℕ → ℕ → Call
  compare_exchange : Bool → ℕ → ℕ → ℕ → ℕ → Call
  fetch_or fetch_xor fetch_and : ℕ → Call

pub data Answer : Type 0 where
  nothing swapped : Answer
  pair : ℕ → ℕ → Answer
  flags : ℕ → Answer

unfoldable pub decode : ℕ → ℕ → ℕ → Answer
unfolding ptr bitmask
decode w f v = pair (ptr w f v) (bitmask w f v)

-- A call on the word `v`. An exchange that fails spuriously finds what it expects.
unfoldable pub perform : ℕ → ℕ → Call → ℕ → ℕ × Answer
unfolding decode encode bitmask bits
perform w f load v = (v, decode w f v)
perform w f (store p fl) v = (encode w p fl, nothing)
perform w f (exchange p fl) v = (encode w p fl, decode w f v)
perform w f (compare_exchange true p fl q gl) v = (v, decode w f v)
perform w f (compare_exchange false p fl q gl) v =
    if v == encode w p fl then (encode w q gl, swapped) else (v, decode w f v)
perform w f reset v = (0, nothing)
perform w f (fetch_or g) v = (bits either w v g, flags (bitmask w f v))
perform w f (fetch_xor g) v = (bits differ w v g, flags (bitmask w f v))
perform w f (fetch_and g) v = (bits both w v (bits either w (mask w f) g), flags (bitmask w f v))
perform w f load_flags v = (v, flags (bitmask w f v))

unfoldable pub perform_all : ℕ → ℕ → List Call → ℕ → ℕ × List Answer
unfolding perform
perform_all w f [] v = (v, [])
perform_all w f (c ∷ cs) v =
    let (u, a) = perform w f c v in let (t, as_) = perform_all w f cs u in (t, a ∷ as_)
