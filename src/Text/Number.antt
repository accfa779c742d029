-- ===== src/Text/Number.antt =====
-- `str::parse`, `from_str_radix`, and the printing of numbers by `{}` and `{:02x}`.
use dln_node_knots.Prelude.{
  ℕ, zero, suc, ◌+◌, ◌-◌, ◌*◌, ◌/◌, ◌%◌, ◌<◌, ◌&&◌, ◌||◌, [], ◌∷◌, Option, none, some, leb, ltb,
  ◌==◌, if◌then◌else◌, arith,
}
use dln_node_knots.Prelude.Outcome.{Outcome, ok, err}
use dln_node_knots.Text.{Text, codes}
use mathlib.Core.Logic.{dite}
use mathlib.Core.WellFounded.{Acc, WellFounded}
use native.Mathlib.Decide.{dec_lt}

-- `std::num::IntErrorKind`, with the kinds that an unsigned number has.
pub data IntError : Type 0 where
  empty invalid_digit pos_overflow : IntError

unfoldable pub show_int_error : IntError → Text
show_int_error empty = codes "cannot parse integer from empty string"
show_int_error invalid_digit = codes "invalid digit found in string"
show_int_error pos_overflow = codes "number too large to fit in target type"

-- `char::to_digit`, for a radix up to 16.
unfoldable pub to_digit : ℕ → ℕ → Option ℕ
to_digit radix c =
    let d =
      if leb b'0' c && leb c b'9'
      then c - b'0'
      else if leb b'a' c && leb c b'f'
      then c - b'a' + 10
      else if leb b'A' c && leb c b'F'
      then c - b'A' + 10
      else radix in
    if ltb d radix then some d else none

-- The digits behind `n`, below `size` (2 ^ 8 for `u8`, 2 ^ 64 for `u64`).
unfoldable pub scan : ℕ → ℕ → Text → ℕ → Outcome IntError ℕ
scan radix size [] n = ok n
scan radix size (c ∷ s) n = elim (to_digit radix c) [
  | none ↦ err invalid_digit
  | some d ↦
      if ltb (n * radix + d) size then scan radix size s (n * radix + d) else err pos_overflow
]

-- One leading `+` is accepted; a sign alone is not.
unfoldable pub from_str_radix : ℕ → ℕ → Text → Outcome IntError ℕ
from_str_radix radix size [] = err empty
from_str_radix radix size (c ∷ []) =
    if c == b'+' || c == b'-' then err invalid_digit else scan radix size (c ∷ []) 0
from_str_radix radix size (c ∷ d ∷ s) =
    if c == b'+' then scan radix size (d ∷ s) 0 else scan radix size (c ∷ d ∷ s) 0

-- `{:x}` of one digit, and `{:02x}` of a byte.
unfoldable pub hex_digit : ℕ → ℕ
hex_digit d = if ltb d 10 then b'0' + d else b'a' + (d - 10)

unfoldable pub hex_byte : ℕ → Text
hex_byte b = hex_digit (b / 16) ∷ hex_digit (b % 16) ∷ []

Acc-below : (k n : ℕ) → n < k → Acc ◌<◌ n
Acc-below zero n h = elim h [ ]
Acc-below (suc k) n h = Acc.intro n (λ m hm. Acc-below k m (omega arith))

unfoldable pub lt_wf : WellFounded ◌<◌
unfolding Acc-below
lt_wf = record { apply = λ n. Acc-below (suc n) n (omega arith) }

pub tenth_lt : {n : ℕ} → 0 < n → n / 10 < n
tenth_lt h = omega arith

-- The decimal digits of `n` before `out`, last digit first.
unfoldable pub digits_onto : (n : ℕ) → Acc ◌<◌ n → Text → Text
digits_onto n (Acc.intro _ smaller) out =
    dite (dec_lt 0 n)
      (λ h. digits_onto (n / 10) (smaller (n / 10) (tenth_lt h)) ((b'0' + n % 10) ∷ out)) (λ _. out)

unfoldable pub digits_of : ℕ → Text → Text
unfolding digits_onto lt_wf dec_lt
digits_of n out = digits_onto n (lt_wf.apply n) out

-- `{}` of an unsigned number.
unfoldable pub show_decimal : ℕ → Text
show_decimal n = if n == 0 then b'0' ∷ [] else digits_of n []
