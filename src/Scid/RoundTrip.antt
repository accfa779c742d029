-- ===== src/Scid/RoundTrip.antt =====
-- `parse_scid` on the texts of `format_scid` (src/lightning/ldk_service.rs).
use mathlib.Core.Logic.{ite, dite, if_pos, if_neg}
use mathlib.Core.WellFounded
use mathlib.Core.WellFounded.{Acc, Acc-prop}
use native.Mathlib.Decide.{dec_lt}
use dln_node_knots.Prelude.{
  ℕ, ◌+◌, ◌*◌, ◌/◌, ◌%◌, ◌^◌, ◌≤◌, ◌<◌, [], ◌∷◌, ◌++◌, ◌≡◌, refl, ◌∙◌, ap, arith, All, some, false,
  true, u64_size, ◌==◌,
}
use dln_node_knots.Prelude.Bits.{bit_or-add}
use dln_node_knots.Prelude.Outcome.{ok}
use dln_node_knots.Text.{Text}
use dln_node_knots.Text.Number.{
  to_digit, scan, from_str_radix, digits_onto, digits_of, show_decimal, lt_wf, tenth_lt,
}
use dln_node_knots.Scid.{format_scid, split_x, parse_u64, join_fields, parse_scid}

abbrev IsDigit : ℕ → Type 0
IsDigit c = (b'0' ≤ c) × (c ≤ b'9')

digits_onto_step :
    (n : ℕ) (w : Acc ◌<◌ n) (w' : Acc ◌<◌ (n / 10)) (out : Text)
    → digits_onto n w out ≡ ite (dec_lt 0 n) (digits_onto (n / 10) w' ((b'0' + n % 10) ∷ out)) out
unfolding digits_onto
digits_onto_step n (Acc.intro _ smaller) w' out = λ i.
    dite (dec_lt 0 n)
      (λ h.
        digits_onto (n / 10) (Acc-prop (smaller (n / 10) (tenth_lt h)) w' i)
          ((b'0' + n % 10) ∷ out))
      (λ _. out)

digits_of_step :
    (n : ℕ) (out : Text)
    → digits_of n out ≡ ite (dec_lt 0 n) (digits_of (n / 10) ((b'0' + n % 10) ∷ out)) out
unfolding digits_of
digits_of_step n out = digits_onto_step n (lt_wf.apply n) (lt_wf.apply (n / 10)) out

to_digit_last : (n : ℕ) → to_digit 10 (b'0' + n % 10) ≡ some (n % 10)
unfolding to_digit
to_digit_last n = ground arith

scan_step :
    (c d n : ℕ) (s : Text)
    → to_digit 10 c ≡ some d
    → n * 10 + d < u64_size
    → scan 10 u64_size (c ∷ s) n ≡ scan 10 u64_size s (n * 10 + d)
unfolding scan
scan_step c d n s e h = rw (e, scan) (ground arith)

-- Reading the last digit after those before it gives the number.
scan_last :
    (n : ℕ) (out : Text)
    → n < u64_size
    → scan 10 u64_size ((b'0' + n % 10) ∷ out) (n / 10) ≡ scan 10 u64_size out n
scan_last n out h =
    scan_step (b'0' + n % 10) (n % 10) (n / 10) out (to_digit_last n) (omega arith)
    ∙ ap (scan 10 u64_size out) (omega arith)

scan-digits_of :
    (n : ℕ) (out : Text)
    → n < u64_size
    → scan 10 u64_size (digits_of n out) 0 ≡ scan 10 u64_size out n
scan-digits_of n =
    WellFounded.induction lt_wf
      {C = λ m.
        (out : Text) → m < u64_size → scan 10 u64_size (digits_of m out) 0 ≡ scan 10 u64_size out m}
      n λ m ih out fits. grind (arith, digits_of_step m out, scan_last m out fits, ih (m / 10))

-- A text of digits, with at least one.
abbrev IsDigits : Text → Type 0
IsDigits [] = ⊥
IsDigits (c ∷ s) = IsDigit c × All IsDigit s

IsDigits-All : (s : Text) → IsDigits s → All IsDigit s
IsDigits-All [] h = tt
IsDigits-All (c ∷ s) h = h

digits_of-IsDigits : (n : ℕ) (out : Text) → IsDigits out → IsDigits (digits_of n out)
digits_of-IsDigits n =
    WellFounded.induction lt_wf {C = λ m. (out : Text) → IsDigits out → IsDigits (digits_of m out)}
      n
      λ m ih out h. rw digits_of_step (elim (dec_lt 0 m) [
        | yes p ↦
            rw (if_pos _ p)
              (ih (m / 10) (tenth_lt p) ((b'0' + m % 10) ∷ out) (omega arith, IsDigits-All out h))
        | no p ↦ rw (if_neg _ p) h
      ])

show_decimal-IsDigits : (n : ℕ) → IsDigits (show_decimal n)
unfolding show_decimal
show_decimal-IsDigits n = elim (dec_lt 0 n) [
  | yes p ↦ rw (nonzero n p) (
      rw digits_of_step
        (rw (if_pos _ p) (digits_of-IsDigits (n / 10) ((b'0' + n % 10) ∷ []) (omega arith))))
  | no p ↦ rw (zero_is n p) (omega arith)
]
  where
    nonzero : (m : ℕ) → 0 < m → (m == 0) ≡ false
    nonzero m h = ground arith

    zero_is : (m : ℕ) → ¬ (0 < m) → (m == 0) ≡ true
    zero_is m h = ground arith

from_str_radix-IsDigits :
    (s : Text) → IsDigits s → from_str_radix 10 u64_size s ≡ scan 10 u64_size s 0
unfolding from_str_radix
from_str_radix-IsDigits [] h = absurd h
from_str_radix-IsDigits (c ∷ []) h = ground arith
from_str_radix-IsDigits (c ∷ d ∷ s) h = ground arith

scan-nil : (n : ℕ) → scan 10 u64_size [] n ≡ ok n
unfolding scan
scan-nil n = refl

scan_zero : scan 10 u64_size (b'0' ∷ []) 0 ≡ ok 0
unfolding scan to_digit
scan_zero = refl

scan-show_decimal : (n : ℕ) → n < u64_size → scan 10 u64_size (show_decimal n) 0 ≡ ok n
unfolding show_decimal
scan-show_decimal n h = ground (arith, scan-digits_of n [] h, scan-nil n, scan_zero)

-- Every u64 is read back from its decimal print.
pub parse_u64-show_decimal : (n : ℕ) → n < u64_size → parse_u64 (show_decimal n) ≡ some n
unfolding parse_u64
parse_u64-show_decimal n h =
    rw (from_str_radix-IsDigits _ (show_decimal-IsDigits n), scan-show_decimal n h)

split_x-digits : (p : Text) → All IsDigit p → split_x p ≡ (p, [])
unfolding split_x
split_x-digits [] h = refl
split_x-digits (c ∷ p) h = ground (arith, split_x-digits p h.1)

split_x-append :
    (p s : Text) → All IsDigit p → split_x (p ++ b'x' ∷ s) ≡ (p, (split_x s).0 ∷ (split_x s).1)
unfolding split_x
split_x-append [] s h = refl
split_x-append (c ∷ p) s h = ground (arith, split_x-append p s h.1)

join_fields_lem :
    (block tx vout : ℕ)
    → block < 2 ^ 24
    → tx < 2 ^ 24
    → vout < 2 ^ 16
    → join_fields block tx vout ≡ block * 2 ^ 40 + tx * 2 ^ 16 + vout
unfolding join_fields
join_fields_lem block tx vout hb ht hv =
    let high : block * 2 ^ 40 % u64_size ≡ block * 2 ^ 40 = omega arith in
    let mid : tx * 2 ^ 16 % u64_size ≡ tx * 2 ^ 16 = omega arith in
    let sum : block * 2 ^ 40 + tx * 2 ^ 16 ≡ (block * 2 ^ 24 + tx) * 2 ^ 16 = omega arith in
    rw (high, mid, bit_or-add 40 block (tx * 2 ^ 16) (omega arith), sum)
      (bit_or-add 16 (block * 2 ^ 24 + tx) vout hv)

-- The text of three numbers is read as the three fields joined, for any three u64.
pub parse_scid_fields :
    (block tx vout : ℕ)
    → block < u64_size
    → tx < u64_size
    → vout < u64_size
    → parse_scid (show_decimal block ++ b'x' ∷ (show_decimal tx ++ b'x' ∷ show_decimal vout))
      ≡ some (join_fields block tx vout)
unfolding parse_scid
parse_scid_fields block tx vout hb ht hv = rw (
  split_x-append (show_decimal block) _ (plain block),
  split_x-append (show_decimal tx) _ (plain tx),
  split_x-digits (show_decimal vout) (plain vout),
  parse_u64-show_decimal block hb,
  parse_u64-show_decimal tx ht,
  parse_u64-show_decimal vout hv,
)
  where
    plain : (n : ℕ) → All IsDigit (show_decimal n)
    plain n = IsDigits-All (show_decimal n) (show_decimal-IsDigits n)

-- Every short channel id is read back from the text that `format_scid` writes for it.
pub parse_scid-format_scid :
    (scid : ℕ) → scid < u64_size → parse_scid (format_scid scid) ≡ some scid
unfolding format_scid
parse_scid-format_scid scid h =
    parse_scid_fields (scid / 2 ^ 40) (scid / 2 ^ 16 % 2 ^ 24) (scid % 2 ^ 16) (omega arith)
      (omega arith) (omega arith)
    ∙ ap some (
        join_fields_lem (scid / 2 ^ 40) (scid / 2 ^ 16 % 2 ^ 24) (scid % 2 ^ 16) (omega arith)
          (omega arith) (omega arith)
        ∙ omega arith)
