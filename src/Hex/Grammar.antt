-- ===== src/Hex/Grammar.antt =====
-- The texts that `decode_hex` (src/lightning/ldk_service.rs) reads, without the code.
use dln_node_knots.Prelude.{
  ℕ, ◌+◌, ◌*◌, ◌≤◌, true, some, [], ◌∷◌, ◌≡◌, refl, ◌⊎◌, inl, inr, ◌↔◌, arith, length, Bool-cases,
  Option-cases, subst, ◌==◌,
}
use dln_node_knots.Prelude.Outcome.{ok, ◌>>=◌, passed_on, ok_unique}
use dln_node_knots.Text.{Bytes, Text, is_continuation}
use dln_node_knots.Text.Number.{from_str_radix, scan, to_digit}
use dln_node_knots.Hex.{is_boundary, decode_pairs, decode_hex}

-- A hexadecimal digit in lower or upper case, and its value.
abbrev pub IsHexDigit : ℕ → ℕ → Type 0
IsHexDigit c d =
    ((48 ≤ c) × (c ≤ 57) × (c ≡ 48 + d))
    ⊎ ((97 ≤ c) × (c ≤ 102) × (c ≡ 87 + d))
    ⊎ ((65 ≤ c) × (c ≤ 70) × (c ≡ 55 + d))

-- Two digits, or a plus sign and one digit.
abbrev pub IsPair : ℕ → ℕ → ℕ → Type 0
IsPair a b v =
    ((x : ℕ) × (y : ℕ) × IsHexDigit a x × IsHexDigit b y × (v ≡ 16 * x + y))
    ⊎ ((a ≡ 43) × IsHexDigit b v)

abbrev pub IsHexOf : Text → Bytes → Type 0
IsHexOf [] [] = Unit {0}
IsHexOf [] (v ∷ bs) = ⊥
IsHexOf (a ∷ []) bs = ⊥
IsHexOf (a ∷ b ∷ s) [] = ⊥
IsHexOf (a ∷ b ∷ s) (v ∷ bs) = IsPair a b v × IsHexOf s bs

to_digit-IsHexDigit : (c d : ℕ) → to_digit 16 c ≡ some d → IsHexDigit c d
unfolding to_digit
to_digit-IsHexDigit c d h = ground (arith, h)

IsHexDigit-to_digit : (c d : ℕ) → IsHexDigit c d → to_digit 16 c ≡ some d
unfolding to_digit
IsHexDigit-to_digit c d (inl h) = ground (arith, h)
IsHexDigit-to_digit c d (inr (inl h)) = ground (arith, h)
IsHexDigit-to_digit c d (inr (inr h)) = ground (arith, h)

IsHexDigit-bounds : (c d : ℕ) → IsHexDigit c d → (44 ≤ c) × (c ≤ 102) × (d ≤ 15)
IsHexDigit-bounds c d (inl h) = omega arith
IsHexDigit-bounds c d (inr (inl h)) = omega arith
IsHexDigit-bounds c d (inr (inr h)) = omega arith

from_str_radix-IsPair : (a b v : ℕ) → from_str_radix 16 256 (a ∷ b ∷ []) ≡ ok v → IsPair a b v
unfolding from_str_radix scan
from_str_radix-IsPair a b v h = elim (Option-cases (to_digit 16 b)) [
  | inl no_digit ↦ elim (Option-cases (to_digit 16 a)) [
    | inl e ↦ absurd (ground (arith, no_digit, e, h))
    | inr (x, e) ↦ absurd (ground (arith, no_digit, e, h))
  ]
  | inr (y, is) ↦ elim (Bool-cases (a == 43)) [
    | inl plus ↦
        let digit = to_digit-IsHexDigit b y is in
        let same : y ≡ v = ground (arith, plus, is, h) in
        inr (ground (arith, plus), subst (IsHexDigit b) same digit)
    | inr digit ↦ elim (Option-cases (to_digit 16 a)) [
      | inl e ↦ absurd (ground (arith, digit, is, e, h))
      | inr (x, e) ↦ inl (
        x,
        y,
        to_digit-IsHexDigit a x e,
        to_digit-IsHexDigit b y is,
        ground (arith, digit, is, e, h),
      )
    ]
  ]
]

IsPair-from_str_radix : (a b v : ℕ) → IsPair a b v → from_str_radix 16 256 (a ∷ b ∷ []) ≡ ok v
unfolding from_str_radix scan
IsPair-from_str_radix a b v (inl (x, y, ha, hb, e)) = ground (
  arith,
  IsHexDigit-to_digit a x ha,
  IsHexDigit-to_digit b y hb,
  IsHexDigit-bounds a x ha,
  IsHexDigit-bounds b y hb,
  e,
)
IsPair-from_str_radix a b v (inr (plus, hb)) =
    ground (arith, plus, IsHexDigit-to_digit b v hb, IsHexDigit-bounds b v hb)

IsHexOf-even : (s : Text) (bs : Bytes) → IsHexOf s bs → length s ≡ 2 * length bs
IsHexOf-even [] [] h = refl
IsHexOf-even (a ∷ b ∷ s) (v ∷ bs) h = ground (arith, IsHexOf-even s bs h.1)
IsHexOf-even [] (v ∷ bs) h = absurd h
IsHexOf-even (a ∷ []) bs h = absurd h
IsHexOf-even (a ∷ b ∷ s) [] h = absurd h

IsHexOf-is_boundary : (s : Text) (bs : Bytes) → IsHexOf s bs → is_boundary s ≡ true
unfolding is_boundary is_continuation
IsHexOf-is_boundary [] bs h = refl
IsHexOf-is_boundary (a ∷ []) bs h = absurd h
IsHexOf-is_boundary (a ∷ b ∷ s) [] h = absurd h
IsHexOf-is_boundary (a ∷ b ∷ s) (v ∷ bs) (inl (x, y, ha, hb, e), h) =
    ground (arith, IsHexDigit-bounds a x ha)
IsHexOf-is_boundary (a ∷ b ∷ s) (v ∷ bs) (inr (plus, hb), h) = ground (arith, plus)

IsHexOf-decode_pairs : (s : Text) (bs : Bytes) → IsHexOf s bs → decode_pairs s ≡ ok bs
unfolding decode_pairs
IsHexOf-decode_pairs [] [] h = refl
IsHexOf-decode_pairs [] (v ∷ bs) h = absurd h
IsHexOf-decode_pairs (a ∷ []) bs h = absurd h
IsHexOf-decode_pairs (a ∷ b ∷ s) [] h = absurd h
IsHexOf-decode_pairs (a ∷ b ∷ s) (v ∷ bs) (pair, h) = ground (
  arith,
  IsHexOf-is_boundary s bs h,
  IsPair-from_str_radix a b v pair,
  IsHexOf-decode_pairs s bs h,
)

decode_pairs-IsHexOf : (s : Text) (bs : Bytes) → decode_pairs s ≡ ok bs → IsHexOf s bs
unfolding decode_pairs
decode_pairs-IsHexOf [] [] e = tt
decode_pairs-IsHexOf [] (v ∷ bs) e = cc
decode_pairs-IsHexOf (a ∷ []) bs e = cc
decode_pairs-IsHexOf (a ∷ b ∷ s) bs e = elim (Bool-cases (is_boundary s)) [
  | inl t ↦
      let e' : (from_str_radix 16 256 (a ∷ b ∷ []) >>= λ d. decode_pairs s >>= λ ds. ok (d ∷ ds))
          ≡ ok bs =
        rw t at e in
      let (d, p, q) =
        passed_on (λ d. decode_pairs s >>= λ ds. ok (d ∷ ds)) bs
          (from_str_radix 16 256 (a ∷ b ∷ [])) e' in
      let (ds, p', q') = passed_on (λ ds. ok (d ∷ ds)) bs (decode_pairs s) q in
      subst (IsHexOf (a ∷ b ∷ s)) (ok_unique {r = ok (d ∷ ds)} refl q')
        (from_str_radix-IsPair a b d p, decode_pairs-IsHexOf s ds p')
  | inr t ↦ absurd (ground (arith, e, t))
]

-- `decode_hex` gives these bytes exactly for the texts that write each as a pair: two digits in
-- lower or upper case, or a plus sign and one digit.
pub decode_hex-IsHexOf : (s : Text) (bs : Bytes) → (decode_hex s ≡ ok bs) ↔ IsHexOf s bs
unfolding decode_hex
decode_hex-IsHexOf s bs = (
  λ e. decode_pairs-IsHexOf s bs (ground (arith, e)),
  λ h. ground (arith, IsHexOf-decode_pairs s bs h, IsHexOf-even s bs h),
)
