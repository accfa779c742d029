-- ===== src/Hex/Panics.antt =====
-- `decode_hex` does not panic on ASCII text, and the bytes of a success.
use dln_node_knots.Prelude.{
  ℕ, ◌+◌, ◌*◌, ◌%◌, ◌<◌, true, [], ◌∷◌, ◌≡◌, ◌≢◌, refl, inl, inr, arith, length, All, Option-cases,
  Bool-cases,
}
use dln_node_knots.Prelude.Outcome.{ok, panic, ◌>>=◌, passed_on}
use dln_node_knots.Text.{Bytes, Text, is_continuation}
use dln_node_knots.Text.Number.{from_str_radix, scan, to_digit}
use dln_node_knots.Hex.{is_boundary, decode_pairs, decode_hex}
use dln_node_knots.Hex.RoundTrip.{IsByte}

abbrev pub IsAscii : Text → Type 0
IsAscii = All (λ c. c < 128)

scan-ne-panic : (radix size : ℕ) (s : Text) (n : ℕ) → scan radix size s n ≢ panic
unfolding scan
scan-ne-panic radix size [] n = cc
scan-ne-panic radix size (c ∷ s) n = elim (Option-cases (to_digit radix c)) [
  | inl e ↦ ground arith
  | inr (d, e) ↦ ground (arith, scan-ne-panic radix size s (n * radix + d))
]

from_str_radix-ne-panic : (radix size : ℕ) (s : Text) → from_str_radix radix size s ≢ panic
unfolding from_str_radix
from_str_radix-ne-panic radix size [] = cc
from_str_radix-ne-panic radix size (c ∷ []) = ground (arith, scan-ne-panic radix size (c ∷ []) 0)
from_str_radix-ne-panic radix size (c ∷ d ∷ s) =
    ground (arith, scan-ne-panic radix size (d ∷ s) 0, scan-ne-panic radix size (c ∷ d ∷ s) 0)

pub scan-lt-size :
    (radix size : ℕ) (s : Text) (n r : ℕ) → n < size → scan radix size s n ≡ ok r → r < size
unfolding scan
scan-lt-size radix size [] n r h e = ground arith
scan-lt-size radix size (c ∷ s) n r h e = elim (Option-cases (to_digit radix c)) [
  | inl p ↦ ground arith
  | inr (d, p) ↦ ground (arith, scan-lt-size radix size s (n * radix + d) r)
]

pub from_str_radix-lt-size :
    (radix size : ℕ) (s : Text) (r : ℕ) → 0 < size → from_str_radix radix size s ≡ ok r → r < size
unfolding from_str_radix
from_str_radix-lt-size radix size [] r h e = cc
from_str_radix-lt-size radix size (c ∷ []) r h e =
    ground (arith, scan-lt-size radix size (c ∷ []) 0 r h)
from_str_radix-lt-size radix size (c ∷ d ∷ s) r h e =
    ground (arith, scan-lt-size radix size (d ∷ s) 0 r h, scan-lt-size radix size (c ∷ d ∷ s) 0 r h)

is_boundary-IsAscii : (s : Text) → IsAscii s → is_boundary s ≡ true
unfolding is_boundary is_continuation
is_boundary-IsAscii [] h = refl
is_boundary-IsAscii (c ∷ s) h = ground (arith, h.0)

decode_pairs-IsAscii : (s : Text) → length s % 2 ≡ 0 → IsAscii s → decode_pairs s ≢ panic
unfolding decode_pairs
decode_pairs-IsAscii [] even h = cc
decode_pairs-IsAscii (a ∷ []) even h = absurd (omega arith)
decode_pairs-IsAscii (a ∷ b ∷ s) even h = ground (
  arith,
  is_boundary-IsAscii s h.1.1,
  from_str_radix-ne-panic 16 256 (a ∷ b ∷ []),
  decode_pairs-IsAscii s (omega arith) h.1.1,
)

-- On ASCII text `decode_hex` returns bytes or an error: it does not panic.
decode_hex-IsAscii : (s : Text) → IsAscii s → decode_hex s ≢ panic
unfolding decode_hex
decode_hex-IsAscii s h = ground (arith, decode_pairs-IsAscii s)

decode_pairs_sound :
    (s : Text) (bs : Bytes) → decode_pairs s ≡ ok bs → (length s ≡ 2 * length bs) × All IsByte bs
unfolding decode_pairs
decode_pairs_sound [] bs e = ground arith
decode_pairs_sound (a ∷ []) bs e = cc
decode_pairs_sound (a ∷ b ∷ s) bs e = elim (Bool-cases (is_boundary s)) [
  | inl t ↦
      let e' : (from_str_radix 16 256 (a ∷ b ∷ []) >>= λ d. decode_pairs s >>= λ ds. ok (d ∷ ds))
          ≡ ok bs =
        rw t at e in
      let (d, p, q) =
        passed_on (λ d. decode_pairs s >>= λ ds. ok (d ∷ ds)) bs
          (from_str_radix 16 256 (a ∷ b ∷ [])) e' in
      let (ds, p', q') = passed_on (λ ds. ok (d ∷ ds)) bs (decode_pairs s) q in
      ground (
        arith,
        q',
        decode_pairs_sound s ds p',
        from_str_radix-lt-size 16 256 (a ∷ b ∷ []) d (omega arith) p,
      )
  | inr t ↦ ground (arith, e)
]

-- A success of `decode_hex` has one byte for each two bytes of text, each below 256.
decode_hex_sound :
    (s : Text) (bs : Bytes) → decode_hex s ≡ ok bs → (length s ≡ 2 * length bs) × All IsByte bs
unfolding decode_hex
decode_hex_sound s bs e = ground (arith, decode_pairs_sound s bs)
