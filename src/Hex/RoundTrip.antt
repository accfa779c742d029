-- ===== src/Hex/RoundTrip.antt =====
-- The two `decode_hex` (src/lightning/ldk_service.rs, src/wallet.rs) on the texts of `hex_string`.
use dln_node_knots.Prelude.{
  ℕ, ◌+◌, ◌*◌, ◌/◌, ◌%◌, ◌^◌, ◌<◌, ◌≤◌, true, [], ◌∷◌, ◌≡◌, refl, arith, length, All, ◌==◌, ◌++◌,
  some, if◌then◌else◌,
}
use dln_node_knots.Prelude.Outcome.{ok, err}
use dln_node_knots.Text.{Bytes, is_continuation}
use dln_node_knots.Text.Number.{from_str_radix, hex_byte, to_digit, hex_digit, scan}
use dln_node_knots.Hex.{hex_string, is_boundary, decode_pairs, decode_hex, decode_hex_32}

abbrev pub IsByte : ℕ → Type 0
IsByte b = b < 256

pub to_digit-hex_digit : (d : ℕ) → d < 16 → to_digit 16 (hex_digit d) ≡ some d
unfolding to_digit hex_digit
to_digit-hex_digit d h = ground arith

hex_digit_plain : (d : ℕ) → d < 16 → (48 ≤ hex_digit d) × (hex_digit d < 128)
unfolding hex_digit
hex_digit_plain d h = ground arith

two_digits :
    (a b x y : ℕ)
    → to_digit 16 a ≡ some x
    → to_digit 16 b ≡ some y
    → x < 16
    → y < 16
    → scan 16 256 (a ∷ b ∷ []) 0 ≡ ok (16 * x + y)
unfolding scan
two_digits a b x y ha hb hx hy = ground arith

from_str_radix-hex_byte : (b : ℕ) → IsByte b → from_str_radix 16 (2 ^ 8) (hex_byte b) ≡ ok b
unfolding from_str_radix hex_byte
from_str_radix-hex_byte b h =
    let hi : b / 16 < 16 = omega arith in
    let lo : b % 16 < 16 = omega arith in
    ground (
      arith,
      hex_digit_plain (b / 16) hi,
      two_digits (hex_digit (b / 16)) (hex_digit (b % 16)) (b / 16) (b % 16)
          (to_digit-hex_digit _ hi) (to_digit-hex_digit _ lo) hi lo,
    )

is_boundary-hex_byte : (b : ℕ) (s : Bytes) → IsByte b → is_boundary (hex_byte b ++ s) ≡ true
unfolding is_boundary hex_byte is_continuation
is_boundary-hex_byte b s h = ground (arith, hex_digit_plain (b / 16) (omega arith))

is_boundary-hex_string : (bs : Bytes) → All IsByte bs → is_boundary (hex_string bs) ≡ true
unfolding hex_string
is_boundary-hex_string [] h = unfold is_boundary in refl
is_boundary-hex_string (b ∷ bs) h = is_boundary-hex_byte b (hex_string bs) h.0

decode_pairs-hex_byte :
    (b : ℕ) (s ds : Bytes)
    → IsByte b
    → is_boundary s ≡ true
    → decode_pairs s ≡ ok ds
    → decode_pairs (hex_byte b ++ s) ≡ ok (b ∷ ds)
unfolding decode_pairs hex_byte
decode_pairs-hex_byte b s ds h at_end e = rw (at_end, from_str_radix-hex_byte b h, e)

decode_pairs-hex_string : (bs : Bytes) → All IsByte bs → decode_pairs (hex_string bs) ≡ ok bs
unfolding hex_string
decode_pairs-hex_string [] h = unfold decode_pairs in refl
decode_pairs-hex_string (b ∷ bs) h =
    decode_pairs-hex_byte b (hex_string bs) bs h.0 (is_boundary-hex_string bs h.1)
      (decode_pairs-hex_string bs h.1)

length-hex_string : (bs : Bytes) → length (hex_string bs) ≡ 2 * length bs
unfolding hex_string hex_byte
length-hex_string [] = refl
length-hex_string (b ∷ bs) = omega (arith, length-hex_string bs)

-- For every list of bytes, `decode_hex` reads back the text that `hex_string` writes.
pub decode_hex-hex_string : (bs : Bytes) → All IsByte bs → decode_hex (hex_string bs) ≡ ok bs
unfolding decode_hex
decode_hex-hex_string bs h = ground (arith, length-hex_string bs, decode_pairs-hex_string bs h)

-- The wallet's `decode_hex` reads back the hexadecimal text of 32 bytes, and of no other number.
pub decode_hex_32-hex_string :
    (bs : Bytes)
    → All IsByte bs
    → decode_hex_32 (hex_string bs) ≡ (if length bs == 32 then ok bs else err tt)
unfolding decode_hex_32
decode_hex_32-hex_string bs h = ground (arith, length-hex_string bs, decode_pairs-hex_string bs h)
