-- ===== src/Hex.antt =====
-- Hexadecimal text: `hex_payment_hash` (src/lib.rs), `hex_hash` (src/events.rs), `hex_string` and
-- `decode_hex` (src/lightning/ldk_service.rs), and `decode_hex` of src/wallet.rs.
pub mod RoundTrip
pub mod Panics
pub mod Grammar
use dln_node_knots.Prelude.{
  ℕ, ◌+◌, ◌%◌, ◌^◌, Bool, true, not, Option, none, some, [], ◌∷◌, ◌++◌, ◌==◌, if◌then◌else◌, length,
}
use dln_node_knots.Prelude.Outcome.{Outcome, ok, err, panic, map_err, ◌>>=◌}
use dln_node_knots.Text.{Bytes, Text, codes, is_continuation}
use dln_node_knots.Text.Number.{from_str_radix, hex_byte, show_int_error, IntError}

-- The loop `write!(&mut out, "{:02x}", b)` over the bytes.
unfoldable pub hex_string : Bytes → Text
hex_string [] = []
hex_string (b ∷ bs) = hex_byte b ++ hex_string bs

-- The same loop, as lib.rs and events.rs write it.
unfoldable pub hex_payment_hash : Bytes → Text
unfolding hex_string
hex_payment_hash bs = hex_string bs

unfoldable pub hex_hash : Bytes → Text
unfolding hex_string
hex_hash bs = hex_string bs

-- `&s[i..i + 2]` panics where `i + 2` lies within a character; `i` was the end of the slice before.
unfoldable pub is_boundary : Text → Bool
is_boundary [] = true
is_boundary (b ∷ s) = not (is_continuation b)

-- `u8::from_str_radix(&s[i..i + 2], 16)` for i = 0, 2, 4, …, up to the first error.
unfoldable pub decode_pairs : Text → Outcome IntError Bytes
decode_pairs [] = ok []
decode_pairs (a ∷ []) = panic
decode_pairs (a ∷ b ∷ s) =
    let rest = decode_pairs s in
    let pair : Outcome IntError Bytes = do
      d ← from_str_radix 16 (2 ^ 8) (a ∷ b ∷ [])
      ds ← rest
      ok (d ∷ ds)
    in if is_boundary s then pair else panic

-- `decode_hex` of ldk_service.rs.
unfoldable pub decode_hex : Text → Outcome Text Bytes
decode_hex s =
    if length s % 2 == 0
    then map_err show_int_error (decode_pairs s)
    else err (codes "odd-length hex string")

-- `decode_hex` of wallet.rs: 64 bytes of text, and no message.
abbrev without_message : Outcome IntError Bytes → Outcome (Unit {0}) Bytes
without_message r = map_err (λ _. tt) r

unfoldable pub decode_hex_32 : Text → Outcome (Unit {0}) Bytes
decode_hex_32 s = if length s == 64 then without_message (decode_pairs s) else err tt
