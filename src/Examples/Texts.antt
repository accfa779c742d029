-- ===== src/Examples/Texts.antt =====
-- The theorems on texts, at concrete inputs.
use dln_node_knots.Prelude.{◌↔◌, ◌+◌, ◌*◌, ◌^◌, [], ◌∷◌, ◌++◌, ◌≡◌, arith, some}
use dln_node_knots.Prelude.Outcome.{ok}
use dln_node_knots.Text.Number.{show_decimal}
use dln_node_knots.Hex.{hex_string, decode_hex}
use dln_node_knots.Hex.RoundTrip.{decode_hex-hex_string}
use dln_node_knots.Hex.Grammar.{IsHexOf, decode_hex-IsHexOf}
use dln_node_knots.Scid.{format_scid, parse_scid}
use dln_node_knots.Scid.RoundTrip.{parse_scid-format_scid}
use dln_node_knots.Scid.Aliases.{parse_scid_block}

decode_hex-hex_string_example :
    decode_hex (hex_string (0 ∷ 171 ∷ 255 ∷ [])) ≡ ok (0 ∷ 171 ∷ 255 ∷ [])
decode_hex-hex_string_example =
    decode_hex-hex_string (0 ∷ 171 ∷ 255 ∷ []) (omega arith, (omega arith, (omega arith, tt)))

parse_scid-format_scid_example : parse_scid (format_scid 1099511693313) ≡ some 1099511693313
parse_scid-format_scid_example = parse_scid-format_scid 1099511693313 (omega arith)

parse_scid_block_example :
    parse_scid (show_decimal (5 + 1 * 2 ^ 24) ++ b'x' ∷ (show_decimal 12 ++ b'x' ∷ show_decimal 1))
    ≡ parse_scid (show_decimal 5 ++ b'x' ∷ (show_decimal 12 ++ b'x' ∷ show_decimal 1))
parse_scid_block_example = parse_scid_block 1 5 12 1 (omega arith) (omega arith) (omega arith)

decode_hex-IsHexOf_example :
    (decode_hex (b'+' ∷ b'f' ∷ b'A' ∷ b'b' ∷ []) ≡ ok (15 ∷ 171 ∷ []))
    ↔ IsHexOf (b'+' ∷ b'f' ∷ b'A' ∷ b'b' ∷ []) (15 ∷ 171 ∷ [])
decode_hex-IsHexOf_example = decode_hex-IsHexOf (b'+' ∷ b'f' ∷ b'A' ∷ b'b' ∷ []) (15 ∷ 171 ∷ [])
