-- ===== src/Scid.antt =====
-- Short channel ids: `format_scid` and `parse_scid` of src/lightning/ldk_service.rs.
-- A u64 of three fields: the block (24 bits), the transaction (24) and the output (16).
pub mod RoundTrip
pub mod Aliases
use dln_node_knots.Prelude.{
  ℕ, ◌+◌, ◌*◌, ◌/◌, ◌%◌, ◌^◌, Option, none, some, List, [], ◌∷◌, ◌++◌, ◌==◌, if◌then◌else◌,
  u64_size,
}
use dln_node_knots.Prelude.Outcome.{to_option}
use dln_node_knots.Text.{Text, codes}
use dln_node_knots.Text.Number.{from_str_radix, show_decimal}
use Prim.Native.Nat.{bit_or}

unfoldable pub format_scid : ℕ → Text
format_scid scid =
    let block = scid / 2 ^ 40 in
    let tx = scid / 2 ^ 16 % 2 ^ 24 in
    let vout = scid % 2 ^ 16 in
    show_decimal block ++ b'x' ∷ (show_decimal tx ++ b'x' ∷ show_decimal vout)

-- `s.split('x')`: the part in progress, then those that follow.
unfoldable pub split_x : Text → Text × List Text
split_x [] = ([], [])
split_x (c ∷ s) =
    let (part, parts) = split_x s in if c == b'x' then ([], part ∷ parts) else (c ∷ part, parts)

-- `p.parse::<u64>().ok()`.
unfoldable pub parse_u64 : Text → Option ℕ
parse_u64 p = to_option (from_str_radix 10 u64_size p)

-- `(block << 40) | (tx << 16) | vout`; a shift drops what leaves the 64 bits.
unfoldable pub join_fields : ℕ → ℕ → ℕ → ℕ
join_fields block tx vout =
    bit_or (bit_or (block * 2 ^ 40 % u64_size) (tx * 2 ^ 16 % u64_size)) vout

abbrev three_fields : Option ℕ → Option ℕ → Option ℕ → Option ℕ
three_fields (some block) (some tx) (some vout) = some (join_fields block tx vout)
three_fields _ _ _ = none

unfoldable pub parse_parts : Text × List Text → Option ℕ
parse_parts (a, b ∷ c ∷ []) = three_fields (parse_u64 a) (parse_u64 b) (parse_u64 c)
parse_parts _ = none

unfoldable pub parse_scid : Text → Option ℕ
unfolding parse_parts
parse_scid s = parse_parts (split_x s)
