-- ===== src/Scid/Aliases.antt =====
-- What `parse_scid` accepts beyond the texts that `format_scid` writes.
use Prim.Native.Nat.{bit_or}
use dln_node_knots.Prelude.{
  ℕ, ◌+◌, ◌*◌, ◌%◌, ◌^◌, ◌<◌, ◌∷◌, ◌++◌, ◌≡◌, sym, ap, ◌∙◌, arith, some, u64_size,
}
use dln_node_knots.Text.{Text}
use dln_node_knots.Text.Number.{show_decimal}
use dln_node_knots.Scid.{join_fields, parse_scid}
use dln_node_knots.Scid.RoundTrip.{parse_scid_fields}

abbrev scid_text : ℕ → ℕ → ℕ → Text
scid_text block tx vout = show_decimal block ++ b'x' ∷ (show_decimal tx ++ b'x' ∷ show_decimal vout)

join_fields_block :
    (k block tx vout : ℕ) → join_fields (block + k * 2 ^ 24) tx vout ≡ join_fields block tx vout
unfolding join_fields
join_fields_block k block tx vout =
    ap (λ (t : ℕ). bit_or (bit_or t (tx * 2 ^ 16 % u64_size)) vout) (omega arith)

-- `parse_scid` does not reject a block that exceeds 24 bits: it drops the high bits, so the text
-- of block + k * 2 ^ 24 names the channel of block, for every k for which the number is a u64.
pub parse_scid_block :
    (k block tx vout : ℕ)
    → block + k * 2 ^ 24 < u64_size
    → tx < u64_size
    → vout < u64_size
    → parse_scid (scid_text (block + k * 2 ^ 24) tx vout) ≡ parse_scid (scid_text block tx vout)
parse_scid_block k block tx vout hb ht hv =
    parse_scid_fields (block + k * 2 ^ 24) tx vout hb ht hv
    ∙ ap some (join_fields_block k block tx vout)
    ∙ sym (parse_scid_fields block tx vout (omega arith) ht hv)
