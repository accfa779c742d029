-- ===== src/Ldk/Invoices/Settle.antt =====
-- What the invoice methods have done when they succeed.
use dln_node_knots.Prelude.{ℕ, some, ◌≡◌, arith, length, Option-cases, inl, inr}
use dln_node_knots.Prelude.Outcome.{Outcome-cases, ok}
use dln_node_knots.Text.{Bytes, Text, codes}
use dln_node_knots.Node.{Library}
use dln_node_knots.Node.Types.{PaymentDetails}
use dln_node_knots.Ldk.{LdkService, World}
use dln_node_knots.Ldk.Invoices.{settle_hold_invoice, parse_preimage, hex_to_32}

pub hex_to_32-length :
    (lib : Library) (s what : Text) (bs : Bytes) → hex_to_32 lib s what ≡ ok bs → length bs ≡ 32
unfolding hex_to_32
hex_to_32-length lib s what bs h = ground arith

module _ {S : Type 0} (ldk : LdkService S) where
  -- The claim that a settled invoice stands for: of the held payment whose hash is that of the
  -- preimage, with the amount that the node has for it.
  pub record Claimed (preimage_hex : Text) (w w' : World S) : Type 0 where
    pub preimage : Bytes
    pub parsed : parse_preimage ldk.lib preimage_hex ≡ ok preimage
    pub full : length preimage ≡ 32
    pub details : PaymentDetails
    pub amount_msat : ℕ
    pub held : (ldk.node.payment (ldk.lib.sha256 preimage) w.node).0 ≡ some details
    pub amount : details.amount_msat ≡ some amount_msat
    pub claimed :
        ldk.node.claim_for_hash
          (ldk.lib.sha256 preimage)
          amount_msat
          preimage
          (ldk.node.payment (ldk.lib.sha256 preimage) w.node).1
        ≡ (ok tt, w'.node)
    pub offers_kept : w'.offers ≡ w.offers
    pub addresses_kept : w'.addresses ≡ w.addresses
    pub forwards_kept : w'.forwards ≡ w.forwards

  -- When settling succeeds, the text is the hexadecimal form of 32 bytes; the node had a payment
  -- under the SHA-256 hash of these bytes, with an amount; the node has accepted the claim of that
  -- hash for that amount with these bytes; and the tables are as they were.
  pub settle_hold_invoice-Claimed :
      (preimage_hex : Text) (w w' : World S)
      → settle_hold_invoice ldk preimage_hex w ≡ (ok tt, w')
      → Claimed preimage_hex w w'
  unfolding settle_hold_invoice parse_preimage
  settle_hold_invoice-Claimed preimage_hex w w' h =
      elim (Outcome-cases (parse_preimage ldk.lib preimage_hex)) [
        | inl bad ↦ absurd (ground arith)
        | inr (preimage, parsed) ↦
            let (found, s) = ldk.node.payment (ldk.lib.sha256 preimage) w.node in
            elim (Option-cases found) [
              | inl none_held ↦ absurd (ground arith)
              | inr (details, held) ↦ elim (Option-cases details.amount_msat) [
                | inl no_amount ↦ absurd (ground arith)
                | inr (amount_msat, amount) ↦
                    let (r, s') =
                      ldk.node.claim_for_hash (ldk.lib.sha256 preimage) amount_msat preimage s in
                    elim (Outcome-cases r) [
                      | inl refused ↦ absurd (ground arith)
                      | inr (u, claimed) ↦ record {
                        preimage = preimage;
                        parsed = parsed;
                        full =
                            hex_to_32-length ldk.lib preimage_hex (codes "preimage") preimage
                              parsed;
                        details = details;
                        amount_msat = amount_msat;
                        held = held;
                        amount = amount;
                        claimed = ground arith;
                        offers_kept = ground arith;
                        addresses_kept = ground arith;
                        forwards_kept = ground arith;
                      }
                    ]
              ]
            ]
      ]
