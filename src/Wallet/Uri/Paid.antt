-- ===== src/Wallet/Uri/Paid.antt =====
-- The response of `paid` (src/wallet.rs).
use dln_node_knots.Prelude.{ℕ, none, some, ◌≡◌, refl, arith, All, length}
use dln_node_knots.Prelude.Outcome.{ok}
use dln_node_knots.Text.{Bytes, Text, codes}
use dln_node_knots.Hex.{hex_string}
use dln_node_knots.Hex.RoundTrip.{decode_hex_32-hex_string, IsByte}
use dln_node_knots.Ldk.{World}
use dln_node_knots.Wallet.{Wallet}
use dln_node_knots.Wallet.Uri.{paid, hash_of, PayResponse}

module _ {S : Type 0} (wallet : Wallet S) where
  -- The response to a payment whose preimage is the hexadecimal form of 32 bytes carries the hash
  -- of these bytes as its id and as its payment hash, the preimage only as the preimage, the
  -- instruction, the amount and the fees that were given, and the two times that the clock shows;
  -- it is settled, and has no proof, no transaction id and no reason for a failure.
  pub paid-hash :
      (instruction : Text) (amount : ℕ) (bs : Bytes) (fees : ℕ) (w : World S)
      → length bs ≡ 32
      → All IsByte bs
      → (res : PayResponse) × ((paid wallet instruction amount (some (hex_string bs)) none fees w).0
          ≡ ok res)
        × (res.transaction_id ≡ wallet.ldk.lib.sha256_text bs)
        × (res.payment_hash ≡ some (wallet.ldk.lib.sha256_text bs))
        × (res.preimage ≡ some (hex_string bs))
        × (res.state ≡ codes "settled")
        × (res.instruction_type ≡ instruction)
        × (res.amount ≡ amount)
        × (res.fees_paid ≡ fees)
        × (res.payer_proof ≡ none)
        × (res.txid ≡ none)
        × (res.failure_reason ≡ none)
        × (res.created_at ≡ (wallet.ldk.node.system_time w.node).0)
        × (res.settled_at
            ≡ some (wallet.ldk.node.system_time (wallet.ldk.node.system_time w.node).1).0)
  unfolding paid
  paid-hash instruction amount bs fees w h hb =
      let hashed : hash_of wallet (some (hex_string bs))
          ≡ ok (some (wallet.ldk.lib.sha256_text bs)) =
        unfold hash_of in ground (arith, decode_hex_32-hex_string bs hb) in
      rw hashed (_, refl, refl, refl, refl, refl, refl, refl, refl, refl, refl, refl, refl, refl)
