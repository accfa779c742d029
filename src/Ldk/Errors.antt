-- ===== src/Ldk/Errors.antt =====
-- The errors of src/lightning/ldk_service.rs, and the text of each.
use dln_node_knots.Prelude.{ℕ, ◌++◌}
use dln_node_knots.Text.{Text, codes}
use dln_node_knots.Text.Number.{show_decimal}

pub data LdkServiceInitError : Type 0 where
  invalid_network invalid_listening_address invalid_config build_failed start_failed :
      Text → LdkServiceInitError

unfoldable pub show_init_error : LdkServiceInitError → Text
show_init_error (invalid_network network) = codes "unsupported network for LdkService: " ++ network
show_init_error (invalid_listening_address address) = codes "invalid ldk_listen_addr: " ++ address
show_init_error (invalid_config msg) = codes "invalid LdkService config: " ++ msg
show_init_error (build_failed msg) = codes "failed to build LdkService node: " ++ msg
show_init_error (start_failed msg) = codes "failed to start LdkService node: " ++ msg

pub data LdkServiceError : Type 0 where
  sync_failed address_generation_failed invalid_invoice invalid_invoice_request invalid_pubkey
        channel_failed peer_failed payment_failed payment_not_found invalid_address offer_failed
        stop_failed :
      Text → LdkServiceError
  balance_overflow invalid_amount : ℕ → LdkServiceError

unfoldable pub show_error : LdkServiceError → Text
show_error (sync_failed msg) = codes "ldk wallet sync failed: " ++ msg
show_error (address_generation_failed msg) = codes "ldk address generation failed: " ++ msg
show_error (balance_overflow sats) =
    codes "balance conversion overflow for sats=" ++ show_decimal sats
show_error (invalid_invoice msg) = codes "invalid invoice: " ++ msg
show_error (invalid_invoice_request msg) = codes "invalid invoice request: " ++ msg
show_error (invalid_pubkey msg) = codes "invalid pubkey: " ++ msg
show_error (invalid_amount amount) = codes "invalid amount: " ++ show_decimal amount
show_error (channel_failed msg) = codes "channel operation failed: " ++ msg
show_error (peer_failed msg) = codes "peer operation failed: " ++ msg
show_error (payment_failed msg) = codes "payment failed: " ++ msg
show_error (payment_not_found msg) = codes "payment not found: " ++ msg
show_error (invalid_address msg) = codes "invalid address: " ++ msg
show_error (offer_failed msg) = codes "offer operation failed: " ++ msg
show_error (stop_failed msg) = codes "ldk node stop failed: " ++ msg
