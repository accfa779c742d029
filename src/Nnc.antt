-- ===== src/Nnc.antt =====
-- The error of a handler, as `nostr-ln` carries it, and the two functions `ldk_err` (src/wallet.rs,
-- src/control.rs).
use dln_node_knots.Prelude.{◌++◌}
use dln_node_knots.Prelude.Act.{Act}
use dln_node_knots.Text.{Text, codes}
use dln_node_knots.Ldk.{World, catch_as}
use dln_node_knots.Ldk.Errors.{LdkServiceError, show_error}

-- The codes that this repository gives.
pub data ErrorCode : Type 0 where
  bad_request not_found internal payment_failed channel_failed connection_failed
        unsupported_payment_instruction :
      ErrorCode

pub record NncError : Type 0 where
  pub code : ErrorCode
  pub message : Text

abbrev pub nnc_error : ErrorCode → Text → NncError
nnc_error code message = record { code = code; message = message }

unfoldable pub ldk_err : Text → ErrorCode → LdkServiceError → NncError
ldk_err what code e = nnc_error code (what ++ (codes ": " ++ show_error e))

module _ {S A : Type 0} where
  -- `self.ldk.method(…).map_err(|e| ldk_err(what, code, e))`
  abbrev pub or_ldk_err :
      Text → ErrorCode → Act (World S) LdkServiceError A → Act (World S) NncError A
  or_ldk_err what code m = catch_as (ldk_err what code) m
