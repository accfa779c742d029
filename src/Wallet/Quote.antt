-- ===== src/Wallet/Quote.antt =====
-- `quote_payment` of src/wallet.rs: the fee and the time lock of paying an invoice, as the route
-- search finds them.
pub mod Found
use dln_node_knots.Prelude.{ℕ, Bool, true, false, List, [], ◌∷◌, ◌++◌, Option, or_else}
use dln_node_knots.Prelude.Outcome.{map_err, ok_or}
use dln_node_knots.Prelude.Act.{Act, pure, lift, ◌>>=◌}
use dln_node_knots.Text.{Text, codes}
use dln_node_knots.Ldk.{World}
use dln_node_knots.Ldk.Routes.{FoundRoute, find_routes}
use dln_node_knots.Nnc.{NncError, nnc_error, bad_request}
use dln_node_knots.Wallet.{Wallet}

pub record QuotePaymentRequest : Type 0 where
  pub invoice : Text
  pub amount : Option ℕ

pub record QuotePaymentResponse : Type 0 where
  pub amount : ℕ
  pub fee_msat : ℕ
  pub cltv_expiry_delta : ℕ
  pub route_found : Bool

-- What the first route gives, if there is one.
abbrev pub quote_of : ℕ → List FoundRoute → QuotePaymentResponse
quote_of amount [] = record {
  amount = amount;
  fee_msat = 0;
  cltv_expiry_delta = 0;
  route_found = false;
}
quote_of amount (route ∷ routes) = record {
  amount = amount;
  fee_msat = route.total_fee;
  cltv_expiry_delta = route.total_time_lock;
  route_found = true;
}

module _ {S : Type 0} (wallet : Wallet S) where
  unfoldable pub quote_payment : QuotePaymentRequest → Act (World S) NncError QuotePaymentResponse
  quote_payment r = do
    invoice ← lift (
        map_err (λ e. nnc_error bad_request (codes "invoice: " ++ e))
          (wallet.ldk.lib.parse_invoice r.invoice))
    amount ← lift (
        ok_or (or_else r.amount invoice.amount_milli_satoshis)
          (nnc_error bad_request (codes "the invoice has no amount")))
    routes ← find_routes wallet.ldk (wallet.ldk.lib.show_public_key invoice.payee) amount 1
    pure (quote_of amount routes)
