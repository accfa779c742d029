-- ===== src/Wallet/Core.antt =====
-- The published core of src/wallet.rs, payments by keysend among it.
pub mod Payments
use dln_node_knots.Prelude.{
  ℕ, ◌/◌, Bool, Option, none, some, List, [], ◌∷◌, or_else, ◌==◌, if◌then◌else◌,
}
use dln_node_knots.Prelude.Act.{Act, pure, fail, ◌>>=◌, ◌>>◌}
use dln_node_knots.Text.{Text, codes, trim, is_empty}
use dln_node_knots.Node.Types.{PublicKey}
use dln_node_knots.Ldk.{LdkService, World, call}
use dln_node_knots.Ldk.Config.{network_name}
use dln_node_knots.Ldk.Balance.{LdkBalance}
use dln_node_knots.Ldk.Balance
use dln_node_knots.Ldk.Send
use dln_node_knots.Ldk.Wait.{LdkPaymentResult}
use dln_node_knots.Nnc.{NncError, nnc_error, or_ldk_err, bad_request, internal, payment_failed}
use dln_node_knots.Wallet.{Wallet}

pub record Bip321Capability : Type 0 where
  pub method : Text
  pub address_types : Option (List Text)

pub record GetInfoResponse : Type 0 where
  pub alias : Option Text
  pub color : Option Text
  pub pubkey : Option Text
  pub network : Option Text
  pub block_height : Option ℕ
  pub block_hash : Option Text
  pub methods : List Text
  pub notifications : Option (List Text)
  pub bip321_methods : Option (List Bip321Capability)

pub record GetBalanceResponse : Type 0 where
  pub balance : ℕ
  pub lightning_balance : Option ℕ
  pub onchain_balance_sats : Option ℕ

pub record PayInvoiceRequest : Type 0 where
  pub invoice : Text
  pub amount : Option ℕ

-- of `pay_invoice` and of `pay_keysend`
pub record PaidResponse : Type 0 where
  pub preimage : Text
  pub fees_paid : Option ℕ

pub record PayKeysendRequest : Type 0 where
  pub pubkey : Text
  pub amount : ℕ

abbrev pub notification_types : List Text
notification_types =
    codes "payment_received" ∷ codes "payment_sent" ∷ codes "hold_invoice_accepted" ∷ []

abbrev pub bip321_capabilities : List Bip321Capability
bip321_capabilities =
    (record { method = codes "bolt11"; address_types = none })
    ∷ (record { method = codes "bolt12"; address_types = none })
    ∷ (record { method = codes "onchain"; address_types = some (codes "p2tr" ∷ []) })
    ∷ []

abbrev pub paid_response : LdkPaymentResult → PaidResponse
paid_response p = record { preimage = p.preimage; fees_paid = p.fees_paid_msat }

-- `r.amount == Some(0)`
abbrev pub is_zero_amount : Option ℕ → Bool
is_zero_amount none = Bool.false
is_zero_amount (some n) = n == 0

module _ {S : Type 0} (wallet : Wallet S) where
  unfoldable pub get_info : Act (World S) NncError GetInfoResponse
  get_info = do
    pubkey ← call wallet.ldk.node.our_node_id
    height ← call wallet.ldk.node.best_block_height
    pure (record {
      alias = or_else wallet.alias (some (codes "dln-node"));
      color = none;
      pubkey = some (wallet.ldk.lib.show_public_key pubkey);
      network = some (network_name wallet.ldk.network);
      block_height = some height;
      block_hash = none;
      methods = wallet.methods;
      notifications = some notification_types;
      bip321_methods = some bip321_capabilities;
    })

  unfoldable pub get_balance : Act (World S) NncError GetBalanceResponse
  get_balance = do
    synced ← or_ldk_err (codes "sync") internal (Send.sync_wallets wallet.ldk)
    b ← or_ldk_err (codes "balance") internal (Balance.get_balance wallet.ldk)
    pure (record {
      balance = b.total_msat;
      lightning_balance = some b.lightning_msat;
      onchain_balance_sats = some (b.onchain_msat / 1_000);
    })

  unfoldable pub pay_invoice : PayInvoiceRequest → Act (World S) NncError PaidResponse
  pay_invoice r =
      if is_zero_amount r.amount
      then fail (nnc_error bad_request (codes "amount must be greater than 0"))
      else if is_empty (trim r.invoice)
      then fail (nnc_error bad_request (codes "invoice is required"))
      else do
        p ←
            or_ldk_err (codes "pay_invoice") payment_failed
              (Send.pay_invoice wallet.ldk (trim r.invoice) r.amount)
        pure (paid_response p)

  unfoldable pub pay_keysend : PayKeysendRequest → Act (World S) NncError PaidResponse
  pay_keysend r =
      if r.amount == 0
      then fail (nnc_error bad_request (codes "amount must be greater than 0"))
      else do
        p ←
            or_ldk_err (codes "pay_keysend") payment_failed
              (Send.pay_keysend wallet.ldk r.pubkey r.amount)
        pure (paid_response p)
