-- ===== src/Wallet/Addresses.antt =====
-- On-chain methods of src/wallet.rs, and the addresses of this node.
pub mod Watched
use dln_node_knots.Prelude.{
  ℕ, ◌+◌, Bool, false, not, Option, none, some, List, [], ◌∷◌, ◌++◌, map, if◌then◌else◌, ltb,
  wrap64,
}
use dln_node_knots.Prelude.Outcome.{ok_or}
use dln_node_knots.Prelude.Act.{Act, pure, fail, lift, ◌>>=◌, ◌>>◌}
use dln_node_knots.Text.{Text, codes, text_eq}
use dln_node_knots.State.Addresses.{
  AddressTransaction, AddressRecord, register_address, get_address,
  list_addresses as stored_addresses,
}
use dln_node_knots.Ldk.{World}
use dln_node_knots.Ldk.Send
use dln_node_knots.Nnc.{
  NncError, nnc_error, or_ldk_err, bad_request, not_found, internal, payment_failed,
}
use dln_node_knots.Wallet.{Wallet}

pub record PayOnchainRequest : Type 0 where
  pub address : Text
  pub amount_sats : ℕ
  pub feerate : Option ℕ

pub record PayOnchainResponse : Type 0 where
  pub txid : Text
  pub fee_sats : Option ℕ

pub record MakeNewAddressResponse : Type 0 where
  pub address : Text
  pub address_type : Text

pub record ListedTransaction : Type 0 where
  pub txid : Text
  pub amount_sats : ℕ
  pub confirmations : ℕ
  pub timestamp : ℕ

pub record LookupAddressResponse : Type 0 where
  pub address : Text
  pub address_type : Text
  pub total_received_sats : ℕ
  pub transactions : List ListedTransaction

pub record ListedAddress : Type 0 where
  pub address_type : Text
  pub total_received_sats : ℕ
  pub created_at : ℕ
  pub address : Text

-- `.map(|t| t.amount_sats).sum()`, which wraps around
unfoldable pub received_sats : ℕ → List AddressTransaction → ℕ
received_sats acc [] = acc
received_sats acc (t ∷ ts) = received_sats (wrap64 (acc + t.amount_sats)) ts

-- `.map(|t| t.timestamp).min().unwrap_or(0)`
unfoldable pub earliest_from : ℕ → List AddressTransaction → ℕ
earliest_from least [] = least
earliest_from least (t ∷ ts) =
    earliest_from (if ltb t.timestamp least then t.timestamp else least) ts

unfoldable pub earliest : List AddressTransaction → ℕ
earliest [] = 0
earliest (t ∷ ts) = earliest_from t.timestamp ts

abbrev pub unconfirmed : AddressTransaction → ListedTransaction
unconfirmed t = record {
  txid = t.txid;
  amount_sats = t.amount_sats;
  confirmations = 0;
  timestamp = t.timestamp;
}

unfoldable pub address_response : AddressRecord → LookupAddressResponse
address_response rec = record {
  address = rec.address;
  address_type = codes "p2tr";
  total_received_sats = received_sats 0 rec.transactions;
  transactions = map unconfirmed rec.transactions;
}

unfoldable pub listed_address : AddressRecord → ListedAddress
listed_address a = record {
  address_type = codes "p2tr";
  total_received_sats = received_sats 0 a.transactions;
  created_at = earliest a.transactions;
  address = a.address;
}

-- The type that a caller asks for is another one.
abbrev pub asks_other_type : Option Text → Bool
asks_other_type none = false
asks_other_type (some t) = not (text_eq t (codes "p2tr"))

abbrev pub type_text : Option Text → Text
type_text none = []
type_text (some t) = t

module _ {S E : Type 0} where
  -- `address_store::register_address(address.clone())`
  abbrev pub remember_address : Text → Act (World S) E (Unit {0})
  remember_address address w =
      pure tt (record w { addresses = register_address address w.addresses })

module _ {S : Type 0} (wallet : Wallet S) where
  unfoldable pub pay_onchain : PayOnchainRequest → Act (World S) NncError PayOnchainResponse
  pay_onchain r = do
    txid ←
        or_ldk_err (codes "pay_onchain") payment_failed
          (Send.pay_onchain wallet.ldk r.address r.amount_sats r.feerate)
    pure (record { txid = txid; fee_sats = none })

  unfoldable pub make_new_address : Option Text → Act (World S) NncError MakeNewAddressResponse
  make_new_address address_type =
      if asks_other_type address_type
      then fail
          (nnc_error bad_request (codes "this node generates p2tr, not " ++ type_text address_type))
      else do
        address ←
            or_ldk_err (codes "make_new_address") internal (Send.new_onchain_address wallet.ldk)
        remember_address address
        pure (record { address = address; address_type = codes "p2tr" })

  unfoldable pub lookup_address : Text → Act (World S) NncError LookupAddressResponse
  lookup_address address w =
      (do
        rec ← lift (
            ok_or (get_address address w.addresses)
              (nnc_error not_found (codes "this node does not watch that address")))
        pure (address_response rec))
        w

  unfoldable pub list_addresses : Act (World S) NncError (List ListedAddress)
  list_addresses w = pure (map listed_address (stored_addresses w.addresses)) w
