-- ===== src/Wallet.antt =====
-- `Wallet` of src/wallet.rs: the NWC methods. A handler is an action on `World`; a request or a
-- response is a record of what the handler reads or writes of it.
pub mod Core
pub mod Invoices
pub mod Requests
pub mod Lookup
pub mod Addresses
pub mod Offers
pub mod Uri
pub mod Receive
pub mod Quote
use dln_node_knots.Prelude.{
  ℕ, Bool, true, false, Option, none, some, List, [], unwrap_or, map_option,
}
use dln_node_knots.Prelude.Act.{Act}
use dln_node_knots.Text.{Text, codes}
use dln_node_knots.Hex.{hex_payment_hash}
use dln_node_knots.Node.Types.{
  Json, PaymentDetails, PaymentDirection, inbound, outbound, PaymentStatus, PaymentKind, onchain,
  bolt11, bolt11_jit, bolt12_offer, bolt12_refund, spontaneous,
}
use dln_node_knots.Ldk.{LdkService, World, call}

pub record Wallet (S : Type 0) : Type 0 where
  pub ldk : LdkService S
  pub alias : Option Text
  -- what `nostr_ln::service` generates for `self.methods()`
  pub methods : List Text

-- `nostr_ln`'s, of which this node makes the first three
pub data TransactionState : Type 0 where
  settled failed pending accepted expired : TransactionState

pub data TransactionType : Type 0 where
  incoming outgoing : TransactionType

pub record Transaction : Type 0 where
  pub transaction_type : TransactionType
  pub state : Option TransactionState
  pub invoice : Option Text
  pub description : Option Text
  pub description_hash : Option Text
  pub preimage : Option Text
  pub payment_hash : Text
  pub amount : ℕ
  pub fees_paid : ℕ
  pub created_at : ℕ
  pub expires_at : Option ℕ
  pub settled_at : Option ℕ
  pub metadata : Option Json

-- src/lib.rs
unfoldable pub payment_hash_from_kind : PaymentKind → Option Text
payment_hash_from_kind (bolt11 hash preimage) = some (hex_payment_hash hash)
payment_hash_from_kind (bolt11_jit hash preimage) = some (hex_payment_hash hash)
payment_hash_from_kind (spontaneous hash preimage) = some (hex_payment_hash hash)
payment_hash_from_kind (bolt12_offer hash preimage) = map_option hex_payment_hash hash
payment_hash_from_kind (bolt12_refund hash preimage) = map_option hex_payment_hash hash
payment_hash_from_kind onchain = none

unfoldable pub preimage_from_kind : PaymentKind → Option Text
preimage_from_kind (bolt11 hash preimage) = map_option hex_payment_hash preimage
preimage_from_kind (bolt11_jit hash preimage) = map_option hex_payment_hash preimage
preimage_from_kind (spontaneous hash preimage) = map_option hex_payment_hash preimage
preimage_from_kind (bolt12_offer hash preimage) = map_option hex_payment_hash preimage
preimage_from_kind (bolt12_refund hash preimage) = map_option hex_payment_hash preimage
preimage_from_kind onchain = none

abbrev pub type_of : PaymentDirection → TransactionType
type_of inbound = incoming
type_of outbound = outgoing

abbrev pub state_of : PaymentStatus → TransactionState
state_of PaymentStatus.succeeded = settled
state_of PaymentStatus.failed = failed
state_of PaymentStatus.pending = pending

-- `settled.then_some(t)`
abbrev pub settled_time : PaymentStatus → ℕ → Option ℕ
settled_time PaymentStatus.succeeded t = some t
settled_time PaymentStatus.failed t = none
settled_time PaymentStatus.pending t = none

unfoldable pub to_transaction : PaymentDetails → Transaction
to_transaction p = record {
  transaction_type = type_of p.direction;
  state = some (state_of p.status);
  invoice = none;
  description = none;
  description_hash = none;
  preimage = preimage_from_kind p.kind;
  payment_hash = unwrap_or (payment_hash_from_kind p.kind) [];
  amount = unwrap_or p.amount_msat 0;
  fees_paid = unwrap_or p.fee_paid_msat 0;
  created_at = p.latest_update_timestamp;
  expires_at = none;
  settled_at = settled_time p.status p.latest_update_timestamp;
  metadata = none;
}

module _ {S E : Type 0} (ldk : LdkService S) where
  -- `now()`, with zero for a clock before the epoch.
  abbrev pub now : Act (World S) E ℕ
  now = call ldk.node.system_time
