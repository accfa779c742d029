-- ===== src/Node/Types.antt =====
-- The types of other crates, with what this repository reads of them.
use dln_node_knots.Prelude.{ℕ, Bool, Option, List}
use dln_node_knots.Text.{Bytes, Text}

-- `bitcoin::Network` is open: `unlisted` stands for what the `_` arms take.
pub data Network : Type 0 where
  regtest testnet bitcoin signet unlisted : Network

abbrev pub PublicKey : Type 0
PublicKey = Bytes

abbrev pub NodeId : Type 0
NodeId = Bytes

abbrev pub SocketAddress : Type 0
SocketAddress = Bytes

abbrev pub Address : Type 0
Address = Bytes

abbrev pub Description : Type 0
Description = Text

-- A BOLT11 invoice that was parsed.
pub record Invoice : Type 0 where
  pub payment_hash : Text
  pub amount_milli_satoshis : Option ℕ
  pub payee : PublicKey
  pub encoded : Text

-- A BOLT11 invoice that the node issued.
pub record IssuedInvoice : Type 0 where
  pub payment_hash : Text
  pub amount_milli_satoshis : Option ℕ
  pub expires_at : Option ℕ
  pub encoded : Text

pub record Offer : Type 0 where
  pub id : Bytes
  pub encoded : Text

pub record Balances : Type 0 where
  pub spendable_onchain_balance_sats : ℕ
  pub total_lightning_balance_sats : ℕ

pub data PaymentDirection : Type 0 where
  inbound outbound : PaymentDirection

pub data PaymentStatus : Type 0 where
  pending succeeded failed : PaymentStatus

-- A hash, or the hash where one is known yet, and the preimage where it is known.
pub data PaymentKind : Type 0 where
  onchain : PaymentKind
  bolt11 : Bytes → Option Bytes → PaymentKind
  bolt11_jit : Bytes → Option Bytes → PaymentKind
  bolt12_offer : Option Bytes → Option Bytes → PaymentKind
  bolt12_refund : Option Bytes → Option Bytes → PaymentKind
  spontaneous : Bytes → Option Bytes → PaymentKind

pub record PaymentDetails : Type 0 where
  pub id : Bytes
  pub kind : PaymentKind
  pub amount_msat : Option ℕ
  pub fee_paid_msat : Option ℕ
  pub direction : PaymentDirection
  pub status : PaymentStatus
  pub latest_update_timestamp : ℕ

pub record ChannelConfig : Type 0 where
  pub forwarding_fee_base_msat : ℕ
  pub forwarding_fee_proportional_millionths : ℕ
  -- the settings that this repository never names
  pub other_settings : Bytes

pub record OutPoint : Type 0 where
  pub txid : Text
  pub vout : ℕ

pub record ChannelDetails : Type 0 where
  pub channel_id : Bytes
  pub user_channel_id : ℕ
  pub counterparty_node_id : PublicKey
  pub short_channel_id : Option ℕ
  pub funding_txo : Option OutPoint
  pub channel_value_sats : ℕ
  pub outbound_capacity_msat : ℕ
  pub inbound_capacity_msat : ℕ
  pub inbound_htlc_minimum_msat : ℕ
  pub inbound_htlc_maximum_msat : Option ℕ
  pub confirmations : Option ℕ
  pub is_channel_ready : Bool
  pub is_usable : Bool
  pub is_announced : Bool
  pub config : ChannelConfig

pub record PeerDetails : Type 0 where
  pub node_id : PublicKey
  pub address : SocketAddress
  pub is_connected : Bool

pub record ChannelUpdate : Type 0 where
  pub base_msat : ℕ
  pub proportional_millionths : ℕ
  pub htlc_minimum_msat : ℕ
  pub htlc_maximum_msat : ℕ
  pub cltv_expiry_delta : ℕ
  pub enabled : Bool
  pub last_update : ℕ

pub record GraphChannel : Type 0 where
  pub node_one : NodeId
  pub node_two : NodeId
  pub capacity_sats : Option ℕ
  pub one_to_two : Option ChannelUpdate
  pub two_to_one : Option ChannelUpdate

pub record Announcement : Type 0 where
  pub alias : Text
  pub red : ℕ
  pub green : ℕ
  pub blue : ℕ
  pub addresses : List Text
  pub last_update : ℕ

pub record GraphNode : Type 0 where
  pub channels : List ℕ
  pub announcement_info : Option Announcement

-- The gossip graph as one call reads it. A listed node or channel need not be found.
pub record Graph : Type 0 where
  pub list_nodes : List NodeId
  pub node : NodeId → Option GraphNode
  pub list_channels : List ℕ
  pub channel : ℕ → Option GraphChannel

-- A BIP321 URI: amount in sats, the texts, the Lightning invoices and offers, and the on-chain
-- address with the text that it was given by.
pub record Uri : Type 0 where
  pub amount : Option ℕ
  pub label : Option Text
  pub message : Option Text
  pub lightning : List Text
  pub lno : List Text
  pub address : Option Address
  pub address_str : Option Text

-- A JSON value that the handlers pass on, or read one field of.
abbrev pub Json : Type 0
Json = Bytes
