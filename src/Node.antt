-- ===== src/Node.antt =====
-- What the node uses of other crates: `ldk-node`, `lightning`, `bitcoin`, `hex`, `bip321` and the
-- operating system. Their types are records of what this repository reads of them, their functions
-- are fields of `Library`, and their effects are fields of `Node`.
pub mod Types
use dln_node_knots.Prelude.{ℕ, Option, List}
use dln_node_knots.Prelude.Outcome.{Outcome}
use dln_node_knots.Text.{Bytes, Text}
use Types.{
  Network, PublicKey, NodeId, SocketAddress, Invoice, Offer, Address, Description, Balances,
  PaymentDetails, ChannelDetails, ChannelConfig, PeerDetails, Graph, Uri, Json, IssuedInvoice,
}

-- Functions that only compute. An error is the text that the crate gives it.
pub record Library : Type 0 where
  pub parse_public_key : Text → Outcome Text PublicKey
  pub show_public_key : PublicKey → Text
  pub node_id_of : PublicKey → NodeId
  pub show_node_id : NodeId → Text
  pub parse_socket_address : Text → Outcome Text SocketAddress
  pub show_socket_address : SocketAddress → Text
  pub show_channel_id : Bytes → Text
  pub parse_invoice : Text → Outcome Text Invoice
  pub parse_offer : Text → Outcome Text Offer
  pub parse_address : Text → Outcome Text Address
  pub require_network : Address → Network → Outcome Text Address
  pub new_description : Text → Outcome Text Description
  pub sha256 : Bytes → Bytes
  -- `sha256::Hash::hash(&b).to_string()`
  pub sha256_text : Bytes → Text
  pub hex_decode : Text → Outcome Text Bytes
  pub hex_encode : Bytes → Text
  pub parse_uri : Text → Outcome Text Uri
  pub show_uri : Uri → Text
  -- `v.get(key).and_then(|v| v.as_str())`
  pub json_str : Json → Text → Option Text

-- Effects on `S`, the node with everything around it: other threads, the peers, the chain and the
-- clock. Each call returns the state that it leaves, so that what others do in between two calls
-- is part of the second.
pub record Node (S : Type 0) : Type 0 where
  pub our_node_id : S → PublicKey × S
  pub best_block_height : S → ℕ × S
  pub sync_wallets : S → Outcome Text (Unit {0}) × S
  pub list_balances : S → Balances × S
  pub new_address : S → Outcome Text Text × S
  -- amount in msat, description, expiry in seconds
  pub receive : ℕ → Description → ℕ → S → Outcome Text IssuedInvoice × S
  -- the same, with the payment hash
  pub receive_for_hash : ℕ → Description → ℕ → Bytes → S → Outcome Text IssuedInvoice × S
  -- payment hash, amount in msat, preimage
  pub claim_for_hash : Bytes → ℕ → Bytes → S → Outcome Text (Unit {0}) × S
  pub fail_for_hash : Bytes → S → Outcome Text (Unit {0}) × S
  pub payment : Bytes → S → Option PaymentDetails × S
  pub list_payments : S → List PaymentDetails × S
  -- each `send` returns the id of the payment
  pub send : Invoice → S → Outcome Text Bytes × S
  pub send_using_amount : Invoice → ℕ → S → Outcome Text Bytes × S
  pub send_spontaneous : ℕ → PublicKey → S → Outcome Text Bytes × S
  pub send_offer : Offer → Option Text → S → Outcome Text Bytes × S
  -- amount in msat, description, expiry in seconds
  pub receive_offer : ℕ → Text → Option ℕ → S → Outcome Text Text × S
  pub send_to_address : Address → ℕ → S → Outcome Text Text × S
  pub list_channels : S → List ChannelDetails × S
  pub open_channel : PublicKey → SocketAddress → ℕ → Option ℕ → S → Outcome Text (Unit {0}) × S
  pub close_channel : ℕ → PublicKey → S → Outcome Text (Unit {0}) × S
  pub force_close_channel : ℕ → PublicKey → Option Text → S → Outcome Text (Unit {0}) × S
  pub update_channel_config : ℕ → PublicKey → ChannelConfig → S → Outcome Text (Unit {0}) × S
  pub connect : PublicKey → SocketAddress → S → Outcome Text (Unit {0}) × S
  pub disconnect : PublicKey → S → Outcome Text (Unit {0}) × S
  pub list_peers : S → List PeerDetails × S
  pub stop : S → Outcome Text (Unit {0}) × S
  pub network_graph : S → Graph × S
  -- of the VLS signer, for the user's id of a channel
  pub channel_ready : ℕ → S → Outcome Text (Unit {0}) × S
  -- `std::env::var`
  pub env_var : Text → S → Option Text × S
  -- seconds since the epoch
  pub system_time : S → ℕ × S
  -- nanoseconds of a clock that does not go back
  pub instant : S → ℕ × S
  -- nanoseconds to sleep
  pub sleep : ℕ → S → Unit {0} × S
