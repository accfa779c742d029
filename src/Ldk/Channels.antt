-- ===== src/Ldk/Channels.antt =====
-- Channels and peers of src/lightning/ldk_service.rs.
pub mod Fees
use dln_node_knots.Prelude.{
  ℕ, suc, ◌*◌, ◌++◌, Bool, true, false, not, ◌&&◌, Option, none, some, List, [], ◌∷◌, map,
  map_option, and_then, length, if◌then◌else◌, wrap64, unwrap_or,
}
use dln_node_knots.Prelude.Select.{select, find_by, any_by}
use dln_node_knots.Prelude.Outcome.{Outcome, ok, err, panic, out_of_fuel, ok_or, map_err}
use dln_node_knots.Prelude.Act.{Act, lift, pure, ◌>>=◌}
use dln_node_knots.Text.{Bytes, Text, codes, text_eq}
use dln_node_knots.Scid.{format_scid}
use dln_node_knots.Node.{Library}
use dln_node_knots.Node.Types.{ChannelDetails, ChannelConfig, PeerDetails, PublicKey, OutPoint}
use dln_node_knots.Ldk.{LdkService, World, call, try_call}
use dln_node_knots.Ldk.Errors.{LdkServiceError, invalid_pubkey, channel_failed, peer_failed}

pub record LdkChannelInfo : Type 0 where
  pub id : Text
  pub short_channel_id : Option Text
  pub peer_pubkey : Text
  pub state : Text
  pub is_private : Bool
  pub local_balance : ℕ
  pub remote_balance : ℕ
  pub capacity : ℕ
  pub funding_txid : Option Text
  pub funding_output_index : Option ℕ
  pub confirmations : Option ℕ

pub record LdkPeerInfo : Type 0 where
  pub pubkey : Text
  pub address : Text
  pub connected : Bool
  pub alias : Option Text
  pub num_channels : ℕ

pub record LdkChannelFees : Type 0 where
  pub id : Text
  pub short_channel_id : Option Text
  pub peer_pubkey : Text
  pub base_fee : ℕ
  pub fee_rate : ℕ
  pub min_htlc : ℕ
  pub max_htlc : Option ℕ

unfoldable pub channel_state : ChannelDetails → Text
channel_state c =
    if c.is_channel_ready && c.is_usable
    then codes "active"
    else if c.is_channel_ready
    then codes "inactive"
    else codes "pending_open"

unfoldable pub channel_info : Library → ChannelDetails → LdkChannelInfo
channel_info lib c = record {
  id = lib.show_channel_id c.channel_id;
  short_channel_id = map_option format_scid c.short_channel_id;
  peer_pubkey = lib.show_public_key c.counterparty_node_id;
  state = channel_state c;
  is_private = not c.is_announced;
  local_balance = c.outbound_capacity_msat;
  remote_balance = c.inbound_capacity_msat;
  capacity = wrap64 (c.channel_value_sats * 1000);
  funding_txid = map_option (λ (o : OutPoint). o.txid) c.funding_txo;
  funding_output_index = map_option (λ (o : OutPoint). o.vout) c.funding_txo;
  confirmations = c.confirmations;
}

unfoldable pub channel_fees : Library → ChannelDetails → LdkChannelFees
channel_fees lib c = record {
  id = lib.show_channel_id c.channel_id;
  short_channel_id = map_option format_scid c.short_channel_id;
  peer_pubkey = lib.show_public_key c.counterparty_node_id;
  base_fee = c.config.forwarding_fee_base_msat;
  fee_rate = c.config.forwarding_fee_proportional_millionths;
  min_htlc = c.inbound_htlc_minimum_msat;
  max_htlc = c.inbound_htlc_maximum_msat;
}

unfoldable pub has_id : Library → Text → ChannelDetails → Bool
has_id lib channel_id c = text_eq (lib.show_channel_id c.channel_id) channel_id

abbrev pub wants : Library → Option Text → ChannelDetails → Bool
wants lib none c = true
wants lib (some id) c = has_id lib id c

-- `if let Some(base) = base_fee_msat { config.… = base }`, and the same for the rate.
unfoldable pub with_fees : Option ℕ → Option ℕ → ChannelConfig → ChannelConfig
with_fees base rate config = record config {
  forwarding_fee_base_msat = unwrap_or base config.forwarding_fee_base_msat;
  forwarding_fee_proportional_millionths =
      unwrap_or rate config.forwarding_fee_proportional_millionths;
}

unfoldable pub find_channel :
    Library → Text → List ChannelDetails → Outcome LdkServiceError ChannelDetails
find_channel lib channel_id channels =
    ok_or (find_by (has_id lib channel_id) channels)
      (channel_failed (codes "channel not found: " ++ channel_id))

unfoldable pub is_with : PublicKey → ChannelDetails → Bool
is_with counterparty c = text_eq c.counterparty_node_id counterparty

unfoldable pub peer_info : Library → List ChannelDetails → PeerDetails → LdkPeerInfo
peer_info lib channels peer = record {
  pubkey = lib.show_public_key peer.node_id;
  address = lib.show_socket_address peer.address;
  connected = peer.is_connected;
  alias = none;
  num_channels = length (select (is_with peer.node_id) channels);
}

module _ {S E : Type 0} (ldk : LdkService S) where
  -- A signer that fails is logged, and the answer is the same.
  unfoldable pub notify_channel_ready : ℕ → Act (World S) E (Unit {0})
  notify_channel_ready user_channel_id w =
      if ldk.has_keys_manager
      then (ok tt, record w { node = (ldk.node.channel_ready user_channel_id w.node).1 })
      else (ok tt, w)

  unfoldable pub list_channels : Act (World S) E (List LdkChannelInfo)
  list_channels = do
    channels ← call ldk.node.list_channels
    pure (map (channel_info ldk.lib) channels)

  unfoldable pub list_peers : Act (World S) E (List LdkPeerInfo)
  list_peers = do
    channels ← call ldk.node.list_channels
    peers ← call ldk.node.list_peers
    pure (map (peer_info ldk.lib channels) peers)

  unfoldable pub get_channel_fees : Option Text → Act (World S) E (List LdkChannelFees)
  get_channel_fees channel_id = do
    channels ← call ldk.node.list_channels
    pure (map (channel_fees ldk.lib) (select (wants ldk.lib channel_id) channels))

  -- A key that does not parse is with no channel.
  unfoldable pub has_ready_channel_with : Text → Act (World S) E Bool
  has_ready_channel_with counterparty_pubkey w =
      elim (ldk.lib.parse_public_key counterparty_pubkey) [
        | ok counterparty ↦
            (do
              channels ← call ldk.node.list_channels
              pure (
                  any_by (λ (c : ChannelDetails). is_with counterparty c && c.is_channel_ready)
                    channels))
              w
        | _ ↦ (ok false, w)
      ]

  unfoldable pub has_channel_with : Text → Act (World S) E Bool
  has_channel_with counterparty_pubkey w = elim (ldk.lib.parse_public_key counterparty_pubkey) [
    | ok counterparty ↦
        (do channels ← call ldk.node.list_channels; pure (any_by (is_with counterparty) channels)) w
    | _ ↦ (ok false, w)
  ]

module _ {S : Type 0} (ldk : LdkService S) where
  unfoldable pub open_channel :
      Text → Text → ℕ → Option ℕ → Act (World S) LdkServiceError (Unit {0})
  open_channel counterparty_pubkey counterparty_addr channel_amount_sats push_msat = do
    node_id ← lift (map_err invalid_pubkey (ldk.lib.parse_public_key counterparty_pubkey))
    addr ← lift (map_err channel_failed (ldk.lib.parse_socket_address counterparty_addr))
    try_call channel_failed (ldk.node.open_channel node_id addr channel_amount_sats push_msat)

  unfoldable pub connect_peer : Text → Text → Act (World S) LdkServiceError (Unit {0})
  connect_peer counterparty_pubkey counterparty_addr = do
    node_id ← lift (map_err invalid_pubkey (ldk.lib.parse_public_key counterparty_pubkey))
    addr ← lift (map_err peer_failed (ldk.lib.parse_socket_address counterparty_addr))
    try_call peer_failed (ldk.node.connect node_id addr)

  unfoldable pub disconnect_peer : Text → Act (World S) LdkServiceError (Unit {0})
  disconnect_peer counterparty_pubkey = do
    node_id ← lift (map_err invalid_pubkey (ldk.lib.parse_public_key counterparty_pubkey))
    try_call peer_failed (ldk.node.disconnect node_id)

  -- The two calls of `close_channel`.
  unfoldable pub close_found : ChannelDetails → Bool → Act (World S) LdkServiceError (Unit {0})
  close_found c force =
      if force
      then try_call channel_failed (
          ldk.node.force_close_channel c.user_channel_id c.counterparty_node_id
            (some (codes "closed via control API")))
      else try_call channel_failed (ldk.node.close_channel c.user_channel_id c.counterparty_node_id)

  unfoldable pub close_channel : Text → Bool → Act (World S) LdkServiceError (Unit {0})
  close_channel channel_id force = do
    channels ← call ldk.node.list_channels
    details ← lift (find_channel ldk.lib channel_id channels)
    close_found details force

  unfoldable pub set_channel_fees :
      Text → Option ℕ → Option ℕ → Act (World S) LdkServiceError (Unit {0})
  set_channel_fees channel_id base_fee_msat fee_rate = do
    channels ← call ldk.node.list_channels
    details ← lift (find_channel ldk.lib channel_id channels)
    try_call channel_failed (
        ldk.node.update_channel_config details.user_channel_id details.counterparty_node_id
          (with_fees base_fee_msat fee_rate details.config))
