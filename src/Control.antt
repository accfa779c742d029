-- ===== src/Control.antt =====
-- `Control` of src/control.rs: the node control methods. A request or a response is a record of
-- what the handler reads or writes of it.
pub mod Network
pub mod Fees
pub mod States
pub mod Routes
use dln_node_knots.Prelude.{
  ℕ, Bool, true, false, ◌||◌, Option, none, some, List, [], ◌∷◌, ◌++◌, map, and_then, unwrap_or,
  is_some, ltb, if◌then◌else◌, u32_size,
}
use dln_node_knots.Prelude.Outcome.{Outcome, ok_or}
use dln_node_knots.Prelude.Act.{Act, pure, fail, lift, ◌>>=◌}
use dln_node_knots.Text.{Text, codes, text_eq}
use dln_node_knots.State.Forwarding.{ForwardingEntry, get_history}
use dln_node_knots.Ldk.{LdkService, World}
use dln_node_knots.Ldk.Channels.{LdkChannelInfo, LdkPeerInfo, LdkChannelFees}
use dln_node_knots.Ldk.Channels
use dln_node_knots.Nnc.{
  NncError, nnc_error, or_ldk_err, bad_request, channel_failed, connection_failed,
}

pub data ChannelState : Type 0 where
  active inactive pending_open pending_close force_closing : ChannelState
  unknown : Text → ChannelState

pub record Channel : Type 0 where
  pub id : Text
  pub short_channel_id : Option Text
  pub peer_pubkey : Text
  pub state : Option ChannelState
  pub is_private : Bool
  pub capacity : Option ℕ
  pub local_balance : Option ℕ
  pub remote_balance : Option ℕ
  pub funding_txid : Option Text
  -- the keys and the numbers of `extra`
  pub extra : List (Text × ℕ)

pub record Peer : Type 0 where
  pub pubkey : Text
  pub address : Option Text
  pub connected : Bool
  pub alias : Option Text
  pub num_channels : Option ℕ

pub record ChannelFees : Type 0 where
  pub id : Text
  pub short_channel_id : Option Text
  pub peer_pubkey : Option Text
  pub base_fee : ℕ
  pub fee_rate : ℕ
  pub min_htlc : Option ℕ
  pub max_htlc : Option ℕ

pub record OpenChannelRequest : Type 0 where
  pub pubkey : Text
  pub host : Option Text
  pub amount_sats : ℕ
  pub push_amount : Option ℕ

pub record CloseChannelRequest : Type 0 where
  pub id : Text
  pub force : Option Bool

pub record ConnectPeerRequest : Type 0 where
  pub pubkey : Text
  pub host : Option Text

pub record SetChannelFeesRequest : Type 0 where
  pub id : Option Text
  pub base_fee : Option ℕ
  pub fee_rate : Option ℕ
  pub min_htlc : Option ℕ
  pub max_htlc : Option ℕ

pub record GetForwardingHistoryRequest : Type 0 where
  pub from : Option ℕ
  pub until : Option ℕ
  pub limit : Option ℕ
  pub offset : Option ℕ

unfoldable pub channel_state_of : Text → ChannelState
channel_state_of s =
    if text_eq s (codes "active")
    then active
    else if text_eq s (codes "inactive")
    then inactive
    else if text_eq s (codes "pending_open")
    then pending_open
    else if text_eq s (codes "pending_close")
    then pending_close
    else if text_eq s (codes "force_closing")
    then force_closing
    else unknown s

-- One `if let Some(n) = … { m.insert(key, n) }`.
abbrev pub extra_entry : Text → Option ℕ → List (Text × ℕ)
extra_entry key none = []
extra_entry key (some n) = (key, n) ∷ []

unfoldable pub to_channel : LdkChannelInfo → Channel
to_channel c = record {
  id = c.id;
  short_channel_id = c.short_channel_id;
  peer_pubkey = c.peer_pubkey;
  state = some (channel_state_of c.state);
  is_private = c.is_private;
  capacity = some c.capacity;
  local_balance = some c.local_balance;
  remote_balance = some c.remote_balance;
  funding_txid = c.funding_txid;
  extra =
      extra_entry (codes "confirmations") c.confirmations
      ++ extra_entry (codes "funding_output_index") c.funding_output_index;
}

abbrev pub to_peer : LdkPeerInfo → Peer
to_peer p = record {
  pubkey = p.pubkey;
  address = some p.address;
  connected = p.connected;
  alias = p.alias;
  num_channels = some p.num_channels;
}

abbrev pub to_channel_fees : LdkChannelFees → ChannelFees
to_channel_fees f = record {
  id = f.id;
  short_channel_id = f.short_channel_id;
  peer_pubkey = some f.peer_pubkey;
  base_fee = f.base_fee;
  fee_rate = f.fee_rate;
  min_htlc = some f.min_htlc;
  max_htlc = f.max_htlc;
}

-- `v.and_then(|v| u32::try_from(v).ok())`
abbrev pub fee_u32 : Option ℕ → Option ℕ
fee_u32 o = and_then o (λ (v : ℕ). if ltb v u32_size then some v else none)

module _ {S : Type 0} (ldk : LdkService S) where
  unfoldable pub list_channels : Act (World S) NncError (List Channel)
  list_channels = do channels ← Channels.list_channels ldk; pure (map to_channel channels)

  unfoldable pub open_channel : OpenChannelRequest → Act (World S) NncError (Unit {0})
  open_channel r = do
    host ← lift (ok_or r.host (nnc_error bad_request (codes "host is required to open a channel")))
    or_ldk_err (codes "open_channel") channel_failed
        (Channels.open_channel ldk r.pubkey host r.amount_sats r.push_amount)

  unfoldable pub close_channel : CloseChannelRequest → Act (World S) NncError (Unit {0})
  close_channel r =
      or_ldk_err (codes "close_channel") channel_failed
        (Channels.close_channel ldk r.id (unwrap_or r.force false))

  unfoldable pub list_peers : Act (World S) NncError (List Peer)
  list_peers = do peers ← Channels.list_peers ldk; pure (map to_peer peers)

  unfoldable pub connect_peer : ConnectPeerRequest → Act (World S) NncError (Unit {0})
  connect_peer r = do
    host ← lift (ok_or r.host (nnc_error bad_request (codes "host is required to connect")))
    or_ldk_err (codes "connect_peer") connection_failed (Channels.connect_peer ldk r.pubkey host)

  unfoldable pub disconnect_peer : Text → Act (World S) NncError (Unit {0})
  disconnect_peer pubkey =
      or_ldk_err (codes "disconnect_peer") connection_failed (Channels.disconnect_peer ldk pubkey)

  unfoldable pub get_channel_fees : Option Text → Act (World S) NncError (List ChannelFees)
  get_channel_fees id = do fees ← Channels.get_channel_fees ldk id; pure (map to_channel_fees fees)

  unfoldable pub set_channel_fees : SetChannelFeesRequest → Act (World S) NncError (Unit {0})
  set_channel_fees r = do
    id ← lift (
        ok_or r.id
          (nnc_error bad_request (codes "this node sets fees per channel, so id is required")))
    if is_some r.min_htlc || is_some r.max_htlc
        then fail (nnc_error bad_request (codes "this node cannot set min_htlc or max_htlc"))
        else or_ldk_err (codes "set_channel_fees") channel_failed
            (Channels.set_channel_fees ldk id (fee_u32 r.base_fee) (fee_u32 r.fee_rate))

  unfoldable pub get_forwarding_history :
      GetForwardingHistoryRequest → Act (World S) NncError (List ForwardingEntry)
  get_forwarding_history r w =
      pure (get_history r.from r.until (unwrap_or r.limit 100) (unwrap_or r.offset 0) w.forwards) w
