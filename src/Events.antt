-- ===== src/Events.antt =====
-- src/events.rs: events of the node, turned into notifications and into forwarding history. A
-- handler returns what it hands to the notifier, which `Events.Delivery` delivers.
pub mod Forwards
pub mod Delivery
use dln_node_knots.Prelude.{
  ℕ, ◌+◌, Bool, true, false, Option, none, some, List, [], ◌∷◌, ◌++◌, map, map_option, and_then,
  unwrap_or, if◌then◌else◌,
}
use dln_node_knots.Prelude.Select.{find_by}
use dln_node_knots.Text.{Bytes, Text, codes, text_eq}
use dln_node_knots.Hex.{hex_hash}
use dln_node_knots.Node.Types.{PublicKey}
use dln_node_knots.State.Forwarding.{ForwardingEntry, record_forward}
use dln_node_knots.Ldk.{LdkService, World}
use dln_node_knots.Ldk.Channels.{LdkChannelInfo, channel_info, notify_channel_ready}
use dln_node_knots.Ldk.Graph.{saturating_add}
use dln_node_knots.Wallet.{Transaction, TransactionType, TransactionState, incoming, outgoing}
use dln_node_knots.Control.{Channel, ChannelState}

-- `ClosureReason` of `lightning`, with the reasons that are named here.
pub data ClosureReason : Type 0 where
  counterparty_force_closed holder_force_closed legacy_cooperative_closure
        counterparty_initiated_cooperative_closure locally_initiated_cooperative_closure
        another_reason :
      ClosureReason

pub data CloseType : Type 0 where
  force_remote force_local cooperative : CloseType
  unknown : Text → CloseType

-- `ldk_node::Event`, with what is read of each.
pub data Event : Type 0 where
  -- payment hash, amount
  payment_received : Bytes → ℕ → Event
  -- payment hash, fee
  payment_successful : Bytes → Option ℕ → Event
  -- payment hash, amount, deadline
  payment_claimable : Bytes → ℕ → Option ℕ → Event
  -- channel, the user's id of it, counterparty
  channel_ready : Bytes → ℕ → Option PublicKey → Event
  -- channel, counterparty, reason
  channel_closed : Bytes → Option PublicKey → Option ClosureReason → Event
  -- previous channel, next channel, fee, outgoing amount
  payment_forwarded : Bytes → Bytes → Option ℕ → Option ℕ → Event
  another_event : Event

pub record HoldInvoiceAccepted : Type 0 where
  pub kind : Text
  pub state : Option Text
  pub invoice : Text
  pub payment_hash : Text
  pub amount : ℕ
  pub created_at : ℕ
  pub expires_at : ℕ
  pub settle_deadline : Option ℕ

pub record ChannelClosed : Type 0 where
  pub id : Text
  pub short_channel_id : Option Text
  pub peer_pubkey : Option Text
  pub capacity : Option ℕ
  pub closing_txid : Option Text
  pub close_type : CloseType

pub data Notice : Type 0 where
  received_notice sent_notice : Transaction → Notice
  accepted_notice : HoldInvoiceAccepted → Notice
  opened_notice : Channel → Notice
  closed_notice : ChannelClosed → Notice

unfoldable pub close_type : Option ClosureReason → CloseType
close_type (some counterparty_force_closed) = force_remote
close_type (some holder_force_closed) = force_local
close_type (some legacy_cooperative_closure) = cooperative
close_type (some counterparty_initiated_cooperative_closure) = cooperative
close_type (some locally_initiated_cooperative_closure) = cooperative
close_type (some another_reason) = unknown (codes "unknown")
close_type none = unknown (codes "unknown")

-- `payment`, at the two times that the clock shows.
unfoldable pub payment : TransactionType → Text → ℕ → ℕ → ℕ → Transaction
payment direction hash amount created settled = record {
  transaction_type = direction;
  state = some TransactionState.settled;
  invoice = none;
  description = none;
  description_hash = none;
  preimage = none;
  payment_hash = hash;
  amount = amount;
  fees_paid = 0;
  created_at = created;
  expires_at = none;
  settled_at = some settled;
  metadata = none;
}

-- The channel of the `ChannelOpened` notice.
unfoldable pub opened_channel : Text → Text → Option LdkChannelInfo → Channel
opened_channel id peer_pubkey found = record {
  id = id;
  short_channel_id = and_then found (λ (c : LdkChannelInfo). c.short_channel_id);
  peer_pubkey = peer_pubkey;
  state = some ChannelState.active;
  is_private = unwrap_or (map_option (λ (c : LdkChannelInfo). c.is_private) found) false;
  capacity = map_option (λ (c : LdkChannelInfo). c.capacity) found;
  local_balance = map_option (λ (c : LdkChannelInfo). c.local_balance) found;
  remote_balance = map_option (λ (c : LdkChannelInfo). c.remote_balance) found;
  funding_txid = and_then found (λ (c : LdkChannelInfo). c.funding_txid);
  extra = [];
}

unfoldable pub forwarding_entry : Text → Text → Option ℕ → Option ℕ → ℕ → ForwardingEntry
forwarding_entry prev next fee_earned forwarded time =
    let fee = unwrap_or fee_earned 0 in
    let out = unwrap_or forwarded 0 in
    record {
      incoming_channel_id = prev;
      outgoing_channel_id = next;
      incoming_amount = saturating_add out fee;
      outgoing_amount = out;
      fee_earned = fee;
      settled_at = time;
    }

module _ {S : Type 0} (ldk : LdkService S) where
  -- `now()`
  abbrev pub clock : World S → ℕ × World S
  clock w = let (time, s) = ldk.node.system_time w.node in (time, record w { node = s })

  -- `payment`, which reads the clock twice.
  unfoldable pub payment_now : TransactionType → Text → ℕ → World S → Transaction × World S
  payment_now direction hash amount w =
      let (created, w1) = clock w in
      let (settled, w2) = clock w1 in (payment direction hash amount created settled, w2)

  -- The arm of `ChannelReady`: first the signer, then the notice.
  unfoldable pub handle_ready : Bytes → ℕ → Option PublicKey → World S → Option Notice × World S
  handle_ready channel_id user_channel_id peer w =
      let w1 = (notify_channel_ready {E = Text} ldk user_channel_id w).1 in
      let (channels, s) = ldk.node.list_channels w1.node in
      let id = ldk.lib.show_channel_id channel_id in
      let found =
        find_by (λ (c : LdkChannelInfo). text_eq c.id id) (map (channel_info ldk.lib) channels) in
      (
        some (
            opened_notice
              (opened_channel id (unwrap_or (map_option ldk.lib.show_public_key peer) []) found)),
        record w1 { node = s },
      )

  unfoldable pub handle : Event → World S → Option Notice × World S
  handle (payment_received hash amount) w =
      let (t, w1) = payment_now incoming (hex_hash hash) amount w in (some (received_notice t), w1)
  handle (payment_successful hash fee) w =
      let (t, w1) = payment_now outgoing (hex_hash hash) 0 w in
      (some (sent_notice (record t { fees_paid = unwrap_or fee 0 })), w1)
  handle (payment_claimable hash amount deadline) w =
      let (time, w1) = clock w in
      (
        some (
            accepted_notice (record {
              kind = codes "incoming";
              state = some (codes "accepted");
              invoice = [];
              payment_hash = hex_hash hash;
              amount = amount;
              created_at = time;
              expires_at = 0;
              settle_deadline = deadline;
            })),
        w1,
      )
  handle (channel_ready channel_id user_channel_id peer) w =
      handle_ready channel_id user_channel_id peer w
  handle (channel_closed channel_id peer reason) w = (
    some (
        closed_notice (record {
          id = ldk.lib.show_channel_id channel_id;
          short_channel_id = none;
          peer_pubkey = map_option ldk.lib.show_public_key peer;
          capacity = none;
          closing_txid = none;
          close_type = close_type reason;
        })),
    w,
  )
  handle (payment_forwarded prev next fee out) w =
      let (time, w1) = clock w in
      let entry =
        forwarding_entry (ldk.lib.show_channel_id prev) (ldk.lib.show_channel_id next) fee out
          time in
      (none, record w1 { forwards = record_forward entry w1.forwards })
  handle another_event w = (none, w)
