-- ===== src/Control/States.antt =====
-- Channel states of src/control.rs, which are carried as texts.
use dln_node_knots.Prelude.{
  ◌*◌, ◌<◌, Bool, true, false, ◌&&◌, some, ◌≡◌, refl, arith, if◌then◌else◌, u64_size,
}
use dln_node_knots.Text.{codes, text_eq}
use dln_node_knots.Node.{Library}
use dln_node_knots.Node.Types.{ChannelDetails}
use dln_node_knots.Ldk.Channels.{channel_info, channel_state}
use dln_node_knots.Control.{
  ChannelState, active, inactive, pending_open, channel_state_of, to_channel,
}

-- What the two flags of a channel say.
abbrev pub state_by_flags : Bool → Bool → ChannelState
state_by_flags true true = active
state_by_flags true false = inactive
state_by_flags false usable = pending_open

channel_state_of-flags :
    (ready usable : Bool)
    → channel_state_of (
        if ready && usable
        then codes "active"
        else if ready
        then codes "inactive"
        else codes "pending_open")
      ≡ state_by_flags ready usable
unfolding channel_state_of codes text_eq
channel_state_of-flags true true = refl
channel_state_of-flags true false = refl
channel_state_of-flags false true = refl
channel_state_of-flags false false = refl

-- A channel of the node is listed, through its text, as active where it is ready and usable, as
-- inactive where it is only ready, and as pending otherwise, never as unknown; and its capacity is
-- a thousand times its sats where that fits in a u64.
pub to_channel-channel_info :
    (lib : Library) (c : ChannelDetails)
    → c.channel_value_sats * 1000 < u64_size
    → ((to_channel (channel_info lib c)).state
        ≡ some (state_by_flags c.is_channel_ready c.is_usable))
      × ((to_channel (channel_info lib c)).capacity ≡ some (c.channel_value_sats * 1000))
unfolding to_channel channel_info channel_state
to_channel-channel_info lib c h =
    (rw (channel_state_of-flags c.is_channel_ready c.is_usable) refl, ground arith)
