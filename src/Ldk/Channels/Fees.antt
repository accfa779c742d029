-- ===== src/Ldk/Channels/Fees.antt =====
-- What the channel methods do to the channel that they find.
use dln_node_knots.Prelude.{
  ℕ, Bool, Option, some, List, ◌≡◌, refl, arith, unwrap_or, Option-cases, inl, inr, if◌then◌else◌,
}
use dln_node_knots.Prelude.Select.{Has, find_by, find_by_sound}
use dln_node_knots.Prelude.Outcome.{Outcome-cases, ok}
use dln_node_knots.Text.{Text, codes}
use dln_node_knots.Text.Equality.{text_eq_iff}
use dln_node_knots.Node.{Library}
use dln_node_knots.Node.Types.{ChannelDetails, ChannelConfig}
use dln_node_knots.Ldk.{LdkService, World}
use dln_node_knots.Ldk.Channels.{
  set_channel_fees, close_channel, close_found, find_channel, has_id, with_fees,
}

-- A listed channel whose id reads so.
abbrev pub IsNamed : Library → Text → List ChannelDetails → ChannelDetails → Type 0
IsNamed lib id channels c = Has c channels × (lib.show_channel_id c.channel_id ≡ id)

pub find_channel-IsNamed :
    (lib : Library) (id : Text) (channels : List ChannelDetails) (c : ChannelDetails)
    → find_channel lib id channels ≡ ok c
    → IsNamed lib id channels c
unfolding find_channel has_id
find_channel-IsNamed lib id channels c h =
    let (listed, named) = find_by_sound (has_id lib id) channels c (found_of h) in
    (listed, (text_eq_iff (lib.show_channel_id c.channel_id) id).0 named)
  where
    found_of : find_channel lib id channels ≡ ok c → find_by (has_id lib id) channels ≡ some c
    found_of e = elim (Option-cases (find_by (has_id lib id) channels)) [
      | inl missing ↦ absurd (ground arith)
      | inr (d, found) ↦ ground arith
    ]

module _ {S : Type 0} (ldk : LdkService S) where
  -- The update that a success of `set_channel_fees` stands for.
  pub record Updated (id : Text) (base rate : Option ℕ) (w w' : World S) : Type 0 where
    pub channel : ChannelDetails
    pub named : IsNamed ldk.lib id (ldk.node.list_channels w.node).0 channel
    pub config : ChannelConfig
    pub base_fee :
        config.forwarding_fee_base_msat ≡ unwrap_or base channel.config.forwarding_fee_base_msat
    pub fee_rate :
        config.forwarding_fee_proportional_millionths
        ≡ unwrap_or rate channel.config.forwarding_fee_proportional_millionths
    pub others : config.other_settings ≡ channel.config.other_settings
    pub updated :
        ldk.node.update_channel_config channel.user_channel_id channel.counterparty_node_id config
          (ldk.node.list_channels w.node).1
        ≡ (ok tt, w'.node)

  -- When setting the fees of a channel succeeds, a channel with that id was listed, and the node
  -- has accepted, for that channel and its peer, its own configuration with the fees that were
  -- given in place of the old ones, and all else kept.
  pub set_channel_fees-Updated :
      (id : Text) (base rate : Option ℕ) (w w' : World S)
      → set_channel_fees ldk id base rate w ≡ (ok tt, w')
      → Updated id base rate w w'
  unfolding set_channel_fees with_fees
  set_channel_fees-Updated id base rate w w' h =
      let (channels, s) = ldk.node.list_channels w.node in
      elim (Outcome-cases (find_channel ldk.lib id channels)) [
        | inl missing ↦ absurd (ground arith)
        | inr (channel, found) ↦
            let config = with_fees base rate channel.config in
            let (r, s') =
              ldk.node.update_channel_config channel.user_channel_id channel.counterparty_node_id
                config s in
            elim (Outcome-cases r) [
              | inl refused ↦ absurd (ground arith)
              | inr (u, accepted) ↦ record {
                channel = channel;
                named = find_channel-IsNamed ldk.lib id channels channel found;
                config = config;
                base_fee = refl;
                fee_rate = refl;
                others = refl;
                updated = ground arith;
              }
            ]
      ]

  -- When closing a channel succeeds, a channel with that id was listed, and the node has accepted
  -- to close that channel with its peer: by force, with the reason, exactly when that was asked.
  pub close_channel-IsNamed :
      (id : Text) (force : Bool) (w w' : World S)
      → close_channel ldk id force w ≡ (ok tt, w')
      → (c : ChannelDetails) × IsNamed ldk.lib id (ldk.node.list_channels w.node).0 c
        × (if force
            then ldk.node.force_close_channel c.user_channel_id c.counterparty_node_id
                (some (codes "closed via control API"))
                (ldk.node.list_channels w.node).1
            else ldk.node.close_channel c.user_channel_id c.counterparty_node_id
                (ldk.node.list_channels w.node).1)
          ≡ (ok tt, w'.node)
  unfolding close_channel close_found
  close_channel-IsNamed id force w w' h =
      elim (Outcome-cases (find_channel ldk.lib id (ldk.node.list_channels w.node).0)) [
        | inl missing ↦ absurd (ground arith)
        | inr (c, found) ↦ (
          c,
          find_channel-IsNamed ldk.lib id (ldk.node.list_channels w.node).0 c found,
          ground arith,
        )
      ]
