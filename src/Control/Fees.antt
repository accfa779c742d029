-- ===== src/Control/Fees.antt =====
-- Fees that are set through src/control.rs.
use dln_node_knots.Prelude.{
  ℕ, ◌^◌, ◌≤◌, ◌<◌, Option, ◌⊎◌, refl, sym, subst, unwrap_or, ltb, u32_size, ◌||◌, none, some, ◌≡◌,
  arith, inl, inr, is_some, Bool-cases, Option-cases,
}
use dln_node_knots.Prelude.Outcome.{ok, Outcome-cases}
use dln_node_knots.Text.{Text}
use dln_node_knots.Ldk.{LdkService, World}
use dln_node_knots.Ldk.Channels
use dln_node_knots.Node.Types.{ChannelDetails, ChannelConfig}
use dln_node_knots.Ldk.Channels.Fees.{IsNamed, Updated, set_channel_fees-Updated}
use dln_node_knots.Control.{SetChannelFeesRequest, set_channel_fees, fee_u32}

-- A fee that is asked for replaces the old one where it fits in a u32, and is dropped otherwise.
abbrev pub IsFee : Option ℕ → ℕ → ℕ → Type 0
IsFee none old new = new ≡ old
IsFee (some v) old new = ((v < 2 ^ 32) × (new ≡ v)) ⊎ ((2 ^ 32 ≤ v) × (new ≡ old))

fee_u32-IsFee : (o : Option ℕ) (old : ℕ) → IsFee o old (unwrap_or (fee_u32 o) old)
fee_u32-IsFee none old = refl
fee_u32-IsFee (some v) old = elim (Bool-cases (ltb v u32_size)) [
  | inl fits ↦ rw fits (inl (ground arith, refl))
  | inr over ↦ rw over (inr (ground arith, refl))
]

module _ {S : Type 0} (ldk : LdkService S) where
  -- The node has accepted, for a listed channel of that id and its peer, a configuration with the
  -- two fees and all else as it was.
  pub record HasFees (r : SetChannelFeesRequest) (id : Text) (w w' : World S) : Type 0 where
    pub channel : ChannelDetails
    pub named : IsNamed ldk.lib id (ldk.node.list_channels w.node).0 channel
    pub config : ChannelConfig
    pub base_fee :
        IsFee r.base_fee channel.config.forwarding_fee_base_msat config.forwarding_fee_base_msat
    pub fee_rate :
        IsFee r.fee_rate channel.config.forwarding_fee_proportional_millionths
          config.forwarding_fee_proportional_millionths
    pub others : config.other_settings ≡ channel.config.other_settings
    pub updated :
        ldk.node.update_channel_config channel.user_channel_id channel.counterparty_node_id config
          (ldk.node.list_channels w.node).1
        ≡ (ok tt, w'.node)

  Updated-HasFees :
      (r : SetChannelFeesRequest) (id : Text) (w w' : World S)
      → Updated ldk id (fee_u32 r.base_fee) (fee_u32 r.fee_rate) w w'
      → HasFees r id w w'
  Updated-HasFees r id w w' u = record {
    channel = u.channel;
    named = u.named;
    config = u.config;
    base_fee =
        subst (IsFee r.base_fee u.channel.config.forwarding_fee_base_msat) (sym u.base_fee)
          (fee_u32-IsFee r.base_fee u.channel.config.forwarding_fee_base_msat);
    fee_rate =
        subst (IsFee r.fee_rate u.channel.config.forwarding_fee_proportional_millionths)
          (sym u.fee_rate)
          (fee_u32-IsFee r.fee_rate u.channel.config.forwarding_fee_proportional_millionths);
    others = u.others;
    updated = u.updated;
  }

  -- When setting fees succeeds, the request named a channel and no HTLC bound, and the channel with
  -- that id was updated with the fees of the request that are below 2 ^ 32, and keeps its old fee in
  -- place of one that is not, or that was not given.
  pub set_channel_fees-HasFees :
      (r : SetChannelFeesRequest) (w w' : World S)
      → set_channel_fees ldk r w ≡ (ok tt, w')
      → (id : Text) × (r.id ≡ some id)
        × (r.min_htlc ≡ none)
        × (r.max_htlc ≡ none)
        × HasFees r id w w'
  unfolding set_channel_fees
  set_channel_fees-HasFees r w w' h = elim (Option-cases r.id) [
    | inl missing ↦ absurd (ground arith)
    | inr (id, given) ↦ elim (Bool-cases (is_some r.min_htlc || is_some r.max_htlc)) [
      | inl bounds ↦ absurd (ground arith)
      | inr no_bounds ↦
          elim (Outcome-cases
            (Channels.set_channel_fees ldk id (fee_u32 r.base_fee) (fee_u32 r.fee_rate) w).0) [
              | inl failed ↦ absurd (ground arith)
              | inr (u, e) ↦ (
                id,
                given,
                ground arith,
                ground arith,
                Updated-HasFees r id w w' (
                    set_channel_fees-Updated ldk id (fee_u32 r.base_fee) (fee_u32 r.fee_rate) w w'
                      (ground arith)),
              )
            ]
    ]
  ]
