-- ===== src/Examples/Machine.antt =====
-- The theorems on the node service, on the sample node.
use mathlib.Core.List.{Perm}
use dln_node_knots.Prelude.{
  All, true, false, none, some, List, [], ◌∷◌, ◌++◌, ◌≡◌, refl, arith, if◌then◌else◌, ◌≤◌,
}
use dln_node_knots.Prelude.Outcome.{ok}
use dln_node_knots.Text.{codes, text_eq, trim}
use dln_node_knots.Node.Types.{PaymentDetails, ChannelDetails, outbound, signet}
use dln_node_knots.Ldk.{World}
use dln_node_knots.Ldk.Balance.{get_balance, get_balance_exact, exact_balance}
use dln_node_knots.Ldk.Config.{
  LdkServiceConfig, parse_network, network_name, parse_network-network_name,
}
use dln_node_knots.Ldk.History.{Query, select_payments}
use dln_node_knots.Ldk.History.Order.{IsNewestFirst, select_payments-IsNewestFirst}
use dln_node_knots.Ldk.History.Complete.{select_payments-Parts}
use dln_node_knots.Ldk.History.Meets.{Meets}
use dln_node_knots.Ldk.Wait.{wait_for_outbound_payment}
use dln_node_knots.Ldk.Wait.Terminates.{Clock}
use dln_node_knots.Ldk.Wait.Sound.{Settles, wait_for_outbound_payment-Settles}
use dln_node_knots.Ldk.Invoices.{settle_hold_invoice, parse_preimage, hex_to_32}
use dln_node_knots.Ldk.Invoices.Settle.{Claimed, settle_hold_invoice-Claimed}
use dln_node_knots.Ldk.Channels.{close_channel, close_found, find_channel, has_id}
use dln_node_knots.Ldk.Channels.Fees.{IsNamed, close_channel-IsNamed}
use dln_node_knots.Ldk.Graph.{network_stats}
use dln_node_knots.Ldk.Graph.Stats.{IsAverage, network_stats-total}
use dln_node_knots.Examples.Samples.{
  Machine, machine, node, service, world, preimage_bytes, payment_of, routed_graph,
}

node-Clock : Clock node
node-Clock = record {
  time = λ s. s.time;
  read_from = λ s. omega arith;
  read_to = λ s. omega arith;
  slept = λ n s. omega arith;
  listed = λ s. omega arith;
}

wait_for_outbound_payment-Settles_example :
    Settles service (4 ∷ []) (wait_for_outbound_payment service (4 ∷ []) world).0
wait_for_outbound_payment-Settles_example =
    wait_for_outbound_payment-Settles service node-Clock (4 ∷ []) world

get_balance_exact_example : (get_balance service world).0 ≡ exact_balance 2500 40
get_balance_exact_example = get_balance_exact service world

-- A held payment under the hash of the preimage.
abbrev held_world : World Machine
held_world = record world {
  node = record machine {
    payments = payment_of (service.lib.sha256 preimage_bytes) preimage_bytes (some 1000) ∷ [];
  };
}

settle_hold_invoice-Claimed_example : Claimed service preimage_bytes held_world held_world
unfolding settle_hold_invoice parse_preimage hex_to_32 trim text_eq
settle_hold_invoice-Claimed_example =
    settle_hold_invoice-Claimed service preimage_bytes held_world held_world refl

abbrev closed_world : World Machine
closed_world = record world { node = record machine { channels = [] } }

close_channel-IsNamed_example :
    (c : ChannelDetails) × IsNamed service.lib (9 ∷ []) (service.node.list_channels world.node).0 c
    × (if false
        then service.node.force_close_channel c.user_channel_id c.counterparty_node_id
            (some (codes "closed via control API"))
            (service.node.list_channels world.node).1
        else service.node.close_channel c.user_channel_id c.counterparty_node_id
            (service.node.list_channels world.node).1)
      ≡ (ok tt, closed_world.node)
unfolding close_channel close_found find_channel has_id text_eq
close_channel-IsNamed_example = close_channel-IsNamed service (9 ∷ []) false world closed_world refl

network_stats-total_example :
    ((network_stats routed_graph).num_nodes ≡ 3)
    × ((network_stats routed_graph).num_channels ≡ 3)
    × ((network_stats routed_graph).total_capacity ≡ 3000)
    × ((network_stats routed_graph).max_channel_size ≡ 1000)
    × IsAverage
        (network_stats routed_graph).total_capacity
        3
        (network_stats routed_graph).avg_channel_size
    × ((network_stats routed_graph).avg_channel_size
        ≤ (network_stats routed_graph).max_channel_size)
network_stats-total_example = network_stats-total routed_graph

abbrev query : Query
query = record {
  from = some 10;
  until = none;
  limit = none;
  offset = none;
  unpaid = some true;
  direction = some outbound;
  payment_method = none;
}

abbrev two_payments : List PaymentDetails
two_payments = payment_of (1 ∷ []) [] (some 5) ∷ payment_of (2 ∷ []) [] none ∷ []

select_payments-IsNewestFirst_example : IsNewestFirst (select_payments query two_payments)
select_payments-IsNewestFirst_example = select_payments-IsNewestFirst query two_payments

select_payments-Parts_example :
    (left_out : List PaymentDetails) × Perm
      (select_payments query two_payments ++ left_out)
      two_payments
    × All (Meets query) (select_payments query two_payments)
    × All (λ p. ¬ Meets query p) left_out
select_payments-Parts_example = select_payments-Parts query two_payments refl refl

abbrev regtest_config : LdkServiceConfig
regtest_config = record {
  network = 82 ∷ [];
  bitcoind_rpc_host = 104 ∷ [];
  bitcoind_rpc_port = 18443;
  bitcoind_rpc_user = 117 ∷ [];
  bitcoind_rpc_password = 112 ∷ [];
  ldk_storage_dir = [];
  ldk_listen_addr = none;
  node_alias = none;
  signer_transport = [];
  signer_relay = none;
  signer_nsec = none;
  signer_pubkey = none;
}

parse_network-network_name_example :
    parse_network (record regtest_config { network = network_name signet }) ≡ ok signet
parse_network-network_name_example = parse_network-network_name regtest_config signet cc
