-- ===== src/Examples/Samples.antt =====
-- A small node: payments succeed at once with a known preimage, and the clock moves with sleep.
use dln_node_knots.Prelude.{ℕ, zero, suc, ◌+◌, true, Option, none, some, List, [], ◌∷◌, reverse}
use dln_node_knots.Prelude.Outcome.{Outcome, ok, err}
use dln_node_knots.Prelude.Select.{find_by}
use dln_node_knots.Text.{Bytes, Text, codes, text_eq}
use dln_node_knots.Hex.{hex_string}
use dln_node_knots.Node.{Library, Node}
use dln_node_knots.Node.Types.{
  regtest, Invoice, IssuedInvoice, PaymentDetails, bolt11, outbound, PaymentStatus, ChannelDetails,
  ChannelConfig, Graph, GraphChannel, ChannelUpdate,
}
use dln_node_knots.Ldk.{LdkService, World}
use dln_node_knots.Events.{Event}
use dln_node_knots.Wallet.{Wallet}

pub record Machine : Type 0 where
  pub time : ℕ
  pub payments : List PaymentDetails
  pub channels : List ChannelDetails
  pub events : List Event

-- 32 bytes.
abbrev pub preimage_bytes : Bytes
preimage_bytes =
    33 ∷ 34 ∷ 35 ∷ 36 ∷ 37 ∷ 38 ∷ 39 ∷ 40 ∷ 41 ∷ 42 ∷ 43 ∷ 44 ∷ 45 ∷ 46 ∷ 47 ∷ 48 ∷ 49 ∷ 50 ∷ 51
    ∷ 52 ∷ 53 ∷ 54 ∷ 55 ∷ 56 ∷ 57 ∷ 58 ∷ 59 ∷ 60 ∷ 61 ∷ 62 ∷ 63 ∷ 64 ∷ []

abbrev pub payment_of : Bytes → Bytes → Option ℕ → PaymentDetails
payment_of id preimage amount = record {
  id = id;
  kind = bolt11 id (some preimage);
  amount_msat = amount;
  fee_paid_msat = some 7;
  direction = outbound;
  status = PaymentStatus.succeeded;
  latest_update_timestamp = 50;
}

abbrev pub config : ChannelConfig
config = record {
  forwarding_fee_base_msat = 1000;
  forwarding_fee_proportional_millionths = 1;
  other_settings = 5 ∷ [];
}

abbrev pub channel : ChannelDetails
channel = record {
  channel_id = 9 ∷ [];
  user_channel_id = 77;
  counterparty_node_id = 3 ∷ [];
  short_channel_id = some 1099511693313;
  funding_txo = none;
  channel_value_sats = 100000;
  outbound_capacity_msat = 60000000;
  inbound_capacity_msat = 40000000;
  inbound_htlc_minimum_msat = 1;
  inbound_htlc_maximum_msat = none;
  confirmations = some 6;
  is_channel_ready = true;
  is_usable = true;
  is_announced = true;
  config = config;
}

abbrev pub machine : Machine
machine = record { time = 100; payments = []; channels = channel ∷ []; events = [] }

abbrev parsed_invoice : Text → Outcome Text Invoice
parsed_invoice [] = err []
parsed_invoice (c ∷ s) = ok (record {
  payment_hash = [];
  amount_milli_satoshis = some 1000;
  payee = 3 ∷ [];
  encoded = c ∷ s;
})

abbrev pub library : Library
library = record {
  parse_public_key = λ t. ok t;
  show_public_key = λ k. k;
  node_id_of = λ k. k;
  show_node_id = λ k. k;
  parse_socket_address = λ t. ok t;
  show_socket_address = λ a. a;
  show_channel_id = λ b. b;
  parse_invoice = parsed_invoice;
  parse_offer = λ t. ok (record { id = t; encoded = t });
  parse_address = λ t. ok t;
  require_network = λ a n. ok a;
  new_description = λ t. ok t;
  sha256 = λ b. reverse b;
  sha256_text = λ b. hex_string (reverse b);
  hex_decode = λ t. ok t;
  hex_encode = λ b. hex_string b;
  parse_uri = λ t. err t;
  show_uri = λ u. codes "bitcoin:";
  json_str = λ j k. none;
}

abbrev issued : ℕ → IssuedInvoice
issued amount = record {
  payment_hash = codes "aa";
  amount_milli_satoshis = some amount;
  expires_at = some 3700;
  encoded = codes "lnbcrt1";
}

abbrev pub graph : Graph
graph = record {
  list_nodes = (1 ∷ []) ∷ (2 ∷ []) ∷ [];
  node = λ n. none;
  list_channels = [];
  channel = λ c. none;
}

-- The node is 1; a channel leads to 7 and one on to 3, with another, dearer one from 1 to 3.
abbrev policy : ℕ → ChannelUpdate
policy base = record {
  base_msat = base;
  proportional_millionths = 100;
  htlc_minimum_msat = 1;
  htlc_maximum_msat = 1_000_000;
  cltv_expiry_delta = 40;
  enabled = true;
  last_update = 0;
}

abbrev link : ℕ → ℕ → ℕ → Option GraphChannel
link a b base = some (record {
  node_one = a ∷ [];
  node_two = b ∷ [];
  capacity_sats = some 1000;
  one_to_two = some (policy base);
  two_to_one = none;
})

abbrev pub routed_channel : ℕ → Option GraphChannel
routed_channel zero = none
routed_channel (suc zero) = link 1 7 1000
routed_channel (suc (suc zero)) = link 7 3 1000
routed_channel (suc (suc (suc zero))) = link 1 3 5000
routed_channel (suc (suc (suc (suc n)))) = none

abbrev pub routed_graph : Graph
routed_graph = record {
  list_nodes = (1 ∷ []) ∷ (7 ∷ []) ∷ (3 ∷ []) ∷ [];
  node = λ n. none;
  list_channels = 1 ∷ 2 ∷ 3 ∷ [];
  channel = routed_channel;
}

abbrev pub node : Node Machine
node = record {
  our_node_id = λ s. (3 ∷ [], s);
  best_block_height = λ s. (800, s);
  sync_wallets = λ s. (ok tt, s);
  list_balances =
      λ s. (record { spendable_onchain_balance_sats = 2500; total_lightning_balance_sats = 40 }, s);
  new_address = λ s. (ok (codes "bcrt1p"), s);
  receive = λ amount desc expiry s. (ok (issued amount), s);
  receive_for_hash = λ amount desc expiry hash s. (ok (issued amount), s);
  claim_for_hash = λ hash amount preimage s. (ok tt, s);
  fail_for_hash = λ hash s. (ok tt, s);
  payment = λ id s. (find_by (λ (p : PaymentDetails). text_eq p.id id) s.payments, s);
  list_payments = λ s. (s.payments, s);
  send = λ invoice s. (
    ok (4 ∷ []),
    record s { payments = payment_of (4 ∷ []) (171 ∷ []) (some 1000) ∷ s.payments },
  );
  send_using_amount = λ invoice amount s. (
    ok (4 ∷ []),
    record s { payments = payment_of (4 ∷ []) (171 ∷ []) (some amount) ∷ s.payments },
  );
  send_spontaneous = λ amount key s. (err [], s);
  send_offer = λ offer note s. (err [], s);
  receive_offer = λ amount desc expiry s. (ok (codes "lno1"), s);
  send_to_address = λ address sats s. (ok (codes "txid"), s);
  list_channels = λ s. (s.channels, s);
  open_channel = λ key address sats push s. (ok tt, s);
  close_channel = λ id key s. (ok tt, record s { channels = [] });
  force_close_channel = λ id key reason s. (ok tt, record s { channels = [] });
  update_channel_config =
      λ id key c s. (ok tt, record s { channels = record channel { config = c } ∷ [] });
  connect = λ key address s. (ok tt, s);
  disconnect = λ key s. (ok tt, s);
  list_peers = λ s. ([], s);
  stop = λ s. (ok tt, s);
  network_graph = λ s. (graph, s);
  channel_ready = λ id s. (ok tt, s);
  env_var = λ key s. (none, s);
  system_time = λ s. (s.time, s);
  instant = λ s. (s.time, s);
  sleep = λ n s. (tt, record s { time = s.time + n });
}

abbrev pub service : LdkService Machine
service = record { node = node; lib = library; network = regtest; has_keys_manager = true }

abbrev pub wallet : Wallet Machine
wallet = record { ldk = service; alias = none; methods = [] }

abbrev pub world : World Machine
world = record { node = machine; offers = []; addresses = []; forwards = [] }

-- The same service on the graph of three nodes.
abbrev pub routing_service : LdkService Machine
routing_service = record service {
  node = record node { our_node_id = λ s. (1 ∷ [], s); network_graph = λ s. (routed_graph, s) };
}

abbrev pub routing_wallet : Wallet Machine
routing_wallet = record wallet { ldk = routing_service }
