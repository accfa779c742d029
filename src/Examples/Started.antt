-- ===== src/Examples/Started.antt =====
-- The theorems on the start of the node, on crates whose builder is the list of what it was given.
use dln_node_knots.Prelude.{List, [], ◌∷◌, ◌++◌, none, some, ◌≡◌, refl, inl, inr, false}
use dln_node_knots.Prelude.Outcome.{Outcome, ok, err}
use dln_node_knots.Text.{Text, codes, text_eq, trim, trim_start, trim_back, to_lowercase}
use dln_node_knots.Node.Types.{regtest}
use dln_node_knots.Ldk.Config.{LdkServiceConfig, validate, parse_network}
use dln_node_knots.Ldk.Errors.{invalid_config}
use dln_node_knots.Ldk.Start.{Crates, StartedService, start_from_config, keys_of}
use dln_node_knots.Ldk.Start.Built.{start_from_config_nostr}
use dln_node_knots.Main.{Config, Nostr, ServeConfig, signer_transport, keys_of as main_keys}

abbrev crates_with : Outcome Text Text → Crates (Unit {0}) Text Text Text (List Text) (List Text)
crates_with signer = record {
  parse_socket_address = λ t. ok t;
  nostr_transport = λ relay nsec key s. (ok relay, s);
  embedded_signer = λ network filters s. (signer, s);
  null_transport = λ t. t;
  keys_manager = λ t name s. (name, s);
  new_builder = [];
  set_network = λ network b. b;
  set_chain_source_bitcoind_rpc = λ host port user password b. host ∷ b;
  set_storage_dir_path = λ dir b. dir ∷ b;
  set_custom_keys_interface = λ keys b. keys ∷ b;
  set_custom_wallet = λ keys b. b;
  set_listening_addresses = λ addresses b. ok (addresses ++ b);
  set_node_alias = λ alias b. ok (alias ∷ b);
  build = λ b s. (ok b, s);
  start = λ n s. (ok tt, s);
}

abbrev crates : Crates (Unit {0}) Text Text Text (List Text) (List Text)
crates = crates_with (ok [])

abbrev ldk_cfg : LdkServiceConfig
ldk_cfg = record {
  network = codes "regtest";
  bitcoind_rpc_host = codes "host";
  bitcoind_rpc_port = 18443;
  bitcoind_rpc_user = codes "user";
  bitcoind_rpc_password = codes "password";
  ldk_storage_dir = codes "dir";
  ldk_listen_addr = none;
  node_alias = some (codes "knots");
  signer_transport = codes "embedded";
  signer_relay = none;
  signer_nsec = none;
  signer_pubkey = none;
}

abbrev built_service : StartedService Text (List Text)
built_service = record {
  node = codes "knots" ∷ codes "regtest" ∷ codes "dir" ∷ codes "host" ∷ [];
  network = regtest;
  keys_manager = some (codes "regtest");
}

abbrev nostr_cfg : LdkServiceConfig
nostr_cfg = record ldk_cfg {
  signer_transport = codes "nostr";
  signer_relay = some (codes "wss://relay");
}

start_from_config_nostr_example :
    (message : Text) × (start_from_config crates nostr_cfg tt ≡ (err (invalid_config message), tt))
unfolding validate parse_network codes trim trim_start trim_back to_lowercase text_eq
start_from_config_nostr_example =
    start_from_config_nostr crates nostr_cfg tt regtest refl refl refl (inr (inl refl))

abbrev nostr : Nostr (Unit {0}) Text Text
nostr = record {
  parse_keys = λ t. ok t;
  generate_keys = λ s. ([], s);
  to_bech32 = λ k. ok k;
  parse_owner = λ t. ok t;
}

abbrev node_config : Config
node_config = record {
  node = record {
    network = codes "regtest";
    listening_port = 9735;
    data_dir = codes "dir";
    alias = some (codes "knots");
  };
  nostr = record {
    relay = codes "wss://relay";
    private_key = codes "nsec";
    owners = codes "npub" ∷ [];
  };
  wallet = record {
    max_channel_size_sats = 1000000;
    min_channel_size_sats = 20000;
    auto_accept_channels = false;
  };
  bitcoind = some (record {
    rpc_host = codes "host";
    rpc_port = 18443;
    rpc_user = codes "user";
    rpc_password = codes "password";
  });
  signer = none;
}

abbrev serve_config : ServeConfig Text Text
serve_config = record {
  keys = codes "nsec";
  relays = codes "wss://relay" ∷ [];
  owners = codes "npub" ∷ [];
  alias = some (codes "knots");
}

abbrev main_service : StartedService Text (List Text)
main_service = record built_service {
  node = codes "knots" ∷ codes "0.0.0.0:9735" ∷ codes "regtest" ∷ codes "dir" ∷ codes "host" ∷ [];
}
