-- ===== src/Main.antt =====
-- `main` of src/main.rs, from the configuration that was read to the service that runs: the keys,
-- the owners, and the configuration of the node service. What it prints is left out.
pub mod Setup
use dln_node_knots.Prelude.{
  ℕ, Bool, Option, none, some, List, [], ◌∷◌, ◌++◌, unwrap_or, map_option, and_then,
}
use dln_node_knots.Prelude.Outcome.{Outcome, ok, err, panic, out_of_fuel, ◌>>=◌ as ◌>>=ᵒ◌}
use dln_node_knots.Prelude.Act.{Act, pure, lift, ◌>>=◌}
use dln_node_knots.Text.{Text, codes}
use dln_node_knots.Text.Number.{show_decimal}
use dln_node_knots.Ldk.Config.{LdkServiceConfig}
use dln_node_knots.Ldk.Errors.{LdkServiceInitError}
use dln_node_knots.Ldk.Start.{Crates, StartedService, start_from_config}

pub record NodeConfig : Type 0 where
  pub network : Text
  pub listening_port : ℕ
  pub data_dir : Text
  pub alias : Option Text

pub record NostrConfig : Type 0 where
  pub relay : Text
  pub private_key : Text
  pub owners : List Text

pub record WalletConfig : Type 0 where
  pub max_channel_size_sats : ℕ
  pub min_channel_size_sats : ℕ
  pub auto_accept_channels : Bool

pub record BitcoindConfig : Type 0 where
  pub rpc_host : Text
  pub rpc_port : ℕ
  pub rpc_user : Text
  pub rpc_password : Text

pub record SignerConfig : Type 0 where
  pub transport : Text
  pub relay : Option Text
  pub nsec : Option Text
  pub signer_pubkey : Option Text

pub record Config : Type 0 where
  pub node : NodeConfig
  pub nostr : NostrConfig
  pub wallet : WalletConfig
  pub bitcoind : Option BitcoindConfig
  pub signer : Option SignerConfig

-- `service::NodeConfig`
pub record ServeConfig (NostrKeys Owner : Type 0) : Type 0 where
  pub keys : NostrKeys
  pub relays : List Text
  pub owners : List Owner
  pub alias : Option Text

-- What is used of `nostr-sdk`.
pub record Nostr (S NostrKeys Owner : Type 0) : Type 0 where
  pub parse_keys : Text → Outcome Text NostrKeys
  pub generate_keys : S → NostrKeys × S
  pub to_bech32 : NostrKeys → Outcome Text Text
  pub parse_owner : Text → Outcome Text Owner

-- `o.expect(…)` and `r.unwrap_or_else(|e| panic!(…))`
abbrev pub expect : {E A : Type 0} → Option A → Outcome E A
expect none = panic
expect (some a) = ok a

abbrev pub or_panic : {E F A : Type 0} → Outcome E A → Outcome F A
or_panic (ok a) = ok a
or_panic (err e) = panic
or_panic panic = panic
or_panic out_of_fuel = out_of_fuel

unfoldable pub signer_transport : Option SignerConfig → Text
signer_transport signer =
    unwrap_or (map_option (λ (s : SignerConfig). s.transport) signer) (codes "embedded")

unfoldable pub ldk_config : Config → BitcoindConfig → LdkServiceConfig
ldk_config config bitcoind = record {
  network = config.node.network;
  bitcoind_rpc_host = bitcoind.rpc_host;
  bitcoind_rpc_port = bitcoind.rpc_port;
  bitcoind_rpc_user = bitcoind.rpc_user;
  bitcoind_rpc_password = bitcoind.rpc_password;
  ldk_storage_dir = config.node.data_dir;
  ldk_listen_addr = some (codes "0.0.0.0:" ++ show_decimal config.node.listening_port);
  node_alias = config.node.alias;
  signer_transport = signer_transport config.signer;
  signer_relay = and_then config.signer (λ (s : SignerConfig). s.relay);
  signer_nsec = and_then config.signer (λ (s : SignerConfig). s.nsec);
  signer_pubkey = and_then config.signer (λ (s : SignerConfig). s.signer_pubkey);
}

module _ {S NostrKeys Owner : Type 0} (nostr : Nostr S NostrKeys Owner) where
  -- `.map(|o| PublicKey::parse(o).unwrap_or_else(…)).collect()`
  unfoldable pub parse_owners : List Text → Outcome Text (List Owner)
  parse_owners [] = ok []
  parse_owners (o ∷ os) = or_panic (nostr.parse_owner o) >>=ᵒ λ owner.
      parse_owners os >>=ᵒ λ owners. ok (owner ∷ owners)

  -- A key that does not parse is replaced by a new one.
  unfoldable pub new_keys : Act S Text NostrKeys
  new_keys s =
      let (keys, s1) = nostr.generate_keys s in (nostr.to_bech32 keys >>=ᵒ λ shown. ok keys, s1)

  unfoldable pub keys_of : Text → Act S Text NostrKeys
  keys_of private_key = elim (nostr.parse_keys private_key) [
    | ok keys ↦ pure keys
    | err e ↦ new_keys
    | panic ↦ lift panic
    | out_of_fuel ↦ lift out_of_fuel
  ]

module _ {NostrKeys Owner Keys Node : Type 0} where
  -- The arguments of `service::run`.
  abbrev pub served_with :
      Config
      → NostrKeys
      → List Owner
      → StartedService Keys Node
      → ServeConfig NostrKeys Owner × StartedService Keys Node
  served_with config keys owners ldk = (
    record {
      keys = keys;
      relays = config.nostr.relay ∷ [];
      owners = owners;
      alias = config.node.alias;
    },
    ldk,
  )

module _ {S NostrKeys Owner Signer Transport Keys Builder Node : Type 0}
    (nostr : Nostr S NostrKeys Owner) (crates : Crates S Signer Transport Keys Builder Node) where
  -- `LdkService::start_from_config(&ldk_cfg).expect(…)`
  abbrev pub started : LdkServiceConfig → Act S Text (StartedService Keys Node)
  started cfg s = let (r, s1) = start_from_config crates cfg s in (or_panic r, s1)

  unfoldable pub main : Config → Act S Text (ServeConfig NostrKeys Owner × StartedService Keys Node)
  main config = do
    keys ← keys_of nostr config.nostr.private_key
    owners ← lift (parse_owners nostr config.nostr.owners)
    bitcoind ← lift (expect config.bitcoind)
    ldk ← started (ldk_config config bitcoind)
    pure (served_with config keys owners ldk)
