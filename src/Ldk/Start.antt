-- ===== src/Ldk/Start.antt =====
-- `start_from_config` of src/lightning/ldk_service.rs: it chooses the signer, sets up the builder of
-- the node, builds the node and starts it. What it prints is left out.
pub mod Built
use dln_node_knots.Prelude.{Bool, not, Option, none, some, ℕ, List, [], ◌∷◌, ◌++◌, if◌then◌else◌}
use dln_node_knots.Prelude.Outcome.{Outcome, ok, err, ok_or, map_err, ◌>>=◌ as ◌>>=ᵒ◌}
use dln_node_knots.Prelude.Act.{Act, pure, lift, ◌>>=◌}
use dln_node_knots.Text.{Text, codes, text_eq, to_lowercase}
use dln_node_knots.Node.Types.{Network, SocketAddress, regtest, testnet, bitcoin, signet, unlisted}
use dln_node_knots.Ldk.{catch_as}
use dln_node_knots.Ldk.Config.{LdkServiceConfig, validate, parse_network}
use dln_node_knots.Ldk.Errors.{
  LdkServiceInitError, invalid_network, invalid_config, build_failed, start_failed,
  invalid_listening_address,
}

-- What the start uses of `ldk-node`, `ldk-vls2-client` and `ldk-vls2-signer`: `Signer`, `Transport`
-- and `Keys` (KeysManagerClient) of VLS, the `Builder`, and the `Node` that it builds. What may ask
-- the outside is an effect on `S`.
pub record Crates (S Signer Transport Keys Builder Node : Type 0) : Type 0 where
  pub parse_socket_address : Text → Outcome Text SocketAddress
  -- relay, nsec, public key of the signer
  pub nostr_transport : Text → Text → Text → S → Outcome Text Transport × S
  -- `EmbeddedSigner::new_with_protocol_version`, with its policy filters
  pub embedded_signer : Network → List Text → S → Outcome Text Signer × S
  pub null_transport : Signer → Transport
  pub keys_manager : Transport → Text → S → Keys × S
  pub new_builder : Builder
  pub set_network : Network → Builder → Builder
  -- host, port, user, password
  pub set_chain_source_bitcoind_rpc : Text → ℕ → Text → Text → Builder → Builder
  pub set_storage_dir_path : Text → Builder → Builder
  pub set_custom_keys_interface : Keys → Builder → Builder
  -- with `xpub()` and `bdk_signer()` of the keys
  pub set_custom_wallet : Keys → Builder → Builder
  pub set_listening_addresses : List SocketAddress → Builder → Outcome Text Builder
  pub set_node_alias : Text → Builder → Outcome Text Builder
  pub build : Builder → S → Outcome Text Node × S
  pub start : Node → S → Outcome Text (Unit {0}) × S

-- The service that was started.
pub record StartedService (Keys Node : Type 0) : Type 0 where
  pub node : Node
  pub network : Network
  pub keys_manager : Option Keys

-- `match network`: the networks that the signer has too.
unfoldable pub vls_network : Text → Network → Outcome LdkServiceInitError Network
vls_network name regtest = ok regtest
vls_network name testnet = ok testnet
vls_network name bitcoin = ok bitcoin
vls_network name signet = ok signet
vls_network name unlisted = err (invalid_network name)

abbrev pub required : Option Text → Text → Outcome LdkServiceInitError Text
required o message = ok_or o (invalid_config message)

abbrev pub relay_required : Text
relay_required = codes "signer.relay required for nostr transport"

abbrev pub nsec_required : Text
nsec_required = codes "signer.nsec required for nostr transport"

abbrev pub signer_pubkey_required : Text
signer_pubkey_required = codes "signer.signer_pubkey required for nostr transport"

abbrev pub policy_filters : List Text
policy_filters =
    codes "policy-commitment-htlc-routing-balance:warn" ∷ codes "policy-routing-balanced:warn" ∷ []

-- `cfg.signer_transport.as_str() != "none"`
unfoldable pub uses_vls : LdkServiceConfig → Bool
uses_vls cfg = not (text_eq cfg.signer_transport (codes "none"))

module _ {S Signer Transport Keys Builder Node : Type 0}
    (crates : Crates S Signer Transport Keys Builder Node) where
  abbrev try_effect :
      {A : Type 0}
      → (Text → LdkServiceInitError)
      → (S → Outcome Text A × S)
      → Act S LdkServiceInitError A
  try_effect f m s = let (r, s1) = m s in (map_err f r, s1)

  abbrev effect : {A : Type 0} → (S → A × S) → Act S LdkServiceInitError A
  effect m s = let (a, s1) = m s in (ok a, s1)

  -- The arm "nostr", and the arm of every other text.
  unfoldable pub nostr_of : LdkServiceConfig → Act S LdkServiceInitError Transport
  nostr_of cfg = do
    relay ← lift (required cfg.signer_relay relay_required)
    nsec ← lift (required cfg.signer_nsec nsec_required)
    signer_pubkey ← lift (required cfg.signer_pubkey signer_pubkey_required)
    try_effect (λ e. build_failed (codes "NostrTransport init: " ++ e))
        (crates.nostr_transport relay nsec signer_pubkey)

  unfoldable pub embedded_of : Network → Act S LdkServiceInitError Transport
  embedded_of network = do
    signer ←
        try_effect (λ e. build_failed (codes "VLS signer init: " ++ e))
          (crates.embedded_signer network policy_filters)
    pure (crates.null_transport signer)

  unfoldable pub transport_of : LdkServiceConfig → Network → Act S LdkServiceInitError Transport
  transport_of cfg network =
      if text_eq cfg.signer_transport (codes "nostr") then nostr_of cfg else embedded_of network

  -- `use_vls.then(…)`
  unfoldable pub new_keys : LdkServiceConfig → Transport → Act S LdkServiceInitError (Option Keys)
  new_keys cfg transport = do
    keys ← effect (crates.keys_manager transport (to_lowercase cfg.network))
    pure (some keys)

  unfoldable pub keys_of : LdkServiceConfig → Transport → Act S LdkServiceInitError (Option Keys)
  keys_of cfg transport = if uses_vls cfg then new_keys cfg transport else pure none

  -- Up to `if let Some(km) = &keys_manager { … }`.
  unfoldable pub base_builder : LdkServiceConfig → Network → Builder
  base_builder cfg network = crates.set_storage_dir_path cfg.ldk_storage_dir (
      crates.set_chain_source_bitcoind_rpc cfg.bitcoind_rpc_host cfg.bitcoind_rpc_port
        cfg.bitcoind_rpc_user cfg.bitcoind_rpc_password
        (crates.set_network network crates.new_builder))

  unfoldable pub with_keys : Option Keys → Builder → Builder
  with_keys none builder = builder
  with_keys (some km) builder =
      crates.set_custom_wallet km (crates.set_custom_keys_interface km builder)

  unfoldable pub with_listening : Option Text → Builder → Outcome LdkServiceInitError Builder
  with_listening none builder = ok builder
  with_listening (some addr) builder =
      map_err (λ e. invalid_listening_address addr) (crates.parse_socket_address addr)
      >>=ᵒ λ socket. map_err build_failed (crates.set_listening_addresses (socket ∷ []) builder)

  unfoldable pub with_alias : Option Text → Builder → Outcome LdkServiceInitError Builder
  with_alias none builder = ok builder
  with_alias (some alias) builder =
      map_err (λ e. build_failed (codes "invalid node alias: " ++ e))
        (crates.set_node_alias alias builder)

  -- From the builder on.
  unfoldable pub finish :
      LdkServiceConfig
      → Network
      → Option Keys
      → Act S LdkServiceInitError (StartedService Keys Node)
  finish cfg network keys = do
    listening ←
        lift (with_listening cfg.ldk_listen_addr (with_keys keys (base_builder cfg network)))
    builder ← lift (with_alias cfg.node_alias listening)
    node ← try_effect build_failed (crates.build builder)
    started ← try_effect start_failed (crates.start node)
    pure (record { node = node; network = network; keys_manager = keys })

  unfoldable pub start_from_config :
      LdkServiceConfig → Act S LdkServiceInitError (StartedService Keys Node)
  start_from_config cfg = do
    valid ← lift (validate cfg)
    network ← lift (parse_network cfg)
    signer_network ← lift (vls_network cfg.network network)
    transport ← transport_of cfg signer_network
    keys ← keys_of cfg transport
    finish cfg network keys
