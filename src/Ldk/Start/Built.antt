-- ===== src/Ldk/Start/Built.antt =====
-- What start_from_config (src/lightning/ldk_service.rs) has done when it succeeds, and its errors.
use dln_node_knots.Prelude.{
  not, Option, none, some, [], ◌∷◌, ◌≡◌, refl, ◌⊎◌, inl, inr, arith, is_some, Option-cases,
}
use dln_node_knots.Prelude.Outcome.{ok, err}
use dln_node_knots.Text.{Text, codes, text_eq, to_lowercase}
use dln_node_knots.Text.Equality.{text_eq_iff}
use dln_node_knots.Node.Types.{Network, SocketAddress, regtest, testnet, bitcoin, signet, unlisted}
use dln_node_knots.Ldk.Config.{
  LdkServiceConfig, validate, parse_network, parse_network_listed, Filled, IsNameOf,
}
use dln_node_knots.Ldk.Errors.{invalid_config}
use dln_node_knots.Ldk.Start.{
  Crates, StartedService, start_from_config, transport_of, vls_network, nostr_of, relay_required,
  nsec_required, signer_pubkey_required,
}

module _ {S Signer Transport Keys Builder Node : Type 0}
    (crates : Crates S Signer Transport Keys Builder Node) where
  -- The keys are set on a builder, for the signing and for the wallet, where there are any.
  abbrev pub HasKeys : Option Keys → Builder → Builder → Type 0
  HasKeys none before after = after ≡ before
  HasKeys (some keys) before after =
      after ≡ crates.set_custom_wallet keys (crates.set_custom_keys_interface keys before)

  -- The one address to listen on, where there is one.
  abbrev pub Listens : Option Text → Builder → Builder → Type 0
  Listens none before after = after ≡ before
  Listens (some text) before after =
      (address : SocketAddress) × (crates.parse_socket_address text ≡ ok address)
      × (crates.set_listening_addresses (address ∷ []) before ≡ ok after)

  abbrev pub HasAlias : Option Text → Builder → Builder → Type 0
  HasAlias none before after = after ≡ before
  HasAlias (some alias) before after = crates.set_node_alias alias before ≡ ok after

module _ {S Signer Transport Keys Builder Node : Type 0}
    (crates : Crates S Signer Transport Keys Builder Node) (cfg : LdkServiceConfig) (s : S) where
  -- The service runs a node that was built and started, from a configuration whose four required
  -- texts are more than white space: on the network that it names, in upper or lower case,
  -- with the host, port, user and password of its Bitcoin node, its storage, the keys of the signer
  -- unless the transport is "none", its address and its alias.
  pub record IsBuilt (n : StartedService Keys Node) : Type 0 where
    pub host_filled : Filled cfg.bitcoind_rpc_host
    pub user_filled : Filled cfg.bitcoind_rpc_user
    pub password_filled : Filled cfg.bitcoind_rpc_password
    pub storage_filled : Filled cfg.ldk_storage_dir
    pub network_is : IsNameOf n.network (to_lowercase cfg.network)
    pub signed : is_some n.keys_manager ≡ not (text_eq cfg.signer_transport (codes "none"))
    pub keyed : Builder
    pub listening : Builder
    pub builder : Builder
    pub keyed_is :
        HasKeys crates n.keys_manager
          (crates.set_storage_dir_path cfg.ldk_storage_dir (
            crates.set_chain_source_bitcoind_rpc cfg.bitcoind_rpc_host cfg.bitcoind_rpc_port
              cfg.bitcoind_rpc_user cfg.bitcoind_rpc_password
              (crates.set_network n.network crates.new_builder)))
          keyed
    pub listening_is : Listens crates cfg.ldk_listen_addr keyed listening
    pub alias_is : HasAlias crates cfg.node_alias listening builder
    pub before : S
    pub built : (crates.build builder before).0 ≡ ok n.node
    pub started : (crates.start n.node (crates.build builder before).1).0 ≡ ok tt

  vls_network_parsed :
      (name : Text) (n : Network) → parse_network cfg ≡ ok n → vls_network name n ≡ ok n
  unfolding vls_network
  vls_network_parsed name regtest h = refl
  vls_network_parsed name testnet h = refl
  vls_network_parsed name bitcoin h = refl
  vls_network_parsed name signet h = refl
  vls_network_parsed name unlisted h = absurd (parse_network_listed cfg unlisted h refl)

  -- One of the three settings that the transport "nostr" needs is missing.
  abbrev pub LacksNostr : Type 0
  LacksNostr = (cfg.signer_relay ≡ none) ⊎ (cfg.signer_nsec ≡ none) ⊎ (cfg.signer_pubkey ≡ none)

  nostr_of_missing :
      LacksNostr → (message : Text) × (nostr_of crates cfg s ≡ (err (invalid_config message), s))
  unfolding nostr_of
  nostr_of_missing missing = elim (Option-cases cfg.signer_relay) [
    | inl e ↦ (relay_required, ground (arith, e))
    | inr (relay, e) ↦ elim (Option-cases cfg.signer_nsec) [
      | inl d ↦ (nsec_required, ground (arith, e, d))
      | inr (nsec, d) ↦ elim (Option-cases cfg.signer_pubkey) [
        | inl b ↦ (signer_pubkey_required, ground (arith, e, d, b))
        | inr (key, b) ↦ absurd (ground (arith, e, d, b, missing))
      ]
    ]
  ]

  -- With the transport "nostr" and without one of the three settings that it needs, a configuration
  -- that is valid otherwise is refused, before anything is asked of the outside.
  pub start_from_config_nostr :
      (network : Network)
      → validate cfg ≡ ok tt
      → parse_network cfg ≡ ok network
      → cfg.signer_transport ≡ codes "nostr"
      → LacksNostr
      → (message : Text) × (start_from_config crates cfg s ≡ (err (invalid_config message), s))
  unfolding start_from_config transport_of
  start_from_config_nostr network valid is nostr missing =
      let (message, refused) = nostr_of_missing missing in
      (
        message,
        ground (
          arith,
          valid,
          is,
          vls_network_parsed cfg.network network is,
          text_eq_iff cfg.signer_transport (codes "nostr"),
          nostr,
          refused,
        ),
      )
