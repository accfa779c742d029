-- ===== src/Main/Setup.antt =====
-- What the service runs with when `main` (src/main.rs) comes to it.
use dln_node_knots.Prelude.{
  true, Option, none, some, List, [], ◌∷◌, ◌++◌, ◌≡◌, refl, is_some, ◌⊎◌, ap,
}
use dln_node_knots.Prelude.Outcome.{Outcome, ok, err, panic, out_of_fuel, ok_unique}
use dln_node_knots.Text.{Text, codes}
use dln_node_knots.Text.Number.{show_decimal}
use dln_node_knots.Ldk.Config.{LdkServiceConfig}
use dln_node_knots.Ldk.Start.{Crates, StartedService}
use dln_node_knots.Ldk.Start.Built.{IsBuilt}
use dln_node_knots.Main.{
  Config, BitcoindConfig, SignerConfig, ServeConfig, Nostr, or_panic, signer_transport,
}

-- Every text is the key that stands in its place.
abbrev pub AreOwners :
    {Owner : Type 0} → (Text → Outcome Text Owner) → List Text → List Owner → Type 0
AreOwners parse [] [] = Unit {0}
AreOwners parse (o ∷ os) (k ∷ ks) = (parse o ≡ ok k) × AreOwners parse os ks
AreOwners parse [] (k ∷ ks) = ⊥
AreOwners parse (o ∷ os) [] = ⊥

or_panic_ok : {E F A : Type 0} (r : Outcome E A) (a : A) → or_panic {F = F} r ≡ ok a → r ≡ ok a
or_panic_ok (ok b) a h = ap ok (ok_unique refl h)
or_panic_ok (err e) a h = cc
or_panic_ok panic a h = cc
or_panic_ok out_of_fuel a h = cc

-- The signer of a configuration: its own, or the embedded one.
abbrev pub IsSignerOf : Option SignerConfig → LdkServiceConfig → Type 0
IsSignerOf none cfg =
    (cfg.signer_transport ≡ codes "embedded")
    × (cfg.signer_relay ≡ none)
    × (cfg.signer_nsec ≡ none)
    × (cfg.signer_pubkey ≡ none)
IsSignerOf (some signer) cfg =
    (cfg.signer_transport ≡ signer.transport)
    × (cfg.signer_relay ≡ signer.relay)
    × (cfg.signer_nsec ≡ signer.nsec)
    × (cfg.signer_pubkey ≡ signer.signer_pubkey)

module _ {S NostrKeys Owner : Type 0} (nostr : Nostr S NostrKeys Owner) where
  -- The key of a text, or the one generated where the text does not parse.
  abbrev pub HasKey : Text → S → NostrKeys → Type 0
  HasKey private_key s keys =
      (nostr.parse_keys private_key ≡ ok keys)
      ⊎ ((e : Text) × (nostr.parse_keys private_key ≡ err e) × ((nostr.generate_keys s).0 ≡ keys))

module _ {S NostrKeys Owner Signer Transport Keys Builder Node : Type 0}
    (nostr : Nostr S NostrKeys Owner) (crates : Crates S Signer Transport Keys Builder Node)
    (config : Config) (s : S) where
  -- The settings of the node service that stand in the configuration, one by one.
  pub record IsTakenFrom (bitcoind : BitcoindConfig) (cfg : LdkServiceConfig) : Type 0 where
    pub network_is : cfg.network ≡ config.node.network
    pub host_is : cfg.bitcoind_rpc_host ≡ bitcoind.rpc_host
    pub port_is : cfg.bitcoind_rpc_port ≡ bitcoind.rpc_port
    pub user_is : cfg.bitcoind_rpc_user ≡ bitcoind.rpc_user
    pub password_is : cfg.bitcoind_rpc_password ≡ bitcoind.rpc_password
    pub storage_is : cfg.ldk_storage_dir ≡ config.node.data_dir
    pub listen_is :
        cfg.ldk_listen_addr ≡ some (codes "0.0.0.0:" ++ show_decimal config.node.listening_port)
    pub alias_is : cfg.node_alias ≡ config.node.alias
    pub signer_is : IsSignerOf config.signer cfg

  -- The owners are those that the configuration names, and no others; the relay and the alias are its
  -- relay and alias; the key is its key, or a new one if that does not parse; and the node was built
  -- and started with its settings.
  pub record IsSetUp (serve : ServeConfig NostrKeys Owner) (ldk : StartedService Keys Node)
      : Type 0 where
    pub keys_of_config : HasKey nostr config.nostr.private_key s serve.keys
    pub owners_of : AreOwners nostr.parse_owner config.nostr.owners serve.owners
    pub relays_of : serve.relays ≡ config.nostr.relay ∷ []
    pub alias_of : serve.alias ≡ config.node.alias
    pub bitcoind : BitcoindConfig
    pub bitcoind_of : config.bitcoind ≡ some bitcoind
    pub cfg : LdkServiceConfig
    pub cfg_of : IsTakenFrom bitcoind cfg
    pub before : S
    pub built : IsBuilt crates cfg before ldk
    pub signed : (config.signer ≡ none → is_some ldk.keys_manager ≡ true)
