-- ===== src/Ldk/Config.antt =====
-- `LdkServiceConfig` of src/lightning/ldk_service.rs.
use dln_node_knots.Prelude.{ℕ, false, ◌||◌, ◌⊎◌, Option, ◌≡◌, ◌≢◌, refl, ◌↔◌, arith, if◌then◌else◌}
use dln_node_knots.Prelude.Outcome.{Outcome, ok, err, ◌>>=◌}
use dln_node_knots.Text.{Text, codes, text_eq, trim, is_empty, to_lowercase}
use dln_node_knots.Text.Equality.{text_eq_iff}
use dln_node_knots.Node.Types.{Network, regtest, testnet, bitcoin, signet, unlisted}
use dln_node_knots.Ldk.Errors.{LdkServiceInitError, invalid_network, invalid_config}

pub record LdkServiceConfig : Type 0 where
  pub network : Text
  pub bitcoind_rpc_host : Text
  pub bitcoind_rpc_port : ℕ
  pub bitcoind_rpc_user : Text
  pub bitcoind_rpc_password : Text
  pub ldk_storage_dir : Text
  pub ldk_listen_addr : Option Text
  pub node_alias : Option Text
  pub signer_transport : Text
  pub signer_relay : Option Text
  pub signer_nsec : Option Text
  pub signer_pubkey : Option Text

network_of : Text → Outcome LdkServiceInitError Network
network_of name =
    if text_eq name (codes "regtest")
    then ok regtest
    else if text_eq name (codes "testnet")
    then ok testnet
    else if text_eq name (codes "bitcoin") || text_eq name (codes "mainnet")
    then ok bitcoin
    else if text_eq name (codes "signet")
    then ok signet
    else err (invalid_network name)

unfoldable pub parse_network : LdkServiceConfig → Outcome LdkServiceInitError Network
unfolding network_of
parse_network cfg = network_of (to_lowercase cfg.network)

require_text : Text → Text → Outcome LdkServiceInitError (Unit {0})
require_text value message = if is_empty (trim value) then err (invalid_config message) else ok tt

unfoldable pub validate : LdkServiceConfig → Outcome LdkServiceInitError (Unit {0})
unfolding require_text
validate cfg = do
  host ← require_text cfg.bitcoind_rpc_host (codes "bitcoind_rpc_host must not be empty")
  user ← require_text cfg.bitcoind_rpc_user (codes "bitcoind_rpc_user must not be empty")
  password ←
      require_text cfg.bitcoind_rpc_password (codes "bitcoind_rpc_password must not be empty")
  require_text cfg.ldk_storage_dir (codes "ldk_storage_dir must not be empty")

-- `LdkService::network`
unfoldable pub network_name : Network → Text
network_name regtest = codes "regtest"
network_name testnet = codes "testnet"
network_name bitcoin = codes "bitcoin"
network_name signet = codes "signet"
network_name unlisted = codes "unknown"

abbrev pub Filled : Text → Type 0
Filled s = is_empty (trim s) ≡ false

-- A configuration is valid exactly when its four required texts are more than white space.
pub validate_iff :
    (cfg : LdkServiceConfig)
    → (validate cfg ≡ ok tt) ↔ (
        Filled cfg.bitcoind_rpc_host
        × Filled cfg.bitcoind_rpc_user
        × Filled cfg.bitcoind_rpc_password
        × Filled cfg.ldk_storage_dir)
unfolding validate
validate_iff cfg = (λ h. ground arith, λ h. ground arith)

-- A configuration with the name of a network that the node has is read back as that network.
pub parse_network-network_name :
    (cfg : LdkServiceConfig) (n : Network)
    → n ≢ unlisted
    → parse_network (record cfg { network = network_name n }) ≡ ok n
unfolding parse_network network_name to_lowercase text_eq codes
parse_network-network_name cfg regtest h = refl
parse_network-network_name cfg testnet h = refl
parse_network-network_name cfg bitcoin h = refl
parse_network-network_name cfg signet h = refl
parse_network-network_name cfg unlisted h = absurd (h refl)

-- The network that a name in lower case is for.
abbrev pub IsNameOf : Network → Text → Type 0
IsNameOf regtest name = name ≡ codes "regtest"
IsNameOf testnet name = name ≡ codes "testnet"
IsNameOf bitcoin name = (name ≡ codes "bitcoin") ⊎ (name ≡ codes "mainnet")
IsNameOf signet name = name ≡ codes "signet"
IsNameOf unlisted name = ⊥

network_of-IsNameOf : (n : Network) (name : Text) → network_of name ≡ ok n → IsNameOf n name
unfolding network_of
network_of-IsNameOf regtest name h = ground (arith, h, text_eq_iff name (codes "regtest"))
network_of-IsNameOf testnet name h = ground (arith, h, text_eq_iff name (codes "testnet"))
network_of-IsNameOf bitcoin name h =
    ground (arith, h, text_eq_iff name (codes "bitcoin"), text_eq_iff name (codes "mainnet"))
network_of-IsNameOf signet name h = ground (arith, h, text_eq_iff name (codes "signet"))
network_of-IsNameOf unlisted name h = ground (arith, h)

pub parse_network-IsNameOf :
    (cfg : LdkServiceConfig) (n : Network)
    → parse_network cfg ≡ ok n
    → IsNameOf n (to_lowercase cfg.network)
unfolding parse_network
parse_network-IsNameOf cfg n h = network_of-IsNameOf n (to_lowercase cfg.network) h

-- The networks that are parsed are listed.
pub parse_network_listed :
    (cfg : LdkServiceConfig) (n : Network) → parse_network cfg ≡ ok n → n ≢ unlisted
unfolding parse_network network_of
parse_network_listed cfg n h e = ground (arith, h, e)
