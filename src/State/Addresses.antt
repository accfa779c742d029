-- ===== src/State/Addresses.antt =====
-- src/state/address_store.rs: the on-chain addresses that this node has issued.
pub mod Received
use dln_node_knots.Prelude.{ℕ, Option, List, [], ◌∷◌, ◌++◌}
use dln_node_knots.Text.{Text}
use dln_node_knots.TextMap.{TextMap, get, or_insert, update, values}

pub record AddressTransaction : Type 0 where
  pub txid : Text
  pub amount_sats : ℕ
  pub timestamp : ℕ

pub record AddressRecord : Type 0 where
  pub address : Text
  pub transactions : List AddressTransaction

abbrev pub AddressStore : Type 0
AddressStore = TextMap AddressRecord

abbrev pub new_address : Text → AddressRecord
new_address address = record { address = address; transactions = [] }

unfoldable pub register_address : Text → AddressStore → AddressStore
register_address address m = or_insert address (new_address address) m

unfoldable pub get_address : Text → AddressStore → Option AddressRecord
get_address address m = get address m

unfoldable pub list_addresses : AddressStore → List AddressRecord
list_addresses m = values m

abbrev pub with_transaction : AddressTransaction → AddressRecord → AddressRecord
with_transaction t r = record r { transactions = r.transactions ++ t ∷ [] }

-- An address that was not registered is left out.
unfoldable pub record_transaction : Text → Text → ℕ → ℕ → AddressStore → AddressStore
record_transaction address txid amount_sats timestamp m =
    update address
      (with_transaction (record { txid = txid; amount_sats = amount_sats; timestamp = timestamp }))
      m

unfoldable pub clear : AddressStore → AddressStore
clear m = []
