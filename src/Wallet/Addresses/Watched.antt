-- ===== src/Wallet/Addresses/Watched.antt =====
-- make_new_address, lookup_address and list_addresses of src/wallet.rs, together.
use dln_node_knots.Prelude.{
  ℕ, ◌+◌, ◌<◌, ◌≤◌, Option, none, some, List, [], ◌∷◌, ◌≡◌, refl, subst, arith, inl, inr, ◌⊎◌, All,
  if◌then◌else◌, Bool-cases, or_else, wrap64, u64_size, map, ltb,
}
use dln_node_knots.Prelude.Select.{Has}
use dln_node_knots.Prelude.Outcome.{ok, Outcome-cases}
use dln_node_knots.Text.{Text}
use dln_node_knots.Text.Equality.{text_eq_refl}
use dln_node_knots.State.Addresses.{
  AddressStore, AddressRecord, AddressTransaction, get_address, register_address, new_address,
}
use dln_node_knots.State.Addresses.Received.{register_address_lem}
use dln_node_knots.Ldk.{World}
use dln_node_knots.Ldk.Send
use dln_node_knots.Wallet.{Wallet}
use dln_node_knots.Wallet.Addresses.{
  make_new_address, lookup_address, address_response, MakeNewAddressResponse, asks_other_type,
  LookupAddressResponse, ListedTransaction, unconfirmed, earliest, earliest_from, received_sats,
  listed_address,
}

get-register :
    (address : Text) (m : AddressStore)
    → get_address address (register_address address m)
      ≡ or_else (get_address address m) (some (new_address address))
get-register address m =
    ground (arith, register_address_lem address address m, text_eq_refl address)

-- The record that a table has for an address, or a fresh one.
abbrev pub record_or_new : Text → AddressStore → AddressRecord
record_or_new address m = elim (get_address address m) [
  | some rec ↦ rec
  | none ↦ record { address = address; transactions = [] }
]

-- The sats of all transactions.
abbrev pub total_sats : List AddressTransaction → ℕ
total_sats [] = 0
total_sats (t ∷ ts) = t.amount_sats + total_sats ts

received_sats-total :
    (acc : ℕ) (ts : List AddressTransaction)
    → acc < u64_size
    → received_sats acc ts ≡ wrap64 (acc + total_sats ts)
unfolding received_sats
received_sats-total acc [] h = omega arith
received_sats-total acc (t ∷ ts) h =
    omega (arith, received_sats-total (wrap64 (acc + t.amount_sats)) ts (omega arith))

-- The transactions are listed one by one, in order, as not confirmed.
abbrev pub AreListed : List AddressTransaction → List ListedTransaction → Type 0
AreListed [] [] = Unit {0}
AreListed [] (l ∷ ls) = ⊥
AreListed (t ∷ ts) [] = ⊥
AreListed (t ∷ ts) (l ∷ ls) =
    ((l.txid ≡ t.txid)
      × (l.amount_sats ≡ t.amount_sats)
      × (l.timestamp ≡ t.timestamp)
      × (l.confirmations ≡ 0))
    × AreListed ts ls

-- The response has the address of the record, the sum of its sats modulo 2 ^ 64, and its transactions.
pub record IsReported (rec : AddressRecord) (res : LookupAddressResponse) : Type 0 where
  pub address_is : res.address ≡ rec.address
  pub total_is : res.total_received_sats ≡ wrap64 (total_sats rec.transactions)
  pub transactions_are : AreListed rec.transactions res.transactions

map-AreListed : (ts : List AddressTransaction) → AreListed ts (map unconfirmed ts)
map-AreListed [] = tt
map-AreListed (t ∷ ts) = ((refl, refl, refl, refl), map-AreListed ts)

address_response-IsReported : (rec : AddressRecord) → IsReported rec (address_response rec)
unfolding address_response
address_response-IsReported rec = record {
  address_is = refl;
  total_is = omega (arith, received_sats-total 0 rec.transactions (omega arith));
  transactions_are = map-AreListed rec.transactions;
}

module _ {S : Type 0} (wallet : Wallet S) where
  -- When the wallet makes an address, looking it up right afterwards succeeds and changes nothing:
  -- it answers with what was received there before, or with nothing where the address is new: the
  -- sum of the sats modulo 2 ^ 64, and the transactions in order.
  pub lookup_address-make_new_address :
      (address_type : Option Text) (w w' : World S) (made : MakeNewAddressResponse)
      → make_new_address wallet address_type w ≡ (ok made, w')
      → (lookup_address wallet made.address w'
          ≡ (ok (address_response (record_or_new made.address w.addresses)), w'))
        × IsReported
            (record_or_new made.address w.addresses)
            (address_response (record_or_new made.address w.addresses))
  unfolding make_new_address lookup_address Send.new_onchain_address
  lookup_address-make_new_address address_type w w' made h =
      elim (Bool-cases (asks_other_type address_type)) [
        | inl refused ↦ absurd (ground arith)
        | inr accepted ↦ elim (Outcome-cases (wallet.ldk.node.new_address w.node).0) [
          | inl failed ↦ absurd (ground arith)
          | inr (address, e) ↦ (
            ground (arith, get-register address w.addresses),
            address_response-IsReported (record_or_new made.address w.addresses),
          )
        ]
      ]

earliest_from-le :
    (least : ℕ) (ts : List AddressTransaction)
    → (earliest_from least ts ≤ least) × All (λ t. earliest_from least ts ≤ t.timestamp) ts
unfolding earliest_from
earliest_from-le least [] = (omega arith, tt)
earliest_from-le least (t ∷ ts) =
    let (below, all_below) =
      earliest_from-le (if ltb t.timestamp least then t.timestamp else least) ts in
    (ground arith, (ground arith, all_below))

earliest_from-Has :
    (least : ℕ) (ts : List AddressTransaction)
    → (earliest_from least ts ≡ least) ⊎ Has (earliest_from least ts) (map (λ t. t.timestamp) ts)
unfolding earliest_from
earliest_from-Has least [] = inl refl
earliest_from-Has least (t ∷ ts) =
    let IsThere : ℕ → Type 0 = λ n. (n ≡ least) ⊎ Has n (t.timestamp ∷ map (λ u. u.timestamp) ts) in
    elim (Bool-cases (ltb t.timestamp least)) [
      | inl earlier ↦
          let e : earliest_from t.timestamp ts ≡ earliest_from least (t ∷ ts) = rw earlier refl in
          subst IsThere e (inr (earliest_from-Has t.timestamp ts))
      | inr later ↦
          let e : earliest_from least ts ≡ earliest_from least (t ∷ ts) = rw later refl in
          subst IsThere e (elim (earliest_from-Has least ts) [
            | inl same ↦ inl same
            | inr there ↦ inr (inr there)
          ])
    ]

-- When the first payment to an address came: at one of its payments, and none is earlier.
abbrev pub IsEarliest : ℕ → List AddressTransaction → Type 0
IsEarliest time [] = time ≡ 0
IsEarliest time ts = Has time (map (λ t. t.timestamp) ts) × All (λ t. time ≤ t.timestamp) ts

earliest-IsEarliest : (ts : List AddressTransaction) → IsEarliest (earliest ts) ts
unfolding earliest
earliest-IsEarliest [] = refl
earliest-IsEarliest (t ∷ ts) = (earliest_from-Has t.timestamp ts, earliest_from-le t.timestamp ts)

-- An address is listed with the sum of what it received, modulo 2 ^ 64, and dated by the earliest
-- payment to it, or by zero where there is none.
listed_address-IsEarliest :
    (a : AddressRecord)
    → ((listed_address a).total_received_sats ≡ wrap64 (total_sats a.transactions))
      × IsEarliest (listed_address a).created_at a.transactions
unfolding listed_address
listed_address-IsEarliest a = (
  omega (arith, received_sats-total 0 a.transactions (omega arith)),
  earliest-IsEarliest a.transactions,
)
