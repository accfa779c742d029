-- ===== src/State/Addresses/Received.antt =====
-- Sequences of calls of src/state/address_store.rs.
use dln_node_knots.Prelude.{
  some, List, [], ◌∷◌, ◌++◌, ◌≡◌, refl, arith, if◌then◌else◌, append_assoc, append-nil, or_else,
}
use dln_node_knots.Text.{Text, text_eq}
use dln_node_knots.Text.Equality.{text_eq_iff}
use dln_node_knots.TextMap.Laws.{get-update, get-or_insert}
use dln_node_knots.State.Addresses.{
  AddressTransaction, AddressRecord, AddressStore, new_address, register_address, get_address,
  record_transaction, with_transaction,
}

-- Registering an address again does not reset it: it keeps the transactions it had, an address
-- that is new has none, and no other address changes.
pub register_address_lem :
    (address other : Text) (m : AddressStore)
    → get_address other (register_address address m) ≡ (
        if text_eq address other
        then or_else (get_address address m) (some (new_address address))
        else get_address other m)
unfolding get_address register_address
register_address_lem address other m = get-or_insert address other (new_address address) m

-- What happens to the store: an address is issued, or a transaction is seen.
pub data Event : Type 0 where
  issued : Text → Event
  seen : Text → AddressTransaction → Event

pub step : AddressStore → Event → AddressStore
step m (issued address) = register_address address m
step m (seen address t) = record_transaction address t.txid t.amount_sats t.timestamp m

pub run : AddressStore → List Event → AddressStore
run m [] = m
run m (e ∷ es) = run (step m e) es

abbrev pub seen_at : Text → List Event → List AddressTransaction
seen_at address [] = []
seen_at address (issued other ∷ es) = seen_at address es
seen_at address (seen other t ∷ es) =
    if text_eq other address then t ∷ seen_at address es else seen_at address es

get-step :
    (address : Text) (m : AddressStore) (e : Event) (r : AddressRecord)
    → get_address address m ≡ some r
    → get_address address (step m e)
      ≡ some (record r { transactions = r.transactions ++ seen_at address (e ∷ []) })
unfolding step get_address register_address record_transaction
get-step address m (issued other) r h = ground (
  arith,
  get-or_insert other address (new_address other) m,
  text_eq_iff other address,
  append-nil r.transactions,
)
get-step address m (seen other t) r h = ground (
  arith,
  get-update other address (with_transaction t) m,
  text_eq_iff other address,
  append-nil r.transactions,
)

seen_at-cons :
    (address : Text) (e : Event) (es : List Event)
    → seen_at address (e ∷ es) ≡ seen_at address (e ∷ []) ++ seen_at address es
seen_at-cons address (issued other) es = refl
seen_at-cons address (seen other t) es = ground arith

-- A registered address stays registered, and after any events its transactions are those that it
-- had, followed by those seen at it, in their order.
get_address-run :
    (address : Text) (es : List Event) (m : AddressStore) (r : AddressRecord)
    → get_address address m ≡ some r
    → get_address address (run m es)
      ≡ some (record r { transactions = r.transactions ++ seen_at address es })
unfolding run
get_address-run address [] m r h = rw append-nil h
get_address-run address (e ∷ es) m r h =
    rw
      (
        seen_at-cons address e es,
        ← append_assoc r.transactions (seen_at address (e ∷ [])) (seen_at address es),
      )
      (get_address-run address es (step m e)
        (record r { transactions = r.transactions ++ seen_at address (e ∷ []) })
        (get-step address m e r h))
