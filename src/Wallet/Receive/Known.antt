-- ===== src/Wallet/Receive/Known.antt =====
-- Offers and addresses that the tables know, and the instructions of a URI.
use dln_node_knots.Prelude.{
  ℕ, Bool, true, ◌||◌, Option, none, some, List, [], ◌∷◌, ◌++◌, ◌≡◌, refl, arith, All, is_some,
  head?,
}
use dln_node_knots.Prelude.Act.{}
use dln_node_knots.Text.{Bytes, Text}
use dln_node_knots.Text.Equality.{text_eq_iff, text_eq_refl}
use dln_node_knots.TextMap.Laws.{get-insert}
use dln_node_knots.State.Offers.{OfferStore, get_offer, insert_offer, new_offer}
use dln_node_knots.State.Addresses.{AddressStore, get_address, register_address}
use dln_node_knots.State.Addresses.Received.{register_address_lem}
use dln_node_knots.Node.Types.{Uri, Address}
use dln_node_knots.Ldk.{LdkService, World}
use dln_node_knots.Ldk.Invoices
use dln_node_knots.Ldk.Invoices.{LdkInvoiceResult}
use dln_node_knots.Nnc.{}
use dln_node_knots.Wallet.Addresses.{}
use dln_node_knots.Wallet.Receive.{}

abbrev pub IsKnownOffer : OfferStore → Text → Type 0
IsKnownOffer m offer = is_some (get_offer offer m) ≡ true

abbrev pub IsKnownAddress : AddressStore → Option Text → Type 0
IsKnownAddress m none = Unit {0}
IsKnownAddress m (some address) = is_some (get_address address m) ≡ true

-- Some instruction is there.
abbrev pub has_instruction : Uri → Bool
has_instruction uri =
    is_some (head? uri.lightning) || (is_some (head? uri.lno) || is_some uri.address_str)

-- The URI under construction with its flag, against the tables.
abbrev pub IsIssued : Uri × Bool → OfferStore → AddressStore → Type 0
IsIssued (uri, any) offers addresses =
    (any ≡ has_instruction uri)
    × All (IsKnownOffer offers) uri.lno
    × IsKnownAddress addresses uri.address_str

pub insert-IsKnownOffer :
    (offer desc : Text) (amount : ℕ) (id : Bytes) (m : OfferStore) (offers : List Text)
    → All (IsKnownOffer m) offers
    → All (IsKnownOffer (insert_offer offer desc amount id m)) (offers ++ offer ∷ [])
unfolding insert_offer get_offer
insert-IsKnownOffer offer desc amount id m [] h =
    ground (arith, get-insert offer offer (new_offer offer desc amount id) m, text_eq_refl offer)
insert-IsKnownOffer offer desc amount id m (o ∷ offers) h = ground (
  arith,
  get-insert offer o (new_offer offer desc amount id) m,
  insert-IsKnownOffer offer desc amount id m offers h.1,
)

pub register-IsKnownAddress :
    (address : Text) (m : AddressStore) (a : Option Text)
    → IsKnownAddress m a
    → IsKnownAddress (register_address address m) a
register-IsKnownAddress address m none h = tt
register-IsKnownAddress address m (some a) h =
    ground (arith, register_address_lem address a m, text_eq_iff address a)

pub register-IsKnown :
    (address : Text) (m : AddressStore)
    → is_some (get_address address (register_address address m)) ≡ true
register-IsKnown address m =
    ground (arith, register_address_lem address address m, text_eq_refl address)

pub has_invoice :
    (uri : Uri) (invoice : Text)
    → has_instruction (record uri { lightning = uri.lightning ++ invoice ∷ [] }) ≡ true
has_invoice uri invoice =
    elim uri.lightning
      as (λ (l : List Text).
        (is_some (head? (l ++ invoice ∷ []))
          || (is_some (head? uri.lno) || is_some uri.address_str))
        ≡ true) [ [] ↦ refl | x ∷ l ↦ refl ]

pub has_offer :
    (uri : Uri) (offer : Text) → has_instruction (record uri { lno = uri.lno ++ offer ∷ [] }) ≡ true
has_offer uri offer =
    elim uri.lightning
      as (λ (l : List Text).
        (is_some (head? l) || (is_some (head? (uri.lno ++ offer ∷ [])) || is_some uri.address_str))
        ≡ true) [
          | x ∷ l ↦ refl
          | [] ↦
              elim uri.lno
                as (λ (l : List Text).
                  (is_some (head? (l ++ offer ∷ [])) || is_some uri.address_str) ≡ true) [
                    | [] ↦ refl
                    | x ∷ l ↦ refl
                  ]
        ]

pub has_address :
    (uri : Uri) (a : Address) (addr : Text)
    → has_instruction (record uri { address = some a; address_str = some addr }) ≡ true
has_address uri a addr = ground arith

pub make_invoice-tables :
    {S : Type 0} (ldk : LdkService S) (amount : ℕ) (desc hash : Option Text) (expiry : Option ℕ)
    (w : World S)
    → ((Invoices.make_invoice ldk amount desc hash expiry w).1.offers ≡ w.offers)
      × ((Invoices.make_invoice ldk amount desc hash expiry w).1.addresses ≡ w.addresses)
unfolding Invoices.make_invoice
make_invoice-tables ldk amount desc hash expiry w = (ground arith, ground arith)
