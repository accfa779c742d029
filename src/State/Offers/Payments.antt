-- ===== src/State/Offers/Payments.antt =====
-- What a history of payments leaves in the offer table.
use dln_node_knots.Prelude.{
  ℕ, ◌+◌, ◌<◌, some, List, [], ◌∷◌, ◌≡◌, arith, if◌then◌else◌, length, u64_size, wrap64, Bool-cases,
  inl, inr, map_option,
}
use dln_node_knots.Text.{Text, text_eq}
use dln_node_knots.Text.Equality.{text_eq_iff}
use dln_node_knots.TextMap.Laws.{get-update}
use dln_node_knots.State.Offers.{OfferRecord, OfferStore, get_offer, record_payment, with_payment}

-- A history: which offer was paid, and how much.
abbrev pub Payments : Type 0
Payments = List (Text × ℕ)

pub record_all : Payments → OfferStore → OfferStore
record_all [] m = m
record_all ((k, amount) ∷ ps) m = record_all ps (record_payment k amount m)

-- The amounts that went to one offer.
abbrev pub amounts_to : Text → Payments → List ℕ
amounts_to offer [] = []
amounts_to offer ((k, amount) ∷ ps) =
    if text_eq k offer then amount ∷ amounts_to offer ps else amounts_to offer ps

abbrev pub sum : List ℕ → ℕ
sum [] = 0
sum (a ∷ as') = a + sum as'

get-record_payment :
    (k offer : Text) (amount : ℕ) (m : OfferStore)
    → get_offer offer (record_payment k amount m) ≡ (
        if text_eq k offer
        then map_option (with_payment amount) (get_offer k m)
        else get_offer offer m)
unfolding get_offer record_payment
get-record_payment k offer amount m = get-update k offer (with_payment amount) m

abbrev counted : OfferRecord → ℕ → ℕ → OfferRecord
counted r n total = record r { num_payments_received = n; total_received_msat = total }

-- After any history, an offer that is in the table counts its own payments and their amounts, each
-- modulo 2 ^ 64, and nothing of the payments to other offers; the rest of its record is as before.
pub get_offer-record_all :
    (offer : Text) (ps : Payments) (m : OfferStore) (r : OfferRecord)
    → get_offer offer m ≡ some r
    → r.num_payments_received < u64_size
    → r.total_received_msat < u64_size
    → get_offer offer (record_all ps m)
      ≡ some (record r {
        num_payments_received = wrap64 (r.num_payments_received + length (amounts_to offer ps));
        total_received_msat = wrap64 (r.total_received_msat + sum (amounts_to offer ps));
      })
unfolding record_all
get_offer-record_all offer [] m r e hn ht = ground arith
get_offer-record_all offer ((k, amount) ∷ ps) m r e hn ht = elim (Bool-cases (text_eq k offer)) [
  | inl same ↦
      let found : get_offer offer (record_payment k amount m) ≡ some (with_payment amount r) =
        ground (arith, get-record_payment k offer amount m, text_eq_iff k offer) in
      rw same (
        ground (
          arith,
          get_offer-record_all offer ps (record_payment k amount m) (with_payment amount r) found
              (omega arith) (omega arith),
        ))
  | inr other ↦ rw other (
      get_offer-record_all offer ps (record_payment k amount m) r
        (ground (arith, get-record_payment k offer amount m)) hn ht)
]
