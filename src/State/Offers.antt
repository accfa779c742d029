-- ===== src/State/Offers.antt =====
-- src/state/offer_store.rs: the BOLT12 offers that this node has made, by their text.
pub mod Invariant
pub mod Payments
use dln_node_knots.Prelude.{
  ℕ, ◌+◌, Bool, true, false, Option, none, some, List, map_option, wrap64, is_some,
}
use dln_node_knots.Prelude.Select.{find_by}
use dln_node_knots.Text.{Bytes, Text, text_eq}
use dln_node_knots.TextMap.{TextMap, get, insert, update, values}

pub record OfferRecord : Type 0 where
  pub offer : Text
  pub description : Text
  pub amount_msat : ℕ
  pub active : Bool
  pub num_payments_received : ℕ
  pub total_received_msat : ℕ
  pub offer_id : Bytes

abbrev pub OfferStore : Type 0
OfferStore = TextMap OfferRecord

abbrev pub new_offer : Text → Text → ℕ → Bytes → OfferRecord
new_offer offer description amount_msat offer_id = record {
  offer = offer;
  description = description;
  amount_msat = amount_msat;
  active = true;
  num_payments_received = 0;
  total_received_msat = 0;
  offer_id = offer_id;
}

unfoldable pub insert_offer : Text → Text → ℕ → Bytes → OfferStore → OfferStore
insert_offer offer description amount_msat offer_id m =
    insert offer (new_offer offer description amount_msat offer_id) m

unfoldable pub find_by_offer_id : Bytes → OfferStore → Option Text
find_by_offer_id offer_id m = map_option (λ e. e.0) (find_by (λ e. text_eq e.1.offer_id offer_id) m)

unfoldable pub get_offer : Text → OfferStore → Option OfferRecord
get_offer offer m = get offer m

unfoldable pub list_offers : OfferStore → List OfferRecord
list_offers m = values m

abbrev pub disabled : OfferRecord → OfferRecord
disabled r = record r { active = false }

-- The answer says whether the offer is known.
unfoldable pub disable_offer : Text → OfferStore → Bool × OfferStore
disable_offer offer m = (is_some (get offer m), update offer disabled m)

abbrev pub with_payment : ℕ → OfferRecord → OfferRecord
with_payment amount_msat r = record r {
  num_payments_received = wrap64 (r.num_payments_received + 1);
  total_received_msat = wrap64 (r.total_received_msat + amount_msat);
}

unfoldable pub record_payment : Text → ℕ → OfferStore → OfferStore
record_payment offer amount_msat m = update offer (with_payment amount_msat) m

unfoldable pub clear : OfferStore → OfferStore
clear m = List.[]
