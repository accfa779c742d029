-- ===== src/Ldk/History.antt =====
-- `list_payments_filtered` of src/lightning/ldk_service.rs: a filter, a stable sort by time, newest
-- first, and a page.
pub mod Order
pub mod Complete
pub mod Meets
use dln_node_knots.Prelude.{
  ℕ, Bool, true, false, not, ◌&&◌, Option, none, some, List, [], ◌∷◌, ltb, if◌then◌else◌, unwrap_or,
  take, drop,
}
use dln_node_knots.Prelude.Select.{select}
use dln_node_knots.Prelude.Act.{Act, pure, ◌>>=◌}
use dln_node_knots.Node.Types.{
  PaymentDetails, PaymentDirection, inbound, outbound, PaymentStatus, pending, succeeded, failed,
  PaymentKind, bolt11, bolt11_jit, bolt12_offer, bolt12_refund, spontaneous,
}
use dln_node_knots.Ldk.{LdkService, World, call}

-- `nwc::nostr::nips::nip47::PaymentMethod`
pub data PaymentMethod : Type 0 where
  by_bolt11 by_bolt12 by_keysend : PaymentMethod

unfoldable pub same_direction : PaymentDirection → PaymentDirection → Bool
same_direction inbound inbound = true
same_direction outbound outbound = true
same_direction _ _ = false

unfoldable pub is_pending : PaymentStatus → Bool
is_pending pending = true
is_pending succeeded = false
is_pending failed = false

unfoldable pub method_matches : PaymentMethod → PaymentKind → Bool
method_matches by_bolt11 (bolt11 h p) = true
method_matches by_bolt11 (bolt11_jit h p) = true
method_matches by_bolt12 (bolt12_offer h p) = true
method_matches by_bolt12 (bolt12_refund h p) = true
method_matches by_keysend (spontaneous h p) = true
method_matches _ _ = false

-- The arguments, in the order of the source.
pub record Query : Type 0 where
  pub from : Option ℕ
  pub until : Option ℕ
  pub limit : Option ℕ
  pub offset : Option ℕ
  pub unpaid : Option Bool
  pub direction : Option PaymentDirection
  pub payment_method : Option PaymentMethod

-- Each bound that is present and broken returns `false` from the closure.
abbrev pub too_early : Option ℕ → ℕ → Bool
too_early none t = false
too_early (some from) t = ltb t from

abbrev pub too_late : Option ℕ → ℕ → Bool
too_late none t = false
too_late (some until) t = ltb until t

abbrev pub wrong_direction : Option PaymentDirection → PaymentDirection → Bool
wrong_direction none d = false
wrong_direction (some wanted) d = not (same_direction d wanted)

abbrev pub wrong_method : Option PaymentMethod → PaymentKind → Bool
wrong_method none k = false
wrong_method (some m) k = not (method_matches m k)

unfoldable pub admits : Query → PaymentDetails → Bool
admits q p =
    if too_early q.from p.latest_update_timestamp
    then false
    else if too_late q.until p.latest_update_timestamp
    then false
    else if wrong_direction q.direction p.direction
    then false
    else if wrong_method q.payment_method p.kind
    then false
    else if not (unwrap_or q.unpaid false) && is_pending p.status
    then false
    else true

-- `sort_by(|a, b| b.t.cmp(&a.t))`, the stable sort of the standard library: equal times keep their
-- order.
unfoldable pub insert_newest : PaymentDetails → List PaymentDetails → List PaymentDetails
insert_newest p [] = p ∷ []
insert_newest p (r ∷ rs) =
    if ltb p.latest_update_timestamp r.latest_update_timestamp
    then r ∷ insert_newest p rs
    else p ∷ r ∷ rs

unfoldable pub sort_newest : List PaymentDetails → List PaymentDetails
sort_newest [] = []
sort_newest (p ∷ ps) = insert_newest p (sort_newest ps)

abbrev pub limited : Option ℕ → List PaymentDetails → List PaymentDetails
limited none ps = ps
limited (some n) ps = take n ps

-- What the method makes of the payments that the node lists.
unfoldable pub select_payments : Query → List PaymentDetails → List PaymentDetails
select_payments q listed =
    let payments = sort_newest (select (admits q) listed) in
    let offset = unwrap_or q.offset 0 in
    limited q.limit (if ltb 0 offset then drop offset payments else payments)

module _ {S E : Type 0} (ldk : LdkService S) where
  unfoldable pub list_payments_filtered : Query → Act (World S) E (List PaymentDetails)
  list_payments_filtered q = do
    listed ← call ldk.node.list_payments
    pure (select_payments q listed)
