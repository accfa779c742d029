-- ===== src/Server/Turns/Kept.antt =====
-- What the turns of the node (src/service.rs) keep of its tables.
use dln_node_knots.Prelude.{
  true, some, List, [], ◌∷◌, ◌++◌, ◌≡◌, refl, sym, ap, ◌∙◌, subst, arith, append_assoc, append-nil,
  is_some,
}
use dln_node_knots.Prelude.Outcome.{Outcome}
use dln_node_knots.Text.{Text}
use dln_node_knots.Text.Equality.{text_eq_iff}
use dln_node_knots.TextMap.Laws.{
  AllValues, insert-AllValues, update-AllValues, or_insert-AllValues, get-insert, get-update,
  get-or_insert,
}
use dln_node_knots.State.Offers.{
  OfferRecord, insert_offer, disable_offer, get_offer, new_offer, disabled,
}
use dln_node_knots.State.Offers.Invariant.{IsWellFormed, step, step-IsWellFormed}
use dln_node_knots.State.Offers.Invariant as OfferCalls
use dln_node_knots.State.Addresses.{AddressRecord, register_address, get_address, new_address}
use dln_node_knots.State.Forwarding.{ForwardingEntry, record_forward}
use dln_node_knots.Ldk.{World}
use dln_node_knots.Wallet.{Wallet}
use dln_node_knots.Events.{Event}
use dln_node_knots.Events.Delivery.{Notifier}
use dln_node_knots.Server.{Turn, serve_all}
use dln_node_knots.Server.Runs.{
  Tables, TableCall, insert_call, disable_call, register_call, forward_call, apply, apply_all,
  tables_of,
}
use dln_node_knots.Server.Turns.{serve_all-Reaches}

-- What every call keeps is kept by all of them.
apply_all-induct :
    (P : Tables → Type 0)
    → ((t : Tables) (c : TableCall) → P t → P (apply t c))
    → (t : Tables) (cs : List TableCall) → P t
    → P (apply_all t cs)
unfolding apply_all
apply_all-induct P one t [] h = h
apply_all-induct P one t (c ∷ cs) h = apply_all-induct P one (apply t c) cs (one t c h)

apply-IsWellFormed :
    (t : Tables) (c : TableCall) → IsWellFormed t.offers → IsWellFormed (apply t c).offers
unfolding apply step
apply-IsWellFormed t (insert_call o desc amount id) h =
    step-IsWellFormed t.offers (OfferCalls.insert_call o desc amount id) h
apply-IsWellFormed t (disable_call o) h = step-IsWellFormed t.offers (OfferCalls.disable_call o) h
apply-IsWellFormed t (register_call a) h = h
apply-IsWellFormed t (forward_call e) h = h

-- No offer has a payment, and no address a transaction.
abbrev pub IsUnpaid : Tables → Type 0
IsUnpaid t =
    AllValues (λ (o : OfferRecord). (o.num_payments_received ≡ 0) × (o.total_received_msat ≡ 0))
      t.offers
    × AllValues (λ (a : AddressRecord). a.transactions ≡ []) t.addresses

apply-IsUnpaid : (t : Tables) (c : TableCall) → IsUnpaid t → IsUnpaid (apply t c)
unfolding apply insert_offer disable_offer register_address
apply-IsUnpaid t (insert_call o desc amount id) h =
    (insert-AllValues _ o (new_offer o desc amount id) t.offers (refl, refl) h.0, h.1)
apply-IsUnpaid t (disable_call o) h =
    (update-AllValues _ o disabled t.offers (λ r unpaid. unpaid) h.0, h.1)
apply-IsUnpaid t (register_call a) h =
    (h.0, or_insert-AllValues _ a (new_address a) t.addresses refl h.1)
apply-IsUnpaid t (forward_call e) h = h

-- A known offer is known, a known address has the record that it had, and the forwards go on from
-- those that there were.
pub record IsLater (t u : Tables) : Type 0 where
  pub offers_known :
      (o : Text) → is_some (get_offer o t.offers) ≡ true → is_some (get_offer o u.offers) ≡ true
  pub addresses_same :
      (a : Text) (r : AddressRecord)
      → get_address a t.addresses ≡ some r
      → get_address a u.addresses ≡ some r
  pub new_forwards : List ForwardingEntry
  pub forwards_grown : u.forwards ≡ t.forwards ++ new_forwards

IsLater-same :
    (t u : Tables)
    → t.offers ≡ u.offers
    → t.addresses ≡ u.addresses
    → t.forwards ≡ u.forwards
    → IsLater t u
IsLater-same t u offers addresses forwards = record {
  offers_known = λ o h. ap (λ m. is_some (get_offer o m)) (sym offers) ∙ h;
  addresses_same = λ a r h. ap (λ m. get_address a m) (sym addresses) ∙ h;
  new_forwards = [];
  forwards_grown = sym forwards ∙ sym (append-nil t.forwards);
}

IsLater-trans : (t u v : Tables) → IsLater t u → IsLater u v → IsLater t v
IsLater-trans t u v h k = record {
  offers_known = λ o known. k.offers_known o (h.offers_known o known);
  addresses_same = λ a r same. k.addresses_same a r (h.addresses_same a r same);
  new_forwards = h.new_forwards ++ k.new_forwards;
  forwards_grown =
      k.forwards_grown
      ∙ ap (λ fs. fs ++ k.new_forwards) h.forwards_grown
      ∙ append_assoc t.forwards h.new_forwards k.new_forwards;
}

apply-IsLater : (t : Tables) (c : TableCall) → IsLater t (apply t c)
unfolding apply insert_offer disable_offer register_address record_forward get_offer get_address
apply-IsLater t (insert_call offer desc amount id) = record {
  offers_known = λ o known.
      ground (arith, get-insert offer o (new_offer offer desc amount id) t.offers, known);
  addresses_same = λ a r h. h;
  new_forwards = [];
  forwards_grown = sym (append-nil t.forwards);
}
apply-IsLater t (disable_call offer) = record {
  offers_known =
      λ o known. ground (arith, get-update offer o disabled t.offers, text_eq_iff offer o, known);
  addresses_same = λ a r h. h;
  new_forwards = [];
  forwards_grown = sym (append-nil t.forwards);
}
apply-IsLater t (register_call address) = record {
  offers_known = λ o known. known;
  addresses_same = λ a r h.
      ground (
        arith,
        get-or_insert address a (new_address address) t.addresses,
        text_eq_iff address a,
        h,
      );
  new_forwards = [];
  forwards_grown = sym (append-nil t.forwards);
}
apply-IsLater t (forward_call e) = record {
  offers_known = λ o known. known;
  addresses_same = λ a r h. h;
  new_forwards = e ∷ [];
  forwards_grown = refl;
}

module _ {S N : Type 0} (wallet : Wallet S) (notifier : Notifier S N) (next_event : S → Event × S)
    (event_handled : S → Outcome Text (Unit {0}) × S) (turns : List Turn) (w : World S) where
  served :
      (P : Tables → Type 0)
      → ((t : Tables) (c : TableCall) → P t → P (apply t c))
      → P (tables_of w)
      → P (tables_of (serve_all wallet notifier next_event event_handled turns w))
  served P one h =
      let r = serve_all-Reaches wallet notifier next_event event_handled turns w in
      subst P (sym r.reached) (apply_all-induct P one (tables_of w) r.calls h)

  -- Whatever the node serves, a table of offers that was well formed still is: every offer once,
  -- filed under its own text.
  pub serve_all-IsWellFormed :
      IsWellFormed w.offers
      → IsWellFormed (serve_all wallet notifier next_event event_handled turns w).offers
  serve_all-IsWellFormed h = served (λ t. IsWellFormed t.offers) apply-IsWellFormed h

  -- Whatever the node serves and whatever it is paid: from tables in which no offer has a payment
  -- and no address a transaction, it reaches only such tables.
  pub serve_all-IsUnpaid :
      IsUnpaid (tables_of w)
      → IsUnpaid (tables_of (serve_all wallet notifier next_event event_handled turns w))
  serve_all-IsUnpaid h = served IsUnpaid apply-IsUnpaid h

  -- Whatever the node serves, the offers that were known still are, the addresses that were known
  -- have the records that they had, and the forwarding history begins with what it was.
  pub serve_all-IsLater :
      IsLater (tables_of w) (tables_of (serve_all wallet notifier next_event event_handled turns w))
  serve_all-IsLater =
      served (IsLater (tables_of w))
        (λ t c h. IsLater-trans (tables_of w) t (apply t c) h (apply-IsLater t c))
        (IsLater-same (tables_of w) (tables_of w) refl refl refl)
