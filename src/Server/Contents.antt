-- ===== src/Server/Contents.antt =====
-- The contents of the tables of src/state, without the order in which a HashMap gives its entries.
use mathlib.Core.Path.{fun_ext}
use mathlib.Core.Quot
use mathlib.Core.Quot.{Quot}
use dln_node_knots.Prelude.{
  true, false, List, [], ◌∷◌, ◌++◌, ◌≡◌, ◌∙◌, refl, ap, arith, Option, none, some, or_else,
  map_option, if◌then◌else◌,
}
use dln_node_knots.Text.{Text, text_eq}
use dln_node_knots.Text.Equality.{text_eq_iff}
use dln_node_knots.TextMap.{get}
use dln_node_knots.TextMap.Laws.{get-insert, get-update, get-or_insert}
use dln_node_knots.State.Offers.{
  OfferRecord, insert_offer, disable_offer, get_offer, new_offer, disabled,
}
use dln_node_knots.State.Addresses.{AddressRecord, register_address, get_address, new_address}
use dln_node_knots.State.Forwarding.{Forwards, ForwardingEntry, record_forward}
use dln_node_knots.Server.Runs.{
  Tables, TableCall, insert_call, disable_call, register_call, forward_call, apply, apply_all,
}

-- The tables hold the same, whatever the order of the entries in the two HashMaps.
pub record Same (t u : Tables) : Type 0 where
  pub offers : (k : Text) → get_offer k t.offers ≡ get_offer k u.offers
  pub addresses : (k : Text) → get_address k t.addresses ≡ get_address k u.addresses
  pub forwards : t.forwards ≡ u.forwards

abbrev pub Contents : Type 0
Contents = Quot Same

abbrev pub contents : Tables → Contents
contents t = Quot.mk t

offers_set : IsSet (Option OfferRecord)
offers_set = hlevel

addresses_set : IsSet (Option AddressRecord)
addresses_set = hlevel

forwards_set : IsSet Forwards
forwards_set = hlevel

-- What the calls that read one entry, and the history, answer.
pub offer_in : Text → Contents → Option OfferRecord
offer_in k = Quot.lift offers_set (λ t. get_offer k t.offers) (λ t u s. s.offers k)

pub address_in : Text → Contents → Option AddressRecord
address_in k = Quot.lift addresses_set (λ t. get_address k t.addresses) (λ t u s. s.addresses k)

pub forwards_in : Contents → Forwards
forwards_in = Quot.lift forwards_set (λ t. t.forwards) (λ t u s. s.forwards)

-- A call does the same on tables that hold the same.
apply-Same : (t u : Tables) (c : TableCall) → Same t u → Same (apply t c) (apply u c)
unfolding apply insert_offer disable_offer register_address record_forward get_offer get_address
apply-Same t u (insert_call o d a i) s = record {
  offers = λ k. ground (
    arith,
    get-insert o k (new_offer o d a i) t.offers,
    get-insert o k (new_offer o d a i) u.offers,
    s.offers k,
  );
  addresses = s.addresses;
  forwards = s.forwards;
}
apply-Same t u (disable_call o) s = record {
  offers = λ k. ground (
    arith,
    get-update o k disabled t.offers,
    get-update o k disabled u.offers,
    s.offers k,
    s.offers o,
  );
  addresses = s.addresses;
  forwards = s.forwards;
}
apply-Same t u (register_call o) s = record {
  offers = s.offers;
  addresses = λ k. ground (
    arith,
    get-or_insert o k (new_address o) t.addresses,
    get-or_insert o k (new_address o) u.addresses,
    s.addresses k,
    s.addresses o,
  );
  forwards = s.forwards;
}
apply-Same t u (forward_call e) s = record {
  offers = s.offers;
  addresses = s.addresses;
  forwards = ap (record_forward e) s.forwards;
}

apply_all-Same :
    (t u : Tables) (cs : List TableCall) → Same t u → Same (apply_all t cs) (apply_all u cs)
unfolding apply_all
apply_all-Same t u [] s = s
apply_all-Same t u (c ∷ cs) s = apply_all-Same (apply t c) (apply u c) cs (apply-Same t u c s)

contents-apply_all :
    (t u : Tables) (cs : List TableCall)
    → Same t u
    → contents (apply_all t cs) ≡ contents (apply_all u cs)
contents-apply_all t u cs s = Quot.sound (apply_all-Same t u cs s)

-- What the calls ask for, without a HashMap: partial functions of the texts, and a list.
pub record Promised : Type 0 where
  pub offers : Text → Option OfferRecord
  pub addresses : Text → Option AddressRecord
  pub forwards : List ForwardingEntry

-- Switched off, with its figures kept.
abbrev pub switched_off : Option OfferRecord → Option OfferRecord
switched_off none = none
switched_off (some r) = some (record {
  offer = r.offer;
  description = r.description;
  amount_msat = r.amount_msat;
  active = false;
  num_payments_received = r.num_payments_received;
  total_received_msat = r.total_received_msat;
  offer_id = r.offer_id;
})

-- What is registered already keeps its transactions.
abbrev pub registered : Text → Option AddressRecord → Option AddressRecord
registered address none = some (record { address = address; transactions = [] })
registered address (some r) = some r

abbrev pub promise : Promised → TableCall → Promised
promise v (insert_call o d amount id) = record v {
  offers = λ k.
      if text_eq o k
      then some (record {
        offer = o;
        description = d;
        amount_msat = amount;
        active = true;
        num_payments_received = 0;
        total_received_msat = 0;
        offer_id = id;
      })
      else v.offers k;
}
promise v (disable_call o) = record v {
  offers = λ k. if text_eq o k then switched_off (v.offers k) else v.offers k;
}
promise v (register_call a) = record v {
  addresses = λ k. if text_eq a k then registered a (v.addresses k) else v.addresses k;
}
promise v (forward_call e) = record v { forwards = v.forwards ++ e ∷ [] }

abbrev pub promise_all : Promised → List TableCall → Promised
promise_all v [] = v
promise_all v (c ∷ cs) = promise_all (promise v c) cs

-- What can be read of the contents.
abbrev pub read : Contents → Promised
read c = record {
  offers = λ k. offer_in k c;
  addresses = λ k. address_in k c;
  forwards = forwards_in c;
}

map-switched_off : (o : Option OfferRecord) → map_option disabled o ≡ switched_off o
map-switched_off none = refl
map-switched_off (some r) = refl

or_else-registered :
    (a : Text) (o : Option AddressRecord) → or_else o (some (new_address a)) ≡ registered a o
or_else-registered a none = refl
or_else-registered a (some r) = refl

apply-promise :
    (t : Tables) (c : TableCall) → read (contents (apply t c)) ≡ promise (read (contents t)) c
unfolding apply insert_offer disable_offer register_address record_forward get_offer get_address
    offer_in address_in forwards_in
apply-promise t (insert_call o d a i) =
    let offers = fun_ext (λ k. get-insert o k (new_offer o d a i) t.offers) in
    ap (λ (f : Text → Option OfferRecord). record (read (contents t)) { offers = f }) offers
apply-promise t (disable_call o) =
    let offers = fun_ext (λ k. ground (
      arith,
      text_eq_iff o k,
      get-update o k disabled t.offers,
      map-switched_off (get o t.offers),
    )) in
    ap (λ (f : Text → Option OfferRecord). record (read (contents t)) { offers = f }) offers
apply-promise t (register_call a) =
    let addresses = fun_ext (λ k. ground (
      arith,
      text_eq_iff a k,
      get-or_insert a k (new_address a) t.addresses,
      or_else-registered a (get a t.addresses),
    )) in
    ap (λ (f : Text → Option AddressRecord). record (read (contents t)) { addresses = f }) addresses
apply-promise t (forward_call e) = refl

read-apply_all :
    (t : Tables) (cs : List TableCall)
    → read (contents (apply_all t cs)) ≡ promise_all (read (contents t)) cs
unfolding apply_all
read-apply_all t [] = refl
read-apply_all t (c ∷ cs) =
    read-apply_all (apply t c) cs ∙ ap (λ v. promise_all v cs) (apply-promise t c)

-- Any sequence of calls of the tables leaves in them what a partial function would hold: a text's
-- offer is the fresh active one of the last insertion under it, with no payments, switched off since
-- if it was disabled, its figures kept; an address is there once it is registered, and keeps the
-- record that it had; the history has the forwards at its end, in order. And tables that differ only
-- in the order of the entries of the HashMaps have the same contents afterwards.
pub apply_all-promise_all :
    (t u : Tables) (cs : List TableCall)
    → Same t u
    → (read (contents (apply_all t cs)) ≡ promise_all (read (contents t)) cs)
      × (contents (apply_all t cs) ≡ contents (apply_all u cs))
apply_all-promise_all t u cs s = (read-apply_all t cs, contents-apply_all t u cs s)
