-- ===== src/Examples/Served.antt =====
-- The theorems on sequences of turns, on the sample node with a forwarded payment in its queue.
use dln_node_knots.Prelude.{
  ℕ, true, false, List, [], ◌∷◌, ◌==◌, ◌≡◌, refl, sym, append-nil, arith, none, some, if◌then◌else◌,
}
use dln_node_knots.Prelude.Outcome.{ok, err, Outcome}
use dln_node_knots.Text.{Text, codes}
use dln_node_knots.Text.Equality.{text_eq_iff}
use dln_node_knots.TextMap.{get}
use dln_node_knots.State.Forwarding.{ForwardingEntry}
use dln_node_knots.State.Offers.{OfferRecord, new_offer, get_offer}
use dln_node_knots.State.Offers.Invariant.{IsWellFormed}
use dln_node_knots.Events.{Event, payment_forwarded}
use dln_node_knots.Events.Delivery.{Notifier}
use dln_node_knots.Server.{Turn, wallet_turn, control_turn, pump_turn, serve_all}
use dln_node_knots.Server
use dln_node_knots.Server.{pump}
use dln_node_knots.Server.Pump.{IsQueue, Grows, pump_all, rounds}
use dln_node_knots.Server.Pump.Handles.{Handles, pump_all-Handles}
use dln_node_knots.Events.{handle}
use dln_node_knots.Events.Delivery.{deliver}
use dln_node_knots.Server.Runs.{
  Reaches, tables_of, TableCall, Tables, insert_call, disable_call, register_call, forward_call,
  apply_all,
}
use dln_node_knots.Server.Contents.{contents, Same, read, promise_all, apply_all-promise_all}
use dln_node_knots.Server.Turns.{serve_all-Reaches}
use dln_node_knots.Server.Turns.Kept.{
  IsUnpaid, IsLater, serve_all-IsWellFormed, serve_all-IsUnpaid, serve_all-IsLater,
}
use dln_node_knots.Ldk.{World}
use dln_node_knots.Examples.Samples.{Machine, wallet, world}

abbrev forward : Event
forward = payment_forwarded (1 ∷ []) (2 ∷ []) (some 5) (some 1000)

-- Where the queue is empty, a payment is forwarded while the pump waits.
abbrev first_of : List Event → Machine → Event × Machine
first_of [] s = (forward, record s { events = forward ∷ [] })
first_of (e ∷ es) s = (e, s)

abbrev next_event : Machine → Event × Machine
next_event s = first_of s.events s

abbrev others_of : List Event → List Event
others_of [] = []
others_of (e ∷ es) = es

-- The first mark fails.
abbrev event_handled : Machine → Outcome Text (Unit {0}) × Machine
event_handled s =
    if s.time == 100
    then (err [], record s { time = 101 })
    else (ok tt, record s { events = others_of s.events })

-- Every notice is refused.
abbrev notifier : Notifier Machine ℕ
notifier = record { build = λ n. ok 0; announce = λ n s. (err [], s) }

abbrev offer_turn : Turn
offer_turn = wallet_turn (
    Server.make_offer (record {
      amount = some 1000;
      description = some (codes "tea");
      issuer = none;
      single_use = none;
      expires_at = none;
    }))

abbrev turns : List Turn
turns =
    offer_turn
    ∷ pump_turn
    ∷ wallet_turn (Server.make_new_address none)
    ∷ control_turn Server.list_channels
    ∷ []

abbrev served_world : World Machine
served_world = serve_all wallet notifier next_event event_handled turns world

serve_all-Reaches_example : Reaches world served_world
serve_all-Reaches_example = serve_all-Reaches wallet notifier next_event event_handled turns world

serve_all-IsWellFormed_example : IsWellFormed served_world.offers
serve_all-IsWellFormed_example =
    serve_all-IsWellFormed wallet notifier next_event event_handled turns world
      (record { distinct = tt; filed = tt })

serve_all-IsUnpaid_example : IsUnpaid (tables_of served_world)
serve_all-IsUnpaid_example =
    serve_all-IsUnpaid wallet notifier next_event event_handled turns world (tt, tt)

serve_all-IsLater_example : IsLater (tables_of world) (tables_of served_world)
serve_all-IsLater_example = serve_all-IsLater wallet notifier next_event event_handled turns world

first_of-Grows :
    (es : List Event) (s : Machine) → s.events ≡ es → Grows (λ s. s.events) s (first_of es s).1
first_of-Grows [] s e = record { arrived = forward ∷ []; grown = rw e }
first_of-Grows (f ∷ es) s e = record { arrived = []; grown = sym (append-nil s.events) }

first_of-shows :
    (es : List Event) (s : Machine)
    → s.events ≡ es
    → (rest : List Event) × ((first_of es s).1.events ≡ (first_of es s).0 ∷ rest)
first_of-shows [] s e = ([], refl)
first_of-shows (f ∷ es) s e = (es, e)

still : (s : Machine) → Grows (λ s. s.events) s s
still s = record { arrived = []; grown = sym (append-nil s.events) }

events-IsQueue : IsQueue wallet.ldk notifier next_event event_handled (λ s. s.events)
events-IsQueue = record {
  waits = λ s. first_of-Grows s.events s refl;
  shows = λ s. first_of-shows s.events s refl;
  takes = λ s e rest is marked. ([], ground (arith, is, append-nil rest));
  fails = λ s failed. record { arrived = []; grown = ground (arith, append-nil s.events) };
  announces = λ n s. still s;
  clocks = λ s. still s;
  lists = λ s. still s;
  signs = λ id s. still s;
}

pump_all-Handles_example :
    Handles wallet notifier next_event event_handled
      (λ s. s.events)
      world
      (pump_all wallet notifier next_event event_handled 3 world)
      ((forward, false) ∷ (forward, true) ∷ (forward, true) ∷ [])
unfolding rounds pump handle deliver
pump_all-Handles_example =
    pump_all-Handles wallet notifier next_event event_handled (λ s. s.events) events-IsQueue 3 world

abbrev served_forward : ForwardingEntry
served_forward = record {
  incoming_channel_id = codes "01";
  outgoing_channel_id = codes "02";
  incoming_amount = 1005;
  outgoing_amount = 1000;
  fee_earned = 5;
  settled_at = 100;
}

-- Two offers are made and one disabled, an address registered, and a payment forwarded.
abbrev calls : List TableCall
calls =
    insert_call (codes "tea") (codes "hot") 1000 (1 ∷ [])
    ∷ insert_call (codes "milk") (codes "cold") 500 (2 ∷ [])
    ∷ disable_call (codes "tea")
    ∷ register_call (codes "bcrt1p")
    ∷ forward_call served_forward
    ∷ []

abbrev oat : Text × OfferRecord
oat = (codes "oat", new_offer (codes "oat") (codes "dry") 700 (3 ∷ []))

abbrev tea : Text × OfferRecord
tea = (codes "tea", new_offer (codes "tea") (codes "cold") 900 (4 ∷ []))

-- The sample tables with two offers, in one order of the entries or the other.
abbrev filed : List (Text × OfferRecord) → Tables
filed offers = record (tables_of world) { offers = offers }

filed-Same : Same (filed (oat ∷ tea ∷ [])) (filed (tea ∷ oat ∷ []))
unfolding get_offer get codes
filed-Same = record {
  offers = λ k. ground (arith, text_eq_iff (codes "oat") k, text_eq_iff (codes "tea") k);
  addresses = λ k. refl;
  forwards = refl;
}

apply_all-promise_all_example :
    let t = filed (oat ∷ tea ∷ []) in
    (read (contents (apply_all t calls)) ≡ promise_all (read (contents t)) calls)
    × (contents (apply_all t calls) ≡ contents (apply_all (filed (tea ∷ oat ∷ [])) calls))
apply_all-promise_all_example =
    apply_all-promise_all (filed (oat ∷ tea ∷ [])) (filed (tea ∷ oat ∷ [])) calls filed-Same
