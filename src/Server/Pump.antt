-- ===== src/Server/Pump.antt =====
-- Rounds of the event pump of src/service.rs, against the queue of events of the node.
pub mod Order
pub mod Handles
use dln_node_knots.Prelude.{
  ℕ, zero, suc, Bool, true, false, List, [], ◌∷◌, ◌++◌, ◌≡◌, refl, sym, ap, ◌∙◌, arith,
  append_assoc, append-nil, inl, inr, Bool-cases, if◌then◌else◌,
}
use dln_node_knots.Prelude.Outcome.{Outcome, ok, is_ok}
use dln_node_knots.Text.{Text}
use dln_node_knots.Ldk.{LdkService, World}
use dln_node_knots.Ldk.Channels.{notify_channel_ready}
use dln_node_knots.Wallet.{Wallet}
use dln_node_knots.Events.{
  Event, handle, payment_forwarded, payment_received, payment_successful, payment_claimable,
  channel_ready, channel_closed, another_event, handle_ready, payment_now,
}
use dln_node_knots.Events.Delivery.{Notifier, deliver, deliver-node, deliver-rule}
use dln_node_knots.Server.{pump}

-- New events join at the end of the queue, at any time.
pub record Grows {S : Type 0} (queue : S → List Event) (s t : S) : Type 0 where
  pub arrived : List Event
  pub grown : queue t ≡ queue s ++ arrived

-- The queue of ldk-node: `next_event_async` waits for an event and shows the first one,
-- `event_handled` takes the first one off where it succeeds, and nothing else takes one off.
pub record IsQueue {S N : Type 0} (ldk : LdkService S) (notifier : Notifier S N)
    (next_event : S → Event × S) (event_handled : S → Outcome Text (Unit {0}) × S)
    (queue : S → List Event) : Type 0 where
  pub waits : (s : S) → Grows queue s (next_event s).1
  pub shows : (s : S) → (rest : List Event) × (queue (next_event s).1 ≡ (next_event s).0 ∷ rest)
  pub takes :
      (s : S) (e : Event) (rest : List Event)
      → queue s ≡ e ∷ rest
      → is_ok (event_handled s).0 ≡ true
      → (arrived : List Event) × (queue (event_handled s).1 ≡ rest ++ arrived)
  pub fails : (s : S) → is_ok (event_handled s).0 ≡ false → Grows queue s (event_handled s).1
  pub announces : (n : N) (s : S) → Grows queue s (notifier.announce n s).1
  pub clocks : (s : S) → Grows queue s (ldk.node.system_time s).1
  pub lists : (s : S) → Grows queue s (ldk.node.list_channels s).1
  pub signs : (id : ℕ) (s : S) → Grows queue s (ldk.node.channel_ready id s).1

module _ {S : Type 0} (queue : S → List Event) where
  Grows-same : (s : S) → Grows queue s s
  Grows-same s = record { arrived = []; grown = sym (append-nil (queue s)) }

  pub Grows-trans : (s t u : S) → Grows queue s t → Grows queue t u → Grows queue s u
  Grows-trans s t u g h = record {
    arrived = g.arrived ++ h.arrived;
    grown =
        h.grown ∙ ap (λ es. es ++ h.arrived) g.grown ∙ append_assoc (queue s) g.arrived h.arrived;
  }

-- A round: the event that was handled, and whether its mark succeeded.
abbrev pub Round : Type 0
Round = Event × Bool

-- The events whose mark succeeded.
abbrev pub taken : List Round → List Event
taken [] = []
taken ((e, true) ∷ rounds) = e ∷ taken rounds
taken ((e, false) ∷ rounds) = taken rounds

abbrev pub handled : List Round → List Event
handled [] = []
handled ((e, m) ∷ rounds) = e ∷ handled rounds

abbrev pub StartsWith : Event → List Round → Type 0
StartsWith e [] = Unit {0}
StartsWith e ((f, m) ∷ rounds) = f ≡ e

-- An event whose mark failed is the next to be handled.
abbrev pub Resumes : List Round → Type 0
Resumes [] = Unit {0}
Resumes ((e, true) ∷ rounds) = Resumes rounds
Resumes ((e, false) ∷ rounds) = StartsWith e rounds × Resumes rounds

module _ {S N : Type 0} (wallet : Wallet S) (notifier : Notifier S N) (next_event : S → Event × S)
    (event_handled : S → Outcome Text (Unit {0}) × S) where
  -- The loop of `run`, for a number of rounds.
  pub pump_all : ℕ → World S → World S
  pump_all zero w = w
  pump_all (suc n) w = pump_all n (pump wallet notifier next_event event_handled w)

  -- The states of one round: the event shown, its handling, and its notice gone out.
  abbrev pub shown : World S → World S
  shown w = record w { node = (next_event w.node).1 }

  abbrev pub event_of : World S → Event
  event_of w = (next_event w.node).0

  abbrev pub delivered : World S → World S
  delivered w =
      let (notice, v) = handle wallet.ldk (event_of w) (shown w) in deliver notifier notice v

  abbrev pub mark_of : World S → Bool
  mark_of w = is_ok (event_handled (delivered w).node).0

  unfoldable pub rounds : ℕ → World S → List Round
  rounds zero w = []
  rounds (suc n) w =
      (event_of w, mark_of w) ∷ rounds n (pump wallet notifier next_event event_handled w)

  module _ (queue : S → List Event)
      (q : IsQueue wallet.ldk notifier next_event event_handled queue) where
    handle-Grows : (e : Event) (w : World S) → Grows queue w.node (handle wallet.ldk e w).1.node
    unfolding handle handle_ready payment_now notify_channel_ready
    handle-Grows (payment_received hash amount) w =
        Grows-trans queue w.node _ _ (q.clocks w.node) (q.clocks _)
    handle-Grows (payment_successful hash fee) w =
        Grows-trans queue w.node _ _ (q.clocks w.node) (q.clocks _)
    handle-Grows (payment_claimable hash amount deadline) w = q.clocks w.node
    handle-Grows (channel_ready id user peer) w = elim (Bool-cases wallet.ldk.has_keys_manager) [
      | inl signer ↦ rw signer (Grows-trans queue w.node _ _ (q.signs user w.node) (q.lists _))
      | inr no_signer ↦ rw no_signer (q.lists w.node)
    ]
    handle-Grows (channel_closed id peer reason) w = Grows-same queue w.node
    handle-Grows (payment_forwarded prev next fee out) w = q.clocks w.node
    handle-Grows another_event w = Grows-same queue w.node

    -- From the time that an event is shown to its mark, it stays the first.
    pub delivered-Grows : (w : World S) → Grows queue (shown w).node (delivered w).node
    delivered-Grows w =
        let (notice, v) = handle wallet.ldk (event_of w) (shown w) in
        deliver-rule notifier (λ t. Grows queue (shown w).node t)
          (λ n s g. Grows-trans queue (shown w).node s _ g (q.announces n s)) notice v
          (handle-Grows (event_of w) (shown w))
