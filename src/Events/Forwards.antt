-- ===== src/Events/Forwards.antt =====
-- What a sequence of events leaves in the tables.
use dln_node_knots.Prelude.{
  ℕ, ◌+◌, ◌-◌, ◌^◌, min, Bool-cases, inl, inr, List, [], ◌∷◌, ◌++◌, ◌≡◌, refl, ap, sym, ◌∙◌, arith,
  append_assoc, append-nil, unwrap_or,
}
use dln_node_knots.State.Forwarding.{ForwardingEntry, record_forward}
use dln_node_knots.Ldk.{LdkService, World}
use dln_node_knots.Ldk.Channels.{notify_channel_ready}
use dln_node_knots.Ldk.Graph.{saturating_add}
use dln_node_knots.Events.{
  Event, handle, forwarding_entry, payment_forwarded, payment_received, payment_successful,
  payment_claimable, channel_ready, channel_closed, another_event, handle_ready, payment_now,
}

module _ {S : Type 0} (ldk : LdkService S) where
  -- The events in turn, as the loop that calls `handle` takes them.
  pub handle_all : List Event → World S → World S
  handle_all [] w = w
  handle_all (e ∷ es) w = handle_all es (handle ldk e w).1

  -- The entry of one event, in the state of the world before it.
  abbrev pub entry_of : Event → World S → List ForwardingEntry
  entry_of (payment_forwarded prev next fee out) w =
      forwarding_entry (ldk.lib.show_channel_id prev) (ldk.lib.show_channel_id next) fee out
        (ldk.node.system_time w.node).0
      ∷ []
  entry_of _ w = []

  pub handle-tables :
      (e : Event) (w : World S)
      → ((handle ldk e w).1.forwards ≡ w.forwards ++ entry_of e w)
        × ((handle ldk e w).1.offers ≡ w.offers)
        × ((handle ldk e w).1.addresses ≡ w.addresses)
  unfolding handle handle_ready payment_now record_forward notify_channel_ready
  handle-tables (payment_received hash amount) w = (sym (append-nil w.forwards), refl, refl)
  handle-tables (payment_successful hash fee) w = (sym (append-nil w.forwards), refl, refl)
  handle-tables (payment_claimable hash amount deadline) w =
      (sym (append-nil w.forwards), refl, refl)
  handle-tables (channel_ready id user peer) w = elim (Bool-cases ldk.has_keys_manager) [
    | inl signer ↦ rw signer (sym (append-nil w.forwards), refl, refl)
    | inr no_signer ↦ rw no_signer (sym (append-nil w.forwards), refl, refl)
  ]
  handle-tables (channel_closed id peer reason) w = (sym (append-nil w.forwards), refl, refl)
  handle-tables (payment_forwarded prev next fee out) w = (refl, refl, refl)
  handle-tables another_event w = (sym (append-nil w.forwards), refl, refl)

saturating_add-min : (a b : ℕ) → saturating_add a b ≡ min (a + b) (2 ^ 64 - 1)
saturating_add-min a b = ground arith

-- The amounts of a forwarding event: the fee, then what went out.
abbrev pub forwarded : Event → List (ℕ × ℕ)
forwarded (payment_forwarded prev next fee out) = (unwrap_or fee 0, unwrap_or out 0) ∷ []
forwarded _ = []

abbrev pub all_forwarded : List Event → List (ℕ × ℕ)
all_forwarded [] = []
all_forwarded (e ∷ es) = forwarded e ++ all_forwarded es

-- Entries with these amounts, in this order; what came in is the sum, cut at 2 ^ 64 - 1.
abbrev pub Records : List (ℕ × ℕ) → List ForwardingEntry → Type 0
Records [] [] = Unit {0}
Records ((fee, out) ∷ as') (e ∷ es) =
    (e.fee_earned ≡ fee)
    × (e.outgoing_amount ≡ out)
    × (e.incoming_amount ≡ min (out + fee) (2 ^ 64 - 1))
    × Records as' es
Records [] (e ∷ es) = ⊥
Records (a ∷ as') [] = ⊥

module _ {S : Type 0} (ldk : LdkService S) where
  pub entry_of-Records :
      (e : Event) (w : World S) (amounts : List (ℕ × ℕ)) (new : List ForwardingEntry)
      → Records amounts new
      → Records (forwarded e ++ amounts) (entry_of ldk e w ++ new)
  unfolding forwarding_entry
  entry_of-Records (payment_received hash amount) w amounts new h = h
  entry_of-Records (payment_successful hash amount) w amounts new h = h
  entry_of-Records (payment_claimable hash amount deadline) w amounts new h = h
  entry_of-Records (channel_ready id user peer) w amounts new h = h
  entry_of-Records (channel_closed id peer reason) w amounts new h = h
  entry_of-Records another_event w amounts new h = h
  entry_of-Records (payment_forwarded prev next fee out) w amounts new h =
      (refl, refl, saturating_add-min (unwrap_or out 0) (unwrap_or fee 0), h)

  -- Whatever events are handled, the forwarding history keeps what it had and gains one entry for
  -- each forwarded payment and for nothing else, in the order of the events: with its fee, its
  -- outgoing amount, and the incoming amount as their sum, cut at 2 ^ 64 - 1. The tables of offers and
  -- of addresses stay as they were.
  handle_all-Records :
      (es : List Event) (w : World S)
      → (new : List ForwardingEntry) × ((handle_all ldk es w).forwards ≡ w.forwards ++ new)
        × Records (all_forwarded es) new
        × ((handle_all ldk es w).offers ≡ w.offers)
        × ((handle_all ldk es w).addresses ≡ w.addresses)
  unfolding handle_all
  handle_all-Records [] w = ([], sym (append-nil w.forwards), tt, refl, refl)
  handle_all-Records (e ∷ es) w =
      let (new, grown, records, offers_kept, addresses_kept) =
        handle_all-Records es (handle ldk e w).1 in
      let (one, offers_same, addresses_same) = handle-tables ldk e w in
      (
        entry_of ldk e w ++ new,
        grown ∙ ap (λ h. h ++ new) one ∙ append_assoc w.forwards (entry_of ldk e w) new,
        entry_of-Records e w (all_forwarded es) new records,
        offers_kept ∙ offers_same,
        addresses_kept ∙ addresses_same,
      )
