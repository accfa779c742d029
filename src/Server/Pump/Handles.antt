-- ===== src/Server/Pump/Handles.antt =====
-- What the event pump of src/service.rs makes of the queue and of the tables.
use dln_node_knots.Prelude.{
  ℕ, zero, suc, List, [], ◌++◌, ◌≡◌, refl, sym, ap, ◌∙◌, append_assoc, append-nil,
}
use dln_node_knots.Prelude.Outcome.{Outcome}
use dln_node_knots.Text.{Text}
use dln_node_knots.State.Forwarding.{ForwardingEntry}
use dln_node_knots.Ldk.{World}
use dln_node_knots.Wallet.{Wallet}
use dln_node_knots.Events.{Event, handle}
use dln_node_knots.Events.Delivery.{Notifier, deliver-node}
use dln_node_knots.Events.Forwards.{
  Records, all_forwarded, entry_of, entry_of-Records, handle-tables,
}
use dln_node_knots.Server.{pump}
use dln_node_knots.Server.Pump.{IsQueue, Round, taken, handled, Resumes, pump_all, rounds, shown}
use dln_node_knots.Server.Pump.Order.{after, event, rounds-Resumes, pump_all-queue}

module _ {S N : Type 0} (wallet : Wallet S) (notifier : Notifier S N) (next_event : S → Event × S)
    (event_handled : S → Outcome Text (Unit {0}) × S) where
  pump-tables :
      (w : World S)
      → ((after wallet notifier next_event event_handled w).forwards
          ≡ w.forwards
            ++ entry_of wallet.ldk
                (event wallet notifier next_event event_handled w)
                (shown wallet notifier next_event event_handled w))
        × ((after wallet notifier next_event event_handled w).offers ≡ w.offers)
        × ((after wallet notifier next_event event_handled w).addresses ≡ w.addresses)
  unfolding pump
  pump-tables w =
      let (notice, v) =
        handle wallet.ldk (event wallet notifier next_event event_handled w)
          (shown wallet notifier next_event event_handled w) in
      let same = deliver-node notifier notice v in
      let (forwards, offers, addresses) =
        handle-tables wallet.ldk (event wallet notifier next_event event_handled w)
          (shown wallet notifier next_event event_handled w) in
      (
        ap (λ (u : World S). u.forwards) same ∙ forwards,
        ap (λ (u : World S). u.offers) same ∙ offers,
        ap (λ (u : World S). u.addresses) same ∙ addresses,
      )

  pump_all-Records :
      (n : ℕ) (w : World S)
      → (new : List ForwardingEntry) × ((pump_all wallet notifier next_event event_handled n
            w).forwards
          ≡ w.forwards ++ new)
        × Records
            (all_forwarded (handled (rounds wallet notifier next_event event_handled n w)))
            new
        × ((pump_all wallet notifier next_event event_handled n w).offers ≡ w.offers)
        × ((pump_all wallet notifier next_event event_handled n w).addresses ≡ w.addresses)
  unfolding pump_all rounds
  pump_all-Records zero w = ([], sym (append-nil w.forwards), tt, refl, refl)
  pump_all-Records (suc n) w =
      let (new, grown, records, offers_kept, addresses_kept) =
        pump_all-Records n (after wallet notifier next_event event_handled w) in
      let (one, offers_same, addresses_same) = pump-tables w in
      let entry =
        entry_of wallet.ldk (event wallet notifier next_event event_handled w)
          (shown wallet notifier next_event event_handled w) in
      (
        entry ++ new,
        grown ∙ ap (λ h. h ++ new) one ∙ append_assoc w.forwards entry new,
        entry_of-Records wallet.ldk (event wallet notifier next_event event_handled w)
            (shown wallet notifier next_event event_handled w)
            (all_forwarded (
              handled (
                rounds wallet notifier next_event event_handled n
                  (after wallet notifier next_event event_handled w))))
            new records,
        offers_kept ∙ offers_same,
        addresses_kept ∙ addresses_same,
      )

  -- What rounds have made of the queue and of the tables.
  pub record Handles (queue : S → List Event) (w v : World S) (made : List Round) : Type 0 where
    pub later : List Event
    pub in_order : queue w.node ++ later ≡ taken made ++ queue v.node
    pub resumes : Resumes made
    pub new : List ForwardingEntry
    pub forwards_grown : v.forwards ≡ w.forwards ++ new
    pub records : Records (all_forwarded (handled made)) new
    pub offers_same : v.offers ≡ w.offers
    pub addresses_same : v.addresses ≡ w.addresses

  -- On a queue that shows its first event, takes it off where a mark succeeds, and gains events at
  -- its end only: after any number of rounds of the pump, whatever notices could not be delivered
  -- and whatever marks failed, the events marked are the first of the queue, in its order and none
  -- left out; an event whose mark failed was handled again next; and the forwarding history has
  -- gained one entry for each handling of a forwarded payment, in order and with its amounts.
  pub pump_all-Handles :
      (queue : S → List Event)
      → IsQueue wallet.ldk notifier next_event event_handled queue
      → (n : ℕ) (w : World S)
      → Handles queue w
          (pump_all wallet notifier next_event event_handled n w)
          (rounds wallet notifier next_event event_handled n w)
  pump_all-Handles queue q n w =
      let (later, in_order) = pump_all-queue wallet notifier next_event event_handled queue q n w in
      let (new, grown, records, offers, addresses) = pump_all-Records n w in
      record {
        later = later;
        in_order = in_order;
        resumes = rounds-Resumes wallet notifier next_event event_handled queue q n w;
        new = new;
        forwards_grown = grown;
        records = records;
        offers_same = offers;
        addresses_same = addresses;
      }
