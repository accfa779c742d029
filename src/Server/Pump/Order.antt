-- ===== src/Server/Pump/Order.antt =====
-- The order in which the event pump of src/service.rs takes the events off the queue.
use dln_node_knots.Prelude.{
  ℕ, zero, suc, Bool, true, false, List, [], ◌∷◌, ◌++◌, ◌≡◌, sym, ap, ◌∙◌, append_assoc, append-nil,
  inl, inr, Bool-cases,
}
use dln_node_knots.Prelude.Outcome.{Outcome}
use dln_node_knots.Text.{Text}
use dln_node_knots.Ldk.{World}
use dln_node_knots.Wallet.{Wallet}
use dln_node_knots.Events.{Event}
use dln_node_knots.Events.Delivery.{Notifier}
use dln_node_knots.Server.{pump}
use dln_node_knots.Server.Pump.{
  IsQueue, Grows-trans, taken, StartsWith, Resumes, pump_all, rounds, event_of, delivered, mark_of,
  delivered-Grows,
}

module _ {S N : Type 0} (wallet : Wallet S) (notifier : Notifier S N) (next_event : S → Event × S)
    (event_handled : S → Outcome Text (Unit {0}) × S) where
  abbrev pub after : World S → World S
  after w = pump wallet notifier next_event event_handled w

  abbrev pub event : World S → Event
  event w = event_of wallet notifier next_event event_handled w

  abbrev pub mark : World S → Bool
  mark w = mark_of wallet notifier next_event event_handled w

  module _ (queue : S → List Event)
      (q : IsQueue wallet.ldk notifier next_event event_handled queue) where
    -- What has come into the queue by the time of the mark, with the event still the first.
    record IsShown (w : World S) (t : S) : Type 0 where
      come : List Event
      others : List Event
      grown : queue t ≡ queue w.node ++ come
      first : queue t ≡ event w ∷ others

    delivered-IsShown :
        (w : World S) → IsShown w (delivered wallet notifier next_event event_handled w).node
    delivered-IsShown w =
        let g = delivered-Grows wallet notifier next_event event_handled queue q w in
        let all = Grows-trans queue w.node _ _ (q.waits w.node) g in
        let (rest, shows) = q.shows w.node in
        record {
          come = all.arrived;
          others = rest ++ g.arrived;
          grown = all.grown;
          first = g.grown ∙ ap (λ es. es ++ g.arrived) shows;
        }

    marked_round :
        (w : World S)
        → mark w ≡ true
        → (later : List Event) × (queue w.node ++ later ≡ event w ∷ queue (after w).node)
    unfolding pump
    marked_round w m =
        let at = delivered-IsShown w in
        let (arrived, takes) = q.takes _ (event w) at.others at.first m in
        (
          at.come ++ arrived,
          sym (append_assoc (queue w.node) at.come arrived)
              ∙ ap (λ es. es ++ arrived) (sym at.grown ∙ at.first)
              ∙ ap (λ es. event w ∷ es) (sym takes),
        )

    unmarked_round :
        (w : World S)
        → mark w ≡ false
        → (later : List Event) × (queue w.node ++ later ≡ queue (after w).node)
          × (rest : List Event) × (queue (after w).node ≡ event w ∷ rest)
    unfolding pump
    unmarked_round w m =
        let at = delivered-IsShown w in
        let g = q.fails _ m in
        (
          at.come ++ g.arrived,
          sym (append_assoc (queue w.node) at.come g.arrived)
              ∙ ap (λ es. es ++ g.arrived) (sym at.grown)
              ∙ sym g.grown,
          at.others ++ g.arrived,
          g.grown ∙ ap (λ es. es ++ g.arrived) at.first,
        )

    -- A round handles the first event of the queue.
    rounds-StartsWith :
        (n : ℕ) (w : World S) (e : Event) (rest : List Event)
        → queue w.node ≡ e ∷ rest
        → StartsWith e (rounds wallet notifier next_event event_handled n w)
    unfolding rounds
    rounds-StartsWith zero w e rest is = tt
    rounds-StartsWith (suc n) w e rest is =
        let g = q.waits w.node in
        let (others, shows) = q.shows w.node in cc (ap (λ es. es ++ g.arrived) is, g.grown, shows)

    pub rounds-Resumes :
        (n : ℕ) (w : World S) → Resumes (rounds wallet notifier next_event event_handled n w)
    unfolding rounds
    rounds-Resumes zero w = tt
    rounds-Resumes (suc n) w = elim (Bool-cases (mark w)) [
      | inl yes_marked ↦ rw yes_marked (rounds-Resumes n (after w))
      | inr not_marked ↦
          let (later, grown, rest, first) = unmarked_round w not_marked in
          rw not_marked
            (rounds-StartsWith n (after w) (event w) rest first, rounds-Resumes n (after w))
    ]

    pub pump_all-queue :
        (n : ℕ) (w : World S)
        → (later : List Event) × (queue w.node ++ later
            ≡ taken (rounds wallet notifier next_event event_handled n w)
              ++ queue (pump_all wallet notifier next_event event_handled n w).node)
    unfolding rounds pump_all
    pump_all-queue zero w = ([], append-nil (queue w.node))
    pump_all-queue (suc n) w =
        let (later, rest) = pump_all-queue n (after w) in
        elim (Bool-cases (mark w)) [
          | inl yes_marked ↦
              let (new, grown) = marked_round w yes_marked in
              (
                new ++ later,
                rw yes_marked (
                    sym (append_assoc (queue w.node) new later)
                    ∙ ap (λ es. es ++ later) grown
                    ∙ ap (λ es. event w ∷ es) rest),
              )
          | inr not_marked ↦
              let (new, grown, others, first) = unmarked_round w not_marked in
              (
                new ++ later,
                rw not_marked (
                    sym (append_assoc (queue w.node) new later)
                    ∙ ap (λ es. es ++ later) grown
                    ∙ rest),
              )
        ]
