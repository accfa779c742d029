-- ===== src/Events/Delivery.antt =====
-- announce_wallet and announce_control of src/events.rs: what becomes of the notice of an event.
use dln_node_knots.Prelude.{Option, none, some, ◌≡◌, refl}
use dln_node_knots.Prelude.Outcome.{Outcome, ok, err, panic, out_of_fuel}
use dln_node_knots.Text.{Text}
use dln_node_knots.Ldk.{World}
use dln_node_knots.Events.{
  Notice, received_notice, sent_notice, accepted_notice, opened_notice, closed_notice,
}

-- Of nostr-ln: the making of a notification, which writes it as JSON, and its delivery.
pub record Notifier (S N : Type 0) : Type 0 where
  pub build : Notice → Outcome Text N
  pub announce : N → S → Outcome Text (Unit {0}) × S

module _ {S N : Type 0} (notifier : Notifier S N) where
  -- A failure to build or to announce is only logged.
  unfoldable pub announce_wallet : Outcome Text N → S → S
  announce_wallet (ok n) s = (notifier.announce n s).1
  announce_wallet (err e) s = s
  announce_wallet panic s = s
  announce_wallet out_of_fuel s = s

  unfoldable pub announce_control : Outcome Text N → S → S
  announce_control (ok n) s = (notifier.announce n s).1
  announce_control (err e) s = s
  announce_control panic s = s
  announce_control out_of_fuel s = s

  announce_notice : Notice → S → S
  announce_notice (received_notice t) = announce_wallet (notifier.build (received_notice t))
  announce_notice (sent_notice t) = announce_wallet (notifier.build (sent_notice t))
  announce_notice (accepted_notice h) = announce_wallet (notifier.build (accepted_notice h))
  announce_notice (opened_notice c) = announce_control (notifier.build (opened_notice c))
  announce_notice (closed_notice c) = announce_control (notifier.build (closed_notice c))

  -- The end of each arm of `handle`.
  unfoldable pub deliver : Option Notice → World S → World S
  unfolding announce_notice
  deliver none w = w
  deliver (some notice) w = record w { node = announce_notice notice w.node }

  -- Only the outside changes.
  pub deliver-node :
      (notice : Option Notice) (w : World S)
      → deliver notice w ≡ record w { node = (deliver notice w).node }
  unfolding deliver
  deliver-node none w = refl
  deliver-node (some notice) w = refl

  -- What every announcement keeps, a delivery keeps.
  module _ (P : S → Type 0) (announced : (n : N) (s : S) → P s → P (notifier.announce n s).1) where
    announce_wallet-rule : (r : Outcome Text N) (s : S) → P s → P (announce_wallet r s)
    unfolding announce_wallet
    announce_wallet-rule (ok n) s p = announced n s p
    announce_wallet-rule (err e) s p = p
    announce_wallet-rule panic s p = p
    announce_wallet-rule out_of_fuel s p = p

    announce_control-rule : (r : Outcome Text N) (s : S) → P s → P (announce_control r s)
    unfolding announce_control
    announce_control-rule (ok n) s p = announced n s p
    announce_control-rule (err e) s p = p
    announce_control-rule panic s p = p
    announce_control-rule out_of_fuel s p = p

    pub deliver-rule : (notice : Option Notice) (w : World S) → P w.node → P (deliver notice w).node
    unfolding deliver
    deliver-rule none w p = p
    deliver-rule (some (received_notice t)) w p = announce_wallet-rule _ w.node p
    deliver-rule (some (sent_notice t)) w p = announce_wallet-rule _ w.node p
    deliver-rule (some (accepted_notice h)) w p = announce_wallet-rule _ w.node p
    deliver-rule (some (opened_notice c)) w p = announce_control-rule _ w.node p
    deliver-rule (some (closed_notice c)) w p = announce_control-rule _ w.node p
