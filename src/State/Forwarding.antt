-- ===== src/State/Forwarding.antt =====
-- src/state/forwarding_store.rs: the payments that this node has forwarded, oldest first.
pub mod Pages
use dln_node_knots.Prelude.{
  ℕ, Bool, true, false, Option, none, some, List, [], ◌∷◌, ◌++◌, ltb, if◌then◌else◌, take, drop,
}
use dln_node_knots.Prelude.Select.{select}
use dln_node_knots.Text.{Text}

pub record ForwardingEntry : Type 0 where
  pub incoming_channel_id : Text
  pub outgoing_channel_id : Text
  pub incoming_amount : ℕ
  pub outgoing_amount : ℕ
  pub fee_earned : ℕ
  pub settled_at : ℕ

abbrev pub Forwards : Type 0
Forwards = List ForwardingEntry

unfoldable pub record_forward : ForwardingEntry → Forwards → Forwards
record_forward entry h = h ++ entry ∷ []

-- `if let Some(from_ts) = from { if t < from_ts { return false } }`, and the same for `until`.
abbrev pub before_from : Option ℕ → ℕ → Bool
before_from none t = false
before_from (some from) t = ltb t from

abbrev pub after_until : Option ℕ → ℕ → Bool
after_until none t = false
after_until (some until) t = ltb until t

unfoldable pub in_window : Option ℕ → Option ℕ → ForwardingEntry → Bool
in_window from until e =
    if before_from from e.settled_at
    then false
    else if after_until until e.settled_at
    then false
    else true

unfoldable pub get_history : Option ℕ → Option ℕ → ℕ → ℕ → Forwards → List ForwardingEntry
get_history from until limit offset h = take limit (drop offset (select (in_window from until) h))

unfoldable pub clear : Forwards → Forwards
clear h = []
