-- ===== src/State/Forwarding/Pages.antt =====
-- The pages of the forwarding history.
use dln_node_knots.Prelude.{
  ℕ, ◌+◌, ◌≤◌, true, Option, none, some, List, [], ◌∷◌, ◌++◌, ◌≡◌, ap, ◌∙◌, arith, if◌then◌else◌,
  take, drop, length, length-take, take-add, drop-drop, take_all, length-append, sym, All, All-take,
  All-drop,
}
use dln_node_knots.Prelude.Select.{select, select-append, length-select-le, All-select}
use dln_node_knots.State.Forwarding.{
  ForwardingEntry, Forwards, record_forward, in_window, get_history,
}

-- The bounds are inclusive, and a bound that is absent admits every time.
abbrev pub AtLeast : Option ℕ → ℕ → Type 0
AtLeast none t = Unit {0}
AtLeast (some from) t = from ≤ t

abbrev pub AtMost : Option ℕ → ℕ → Type 0
AtMost none t = Unit {0}
AtMost (some until) t = t ≤ until

in_window_sound :
    (from until : Option ℕ) (e : ForwardingEntry)
    → in_window from until e ≡ true
    → AtLeast from e.settled_at × AtMost until e.settled_at
unfolding in_window
in_window_sound from until e h = ground arith

in_window_complete :
    (from until : Option ℕ) (e : ForwardingEntry)
    → AtLeast from e.settled_at
    → AtMost until e.settled_at
    → in_window from until e ≡ true
unfolding in_window
in_window_complete from until e lo hi = ground arith

-- A page holds at most `limit` entries, each settled within the bounds.
get_history_bounds :
    (from until : Option ℕ) (limit offset : ℕ) (h : Forwards)
    → (length (get_history from until limit offset h) ≤ limit)
      × All
          (λ e. AtLeast from e.settled_at × AtMost until e.settled_at)
          (get_history from until limit offset h)
unfolding get_history
get_history_bounds from until limit offset h = (
  omega (arith, length-take limit (drop offset (select (in_window from until) h))),
  All-take _ limit _ (
      All-drop _ offset _
        (All-select _ (in_window from until) h (λ e _ t. in_window_sound from until e t))),
)

-- Two pages that follow one another make one page: no entry is lost or shown twice between them.
get_history-append :
    (from until : Option ℕ) (n m offset : ℕ) (h : Forwards)
    → get_history from until n offset h ++ get_history from until m (offset + n) h
      ≡ get_history from until (n + m) offset h
unfolding get_history
get_history-append from until n m offset h =
    let shown = select (in_window from until) h in
    ap (λ (t : List ForwardingEntry). take n (drop offset shown) ++ take m t)
      (sym (drop-drop offset n shown))
    ∙ take-add n m (drop offset shown)

-- The page of everything, after a payment is forwarded, is the page before it followed by the
-- new entry, if that was settled within the bounds.
pub get_history-record_forward :
    (from until : Option ℕ) (e : ForwardingEntry) (h : Forwards)
    → get_history from until (length h + 1) 0 (record_forward e h)
      ≡ get_history from until (length h) 0 h ++ (if in_window from until e then e ∷ [] else [])
unfolding get_history record_forward
get_history-record_forward from until e h =
    let test = in_window from until in
    rw (
      select-append test h (e ∷ []),
      take_all (length h + 1) (select test h ++ select test (e ∷ [])) (
          ground (
            arith,
            length-append (select test h) (select test (e ∷ [])),
            length-select-le test h,
            length-select-le test (e ∷ []),
          )),
      take_all (length h) (select test h) (length-select-le test h),
    )
