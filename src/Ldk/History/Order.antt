-- ===== src/Ldk/History/Order.antt =====
-- The order of the payment history.
use dln_node_knots.Prelude.{
  ℕ, ◌≤◌, Option, some, none, List, [], ◌∷◌, arith, if◌then◌else◌, ltb, take, drop, zero, suc, All,
  All-take, unwrap_or, Bool-cases, inl, inr,
}
use dln_node_knots.Prelude.Select.{select}
use dln_node_knots.Node.Types.{PaymentDetails}
use dln_node_knots.Ldk.History.{Query, admits, insert_newest, sort_newest, select_payments, limited}

abbrev time : PaymentDetails → ℕ
time p = p.latest_update_timestamp

-- No payment is followed by one that was updated later.
abbrev pub IsNewestFirst : List PaymentDetails → Type 0
IsNewestFirst [] = Unit {0}
IsNewestFirst (p ∷ ps) = All (λ r. time r ≤ time p) ps × IsNewestFirst ps

insert_newest-All :
    (t : ℕ) (p : PaymentDetails) (ps : List PaymentDetails)
    → time p ≤ t
    → All (λ r. time r ≤ t) ps
    → All (λ r. time r ≤ t) (insert_newest p ps)
unfolding insert_newest
insert_newest-All t p [] h hs = (h, tt)
insert_newest-All t p (r ∷ rs) h hs = ground (arith, insert_newest-All t p rs h hs.1)

All-mono :
    (t u : ℕ) (ps : List PaymentDetails)
    → t ≤ u
    → All (λ r. time r ≤ t) ps
    → All (λ r. time r ≤ u) ps
All-mono t u [] h hs = tt
All-mono t u (r ∷ rs) h hs = (omega (arith, hs.0), All-mono t u rs h hs.1)

insert_newest-IsNewestFirst :
    (p : PaymentDetails) (ps : List PaymentDetails)
    → IsNewestFirst ps
    → IsNewestFirst (insert_newest p ps)
unfolding insert_newest
insert_newest-IsNewestFirst p [] h = (tt, tt)
insert_newest-IsNewestFirst p (r ∷ rs) h = elim (Bool-cases (ltb (time p) (time r))) [
  | inl later ↦
      rw later
        (insert_newest-All (time r) p rs (ground arith) h.0, insert_newest-IsNewestFirst p rs h.1)
  | inr not_later ↦
      let le : time r ≤ time p = ground arith in
      rw not_later ((le, All-mono (time r) (time p) rs le h.0), h)
]

sort_newest-IsNewestFirst : (ps : List PaymentDetails) → IsNewestFirst (sort_newest ps)
unfolding sort_newest
sort_newest-IsNewestFirst [] = tt
sort_newest-IsNewestFirst (p ∷ ps) =
    insert_newest-IsNewestFirst p (sort_newest ps) (sort_newest-IsNewestFirst ps)

take-IsNewestFirst :
    (n : ℕ) (ps : List PaymentDetails) → IsNewestFirst ps → IsNewestFirst (take n ps)
take-IsNewestFirst zero ps h = tt
take-IsNewestFirst (suc n) [] h = tt
take-IsNewestFirst (suc n) (p ∷ ps) h = (All-take _ n ps h.0, take-IsNewestFirst n ps h.1)

drop-IsNewestFirst :
    (n : ℕ) (ps : List PaymentDetails) → IsNewestFirst ps → IsNewestFirst (drop n ps)
drop-IsNewestFirst zero ps h = h
drop-IsNewestFirst (suc n) [] h = tt
drop-IsNewestFirst (suc n) (p ∷ ps) h = drop-IsNewestFirst n ps h.1

-- Every answer to a query, whatever its bounds and its page, lists the payments newest first.
pub select_payments-IsNewestFirst :
    (q : Query) (listed : List PaymentDetails) → IsNewestFirst (select_payments q listed)
unfolding select_payments
select_payments-IsNewestFirst q listed = limited-IsNewestFirst q.limit _ (
    skipped (sort_newest (select (admits q) listed))
      (sort_newest-IsNewestFirst (select (admits q) listed)))
  where
    limited-IsNewestFirst :
        (limit : Option ℕ) (ps : List PaymentDetails)
        → IsNewestFirst ps
        → IsNewestFirst (limited limit ps)
    limited-IsNewestFirst none ps h = h
    limited-IsNewestFirst (some n) ps h = take-IsNewestFirst n ps h

    skipped :
        (ps : List PaymentDetails)
        → IsNewestFirst ps
        → IsNewestFirst
            (if ltb 0 (unwrap_or q.offset 0) then drop (unwrap_or q.offset 0) ps else ps)
    skipped ps h = elim (Bool-cases (ltb 0 (unwrap_or q.offset 0))) [
      | inl t ↦ rw t (drop-IsNewestFirst (unwrap_or q.offset 0) ps h)
      | inr t ↦ rw t h
    ]
