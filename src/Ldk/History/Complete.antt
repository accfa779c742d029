-- ===== src/Ldk/History/Complete.antt =====
-- The contents of list_payments_filtered (src/lightning/ldk_service.rs), against its query.
use mathlib.Core.List.{Perm, perm_middle}
use mathlib.Core.List.Perm
use dln_node_knots.Prelude.{
  ℕ, ◌+◌, true, not, none, some, List, [], ◌∷◌, ◌++◌, ◌≡◌, refl, arith, if◌then◌else◌, ltb, drop,
  take-add, drop-drop, Bool-cases, inl, inr, zero, suc, All,
}
use dln_node_knots.Prelude.Select.{select}
use dln_node_knots.Node.Types.{PaymentDetails}
use dln_node_knots.Ldk.History.{Query, admits, insert_newest, sort_newest, select_payments}
use dln_node_knots.Ldk.History.Meets.{Meets, admits_iff}

insert_newest-perm :
    (p : PaymentDetails) (ps : List PaymentDetails) → Perm (insert_newest p ps) (p ∷ ps)
unfolding insert_newest
insert_newest-perm p [] = Perm.refl (p ∷ [])
insert_newest-perm p (r ∷ rs) =
    elim (Bool-cases (ltb p.latest_update_timestamp r.latest_update_timestamp)) [
      | inl t ↦ rw t (Perm.trans (Perm.cons r (insert_newest-perm p rs)) (Perm.swap p r rs))
      | inr t ↦ rw t (Perm.refl (p ∷ r ∷ rs))
    ]

sort_newest-perm : (ps : List PaymentDetails) → Perm (sort_newest ps) ps
unfolding sort_newest
sort_newest-perm [] = Perm.refl []
sort_newest-perm (p ∷ ps) =
    Perm.trans (insert_newest-perm p (sort_newest ps)) (Perm.cons p (sort_newest-perm ps))

insert_newest-All :
    (P : PaymentDetails → Type 0) (p : PaymentDetails) (ps : List PaymentDetails)
    → P p
    → All P ps
    → All P (insert_newest p ps)
unfolding insert_newest
insert_newest-All P p [] h hs = (h, tt)
insert_newest-All P p (r ∷ rs) h hs =
    elim (Bool-cases (ltb p.latest_update_timestamp r.latest_update_timestamp)) [
      | inl t ↦ rw t (hs.0, insert_newest-All P p rs h hs.1)
      | inr t ↦ rw t (h, hs)
    ]

sort_newest-All :
    (P : PaymentDetails → Type 0) (ps : List PaymentDetails) → All P ps → All P (sort_newest ps)
unfolding sort_newest
sort_newest-All P [] hs = tt
sort_newest-All P (p ∷ ps) hs =
    insert_newest-All P p (sort_newest ps) hs.0 (sort_newest-All P ps hs.1)

all_selected :
    (q : Query) (listed : List PaymentDetails)
    → q.limit ≡ none
    → q.offset ≡ none
    → select_payments q listed ≡ sort_newest (select (admits q) listed)
unfolding select_payments
all_selected q listed no_limit no_offset = simp (no_limit, no_offset)

skip-drop : (n : ℕ) (ps : List PaymentDetails) → (if ltb 0 n then drop n ps else ps) ≡ drop n ps
skip-drop zero ps = refl
skip-drop (suc n) ps = ground arith

-- Two pages that follow one another make one page, for every query: with limits n and m and the
-- second offset n past the first.
select_payments-append :
    (q : Query) (n m offset : ℕ) (listed : List PaymentDetails)
    → select_payments (record q { limit = some n; offset = some offset }) listed
        ++ select_payments (record q { limit = some m; offset = some (offset + n) }) listed
      ≡ select_payments (record q { limit = some (n + m); offset = some offset }) listed
unfolding select_payments admits
select_payments-append q n m offset listed =
    let sorted = sort_newest (select (admits q) listed) in
    rw (skip-drop offset sorted, skip-drop (offset + n) sorted, ← drop-drop offset n sorted)
      (take-add n m (drop offset sorted))

rejected : Query → List PaymentDetails → List PaymentDetails
rejected q = select (λ (p : PaymentDetails). not (admits q p))

select-All : (q : Query) (ps : List PaymentDetails) → All (Meets q) (select (admits q) ps)
select-All q [] = tt
select-All q (p ∷ ps) = elim (Bool-cases (admits q p)) [
  | inl is ↦ rw is ((admits_iff q p).0 is, select-All q ps)
  | inr out ↦ rw out (select-All q ps)
]

rejected-All : (q : Query) (ps : List PaymentDetails) → All (λ p. ¬ Meets q p) (rejected q ps)
unfolding rejected
rejected-All q [] = tt
rejected-All q (p ∷ ps) = elim (Bool-cases (admits q p)) [
  | inl is ↦ rw is (rejected-All q ps)
  | inr out ↦
      rw out (λ m. let is : admits q p ≡ true = (admits_iff q p).1 m in cc, rejected-All q ps)
]

parted-perm :
    (q : Query) (ps : List PaymentDetails) → Perm (select (admits q) ps ++ rejected q ps) ps
unfolding rejected
parted-perm q [] = Perm.refl []
parted-perm q (p ∷ ps) = elim (Bool-cases (admits q p)) [
  | inl is ↦ rw is (Perm.cons p (parted-perm q ps))
  | inr out ↦ rw out (
      Perm.trans (perm_middle (select (admits q) ps) (rejected q ps))
        (Perm.cons p (parted-perm q ps)))
]

-- With no limit and no offset, the answer and the payments left out are together a permutation of
-- those listed: none is lost, added or repeated. Every payment of the answer meets the query and
-- none of those left out does: within the time bounds, inclusive, of the direction and the method
-- if one is given, and pending only where `unpaid` is true.
pub select_payments-Parts :
    (q : Query) (listed : List PaymentDetails)
    → q.limit ≡ none
    → q.offset ≡ none
    → (left_out : List PaymentDetails) × Perm (select_payments q listed ++ left_out) listed
      × All (Meets q) (select_payments q listed)
      × All (λ p. ¬ Meets q p) left_out
select_payments-Parts q listed no_limit no_offset =
    let chosen = select (admits q) listed in
    rw (all_selected q listed no_limit no_offset) (
      rejected q listed,
      Perm.trans (Perm.append_right (rejected q listed) (sort_newest-perm chosen))
          (parted-perm q listed),
      sort_newest-All (Meets q) chosen (select-All q listed),
      rejected-All q listed,
    )
