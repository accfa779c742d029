-- ===== src/State/Offers/Invariant.antt =====
-- Sequences of calls of src/state/offer_store.rs, and the search by id.
use dln_node_knots.Prelude.{
  ℕ, Bool, Option, none, some, List, [], ◌∷◌, ◌≡◌, ◌≢◌, refl, arith, All, inl, inr, if◌then◌else◌,
  map_option, is_some, Option-cases,
}
use dln_node_knots.Prelude.Select.{find_by, find_by_sound, find_by-none, Has}
use dln_node_knots.Text.{Bytes, Text, text_eq}
use dln_node_knots.Text.Equality.{text_eq_iff}
use dln_node_knots.TextMap.{insert, update}
use dln_node_knots.TextMap.Laws.{
  Distinct, insert-Distinct, update-Distinct, get_of_Has, get-Has, get-update,
}
use dln_node_knots.State.Offers.{
  OfferRecord, OfferStore, new_offer, insert_offer, find_by_offer_id, get_offer, disable_offer,
  record_payment, clear, disabled, with_payment,
}

-- The calls that write.
pub data Call : Type 0 where
  insert_call : Text → Text → ℕ → Bytes → Call
  disable_call : Text → Call
  payment_call : Text → ℕ → Call
  clear_call : Call

unfoldable pub step : OfferStore → Call → OfferStore
step m (insert_call offer description amount id) = insert_offer offer description amount id m
step m (disable_call offer) = (disable_offer offer m).1
step m (payment_call offer amount) = record_payment offer amount m
step m clear_call = clear m

pub run : OfferStore → List Call → OfferStore
run m [] = m
run m (c ∷ cs) = run (step m c) cs

-- Each record is filed under its own offer.
abbrev pub Filed : OfferStore → Type 0
Filed = All (λ e. e.1.offer ≡ e.0)

pub record IsWellFormed (m : OfferStore) : Type 0 where
  pub distinct : Distinct m
  pub filed : Filed m

insert-Filed :
    (k : Text) (v : OfferRecord) (m : OfferStore) → v.offer ≡ k → Filed m → Filed (insert k v m)
unfolding insert
insert-Filed k v [] e h = (e, tt)
insert-Filed k v ((j, w) ∷ m) e h = ground (arith, text_eq_iff j k, insert-Filed k v m e h.1)

update-Filed :
    (k : Text) (f : OfferRecord → OfferRecord) (m : OfferStore)
    → ((r : OfferRecord) → (f r).offer ≡ r.offer)
    → Filed m
    → Filed (update k f m)
unfolding update
update-Filed k f [] e h = tt
update-Filed k f ((j, w) ∷ m) e h = ground (arith, e w, update-Filed k f m e h.1)

pub step-IsWellFormed : (m : OfferStore) (c : Call) → IsWellFormed m → IsWellFormed (step m c)
unfolding step insert_offer disable_offer record_payment clear
step-IsWellFormed m (insert_call o d a i) v = record {
  distinct = insert-Distinct o (new_offer o d a i) m v.distinct;
  filed = insert-Filed o (new_offer o d a i) m refl v.filed;
}
step-IsWellFormed m (disable_call o) v = record {
  distinct = update-Distinct o disabled m v.distinct;
  filed = update-Filed o disabled m (λ r. refl) v.filed;
}
step-IsWellFormed m (payment_call o a) v = record {
  distinct = update-Distinct o (with_payment a) m v.distinct;
  filed = update-Filed o (with_payment a) m (λ r. refl) v.filed;
}
step-IsWellFormed m clear_call v = record { distinct = tt; filed = tt }

-- Whatever calls are made on a well-formed table, no offer has two records afterwards, and every
-- record is filed under its own offer.
run-IsWellFormed : (m : OfferStore) (cs : List Call) → IsWellFormed m → IsWellFormed (run m cs)
unfolding run
run-IsWellFormed m [] v = v
run-IsWellFormed m (c ∷ cs) v = run-IsWellFormed (step m c) cs (step-IsWellFormed m c v)

-- What a search for an id may answer: an offer of that id, or nothing where no offer has it.
abbrev pub Answers : Bytes → OfferStore → Option Text → Type 0
Answers id m none = (k : Text) (r : OfferRecord) → get_offer k m ≡ some r → r.offer_id ≢ id
Answers id m (some k) = (r : OfferRecord) × (get_offer k m ≡ some r) × (r.offer_id ≡ id)

All_of_Has : {A : Type 0} (P : A → Type 0) (a : A) (xs : List A) → All P xs → Has a xs → P a
All_of_Has P a [] h i = absurd i
All_of_Has P a (x ∷ xs) h (inl e) = rw e h.0
All_of_Has P a (x ∷ xs) h (inr i) = All_of_Has P a xs h.1 i

-- In a well-formed table `find_by_offer_id` answers with an offer of that id, and with nothing
-- only where no offer has it.
pub find_by_offer_id-Answers :
    (id : Bytes) (m : OfferStore) → IsWellFormed m → Answers id m (find_by_offer_id id m)
unfolding find_by_offer_id get_offer
find_by_offer_id-Answers id m v = elim (Option-cases (find_by has_id m)) [
  | inl e ↦ rw e λ k r found same.
      let other = All_of_Has _ (k, r) m (find_by-none has_id m e) (get-Has k r m found) in
      cc (other, (text_eq_iff r.offer_id id).1 same)
  | inr (a, e) ↦ rw e (
      let (h, same) = find_by_sound has_id m a e in
      (a.1, get_of_Has a.0 a.1 m v.distinct h, (text_eq_iff a.1.offer_id id).0 same))
]
  where
    has_id : Text × OfferRecord → Bool
    has_id e = text_eq e.1.offer_id id

-- `disable_offer` answers whether the offer is known; afterwards it is known as before, with the
-- same record but for `active`, which is off, and every other offer has the record that it had.
pub disable_offer_lem :
    (offer other : Text) (m : OfferStore)
    → ((disable_offer offer m).0 ≡ is_some (get_offer offer m))
      × (get_offer other (disable_offer offer m).1 ≡ (
          if text_eq offer other
          then map_option disabled (get_offer offer m)
          else get_offer other m))
unfolding disable_offer get_offer
disable_offer_lem offer other m = (refl, get-update offer other disabled m)
