-- ===== src/Wallet/Offers/Disable.antt =====
-- Disabling an offer through src/wallet.rs, and offers that were made.
use dln_node_knots.Prelude.{
  ℕ, ◌-◌, ◌^◌, ◌≤◌, ◌<◌, true, false, ltb, u32_size, length, All, ◌⊎◌, not, ◌&&◌, Option, none,
  some, [], ◌∷◌, ◌≡◌, ◌≢◌, refl, arith, inl, inr, is_some, unwrap_or, Bool-cases, Option-cases,
  subst,
}
use dln_node_knots.Prelude.Outcome.{Outcome, ok, err, panic, out_of_fuel, Outcome-cases}
use dln_node_knots.Text.{Bytes, Text, codes}
use dln_node_knots.Text.Equality.{text_eq_iff, text_eq_refl}
use dln_node_knots.TextMap.{update}
use dln_node_knots.TextMap.Laws.{get-insert}
use dln_node_knots.State.Offers.{
  OfferRecord, OfferStore, find_by_offer_id, get_offer, insert_offer, disabled, new_offer,
  disable_offer as disable_stored,
}
use dln_node_knots.State.Offers.Invariant.{
  IsWellFormed, find_by_offer_id-Answers, disable_offer_lem, Answers,
}
use dln_node_knots.Ldk.{World}
use dln_node_knots.Ldk.Send
use dln_node_knots.Node.Types.{Offer}
use dln_node_knots.Wallet.{Wallet}
use dln_node_knots.Wallet.Offers.{
  disable_offer, parse_offer_id, make_offer, MakeOfferRequest, MakeOfferResponse, offer_id_of,
  expiry_in, to_u32, id_or_zeros,
}

update-update :
    (k : Text) (m : OfferStore) → update k disabled (update k disabled m) ≡ update k disabled m
unfolding update
update-update k [] = refl
update-update k ((j, r) ∷ m) = ground (arith, update-update k m)

find-update :
    (k : Text) (id : Bytes) (m : OfferStore)
    → find_by_offer_id id (update k disabled m) ≡ find_by_offer_id id m
unfolding update find_by_offer_id
find-update k id [] = refl
find-update k id ((j, r) ∷ m) = ground (arith, find-update k id m)

disable-disable :
    (k : Text) (m : OfferStore)
    → (disable_stored k (disable_stored k m).1).1 ≡ (disable_stored k m).1
unfolding disable_stored
disable-disable k m = update-update k m

find-disable :
    (k : Text) (id : Bytes) (m : OfferStore)
    → find_by_offer_id id (disable_stored k m).1 ≡ find_by_offer_id id m
unfolding disable_stored
find-disable k id m = find-update k id m

get-disable :
    (offer : Text) (m : OfferStore) (r : OfferRecord)
    → get_offer offer m ≡ some r
    → get_offer offer (disable_stored offer m).1 ≡ some (disabled r)
get-disable offer m r known =
    ground (arith, (disable_offer_lem offer offer m).1, text_eq_refl offer)

get-disable_other :
    (offer other : Text) (m : OfferStore)
    → other ≢ offer
    → get_offer other (disable_stored offer m).1 ≡ get_offer other m
get-disable_other offer other m h =
    ground (arith, (disable_offer_lem offer other m).1, text_eq_iff offer other)

module _ {S : Type 0} (wallet : Wallet S) where
  -- Disabling an offer a second time succeeds too, and changes nothing.
  disable_offer_again :
      (offer_id : Text) (w w' : World S)
      → disable_offer wallet offer_id w ≡ (ok tt, w')
      → disable_offer wallet offer_id w' ≡ (ok tt, w')
  unfolding disable_offer
  disable_offer_again offer_id w w' h =
      elim (Option-cases (parse_offer_id wallet.ldk.lib offer_id)) [
        | inl bad ↦ absurd (ground arith)
        | inr (id, parsed) ↦ elim (Option-cases (find_by_offer_id id w.offers)) [
          | inl unknown ↦ absurd (ground arith)
          | inr (offer, found) ↦
              ground (arith, disable-disable offer w.offers, find-disable offer id w.offers)
        ]
      ]

  -- In a well-formed table, when disabling succeeds, there was an offer whose id is the one given in
  -- hexadecimal; it is known afterwards with the same record, switched off; and every other offer
  -- has the record that it had.
  pub disable_offer_off :
      (offer_id : Text) (w w' : World S)
      → IsWellFormed w.offers
      → disable_offer wallet offer_id w ≡ (ok tt, w')
      → (offer : Text) × (r : OfferRecord) × (get_offer offer w.offers ≡ some r)
        × (parse_offer_id wallet.ldk.lib offer_id ≡ some r.offer_id)
        × (get_offer offer w'.offers ≡ some (record r { active = false }))
        × ((other : Text) → other ≢ offer → get_offer other w'.offers ≡ get_offer other w.offers)
  unfolding disable_offer
  disable_offer_off offer_id w w' v h =
      elim (Option-cases (parse_offer_id wallet.ldk.lib offer_id)) [
        | inl bad ↦ absurd (ground arith)
        | inr (id, parsed) ↦ elim (Option-cases (find_by_offer_id id w.offers)) [
          | inl unknown ↦ absurd (ground arith)
          | inr (offer, found) ↦
              let (r, known, same) =
                subst (Answers id w.offers) found (find_by_offer_id-Answers id w.offers v) in
              let kept : w'.offers ≡ (disable_stored offer w.offers).1 = ground arith in
              (
                offer,
                r,
                known,
                rw (parsed, same) refl,
                rw kept (get-disable offer w.offers r known),
                λ other h'. rw kept (get-disable_other offer other w.offers h'),
              )
        ]
      ]

  -- The expiry that the node is asked for: none, or the seconds that are left, unless they exceed
  -- a u32, which are then dropped. Only then is the clock read.
  abbrev pub IsSeconds : ℕ → Option ℕ → Type 0
  IsSeconds n none = 2 ^ 32 ≤ n
  IsSeconds n (some m) = (m ≡ n) × (n < 2 ^ 32)

  abbrev pub Expires : Option ℕ → S → Option ℕ → S → Type 0
  Expires none s seconds t = (seconds ≡ none) × (t ≡ s)
  Expires (some e) s seconds t =
      IsSeconds (e - (wallet.ldk.node.system_time s).0) seconds
      × (t ≡ (wallet.ldk.node.system_time s).1)

  -- The id of an offer that parses, and 32 zeros for another one.
  abbrev pub IsIdOf : Outcome Text Offer → Bytes → Type 0
  IsIdOf (ok o) id = id ≡ o.id
  IsIdOf _ id = All (λ (b : ℕ). b ≡ 0) id × (length id ≡ 32)

  -- An offer that was made: the node has issued it for the amount, the description and the expiry
  -- of the request, and the table has a record of it, active and with nothing received.
  pub record IsMade (r : MakeOfferRequest) (w w' : World S) (made : MakeOfferResponse)
      : Type 0 where
    pub described : r.amount ≡ none ⊎ (description : Text) × (r.description ≡ some description)
    pub seconds : Option ℕ
    pub before : S
    pub expires : Expires r.expires_at w.node seconds before
    pub issued :
        (wallet.ldk.node.receive_offer
          (unwrap_or r.amount 0)
          (unwrap_or r.description (codes "offer"))
          seconds
          before).0
        ≡ ok made.offer
    pub id : Bytes
    pub id_of : IsIdOf (wallet.ldk.lib.parse_offer made.offer) id
    pub stored :
        get_offer made.offer w'.offers
        ≡ some (record {
          offer = made.offer;
          description = unwrap_or r.description (codes "offer");
          amount_msat = unwrap_or r.amount 0;
          active = true;
          num_payments_received = 0;
          total_received_msat = 0;
          offer_id = id;
        })

  expiry_in-Expires :
      (o : Option ℕ) (w : World S)
      → (e : Option ℕ) × (v : World S) × (expiry_in wallet o w ≡ (ok e, v))
        × Expires o w.node e v.node
        × (v.offers ≡ w.offers)
  unfolding expiry_in
  expiry_in-Expires none w = (_, _, refl, (refl, refl), refl)
  expiry_in-Expires (some e) w =
      let n = e - (wallet.ldk.node.system_time w.node).0 in
      (_, _, refl, (to_u32-IsSeconds n, refl), refl)
    where
      to_u32-IsSeconds : (n : ℕ) → IsSeconds n (to_u32 n)
      to_u32-IsSeconds n = elim (Bool-cases (ltb n u32_size)) [
        | inl fits ↦ rw fits (refl, ground arith)
        | inr over ↦ rw over (ground arith)
      ]

  id_or_zeros-IsIdOf : (o : Outcome Text Offer) → IsIdOf o (id_or_zeros o)
  id_or_zeros-IsIdOf (ok o) = refl
  id_or_zeros-IsIdOf (err e) = (ground arith, refl)
  id_or_zeros-IsIdOf panic = (ground arith, refl)
  id_or_zeros-IsIdOf out_of_fuel = (ground arith, refl)

  offer_id_of-IsIdOf :
      (offer : Text) → IsIdOf (wallet.ldk.lib.parse_offer offer) (offer_id_of wallet.ldk.lib offer)
  unfolding offer_id_of
  offer_id_of-IsIdOf offer = id_or_zeros-IsIdOf (wallet.ldk.lib.parse_offer offer)

  some_described :
      (amount : Option ℕ) (description : Option Text)
      → (is_some amount && not (is_some description)) ≡ false
      → amount ≡ none ⊎ (d : Text) × (description ≡ some d)
  some_described none description h = inl refl
  some_described (some a) none h = cc
  some_described (some a) (some d) h = inr (d, refl)

  -- When an offer is made, the node has issued it for the amount and the description of the request,
  -- or zero and "offer", with the seconds until the expiry that is asked for, which are dropped
  -- where they exceed a u32; an amount came with a description; and the text of the offer is in the
  -- table with a record of them: active, with no payments and nothing received, under the id of
  -- the offer.
  pub make_offer-IsMade :
      (r : MakeOfferRequest) (w w' : World S) (made : MakeOfferResponse)
      → make_offer wallet r w ≡ (ok made, w')
      → IsMade r w w' made
  unfolding make_offer insert_offer get_offer Send.make_offer
  make_offer-IsMade r w w' made h =
      let desc = unwrap_or r.description (codes "offer") in
      let amount = unwrap_or r.amount 0 in
      elim (Bool-cases (is_some r.amount && not (is_some r.description))) [
        | inl bad ↦ absurd (ground arith)
        | inr fine ↦
            let (expiry, w1, e1, expires, kept) = expiry_in-Expires r.expires_at w in
            let (m, t) = wallet.ldk.node.receive_offer amount desc expiry w1.node in
            elim (Outcome-cases m) [
              | inl refused ↦ absurd (ground arith)
              | inr (offer, e2) ↦
                  let v = new_offer offer desc amount (offer_id_of wallet.ldk.lib offer) in
                  let same : offer ≡ made.offer = ground arith in
                  record {
                    described = some_described r.amount r.description fine;
                    seconds = expiry;
                    before = w1.node;
                    expires = expires;
                    issued = ground arith;
                    id = offer_id_of wallet.ldk.lib made.offer;
                    id_of = offer_id_of-IsIdOf made.offer;
                    stored =
                        ground
                          (arith, get-insert offer offer v w1.offers, text_eq_refl offer, same);
                  }
            ]
      ]
