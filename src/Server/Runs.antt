-- ===== src/Server/Runs.antt =====
-- Sequences of calls of the tables of src/state, and actions whose effect on the tables is one.
use dln_node_knots.Prelude.{
  ℕ, Bool, true, false, List, [], ◌∷◌, ◌++◌, ◌≡◌, refl, sym, ap, ◌∙◌, Option, none, some,
  if◌then◌else◌,
}
use dln_node_knots.Prelude.Outcome.{Outcome, ok, err, panic, out_of_fuel}
use dln_node_knots.Prelude.Act.{Act, pure, fail, lift, follow, ◌>>=◌}
use dln_node_knots.Text.{Bytes, Text}
use dln_node_knots.State.Offers.{OfferStore, insert_offer, disable_offer}
use dln_node_knots.State.Addresses.{AddressStore, register_address}
use dln_node_knots.State.Forwarding.{Forwards, ForwardingEntry, record_forward}
use dln_node_knots.Ldk.{World, call, try_call, catch_as}

-- The three tables, and the calls of them that the handlers make.
pub record Tables : Type 0 where
  pub offers : OfferStore
  pub addresses : AddressStore
  pub forwards : Forwards

pub data TableCall : Type 0 where
  insert_call : Text → Text → ℕ → Bytes → TableCall
  disable_call : Text → TableCall
  register_call : Text → TableCall
  forward_call : ForwardingEntry → TableCall

unfoldable pub apply : Tables → TableCall → Tables
apply t (insert_call offer description amount id) = record t {
  offers = insert_offer offer description amount id t.offers;
}
apply t (disable_call offer) = record t { offers = (disable_offer offer t.offers).1 }
apply t (register_call address) = record t { addresses = register_address address t.addresses }
apply t (forward_call entry) = record t { forwards = record_forward entry t.forwards }

unfoldable pub apply_all : Tables → List TableCall → Tables
apply_all t [] = t
apply_all t (c ∷ cs) = apply_all (apply t c) cs

abbrev pub tables_of : {S : Type 0} → World S → Tables
tables_of w = record { offers = w.offers; addresses = w.addresses; forwards = w.forwards }

apply_all-append :
    (t : Tables) (cs ds : List TableCall) → apply_all t (cs ++ ds) ≡ apply_all (apply_all t cs) ds
unfolding apply_all
apply_all-append t [] ds = refl
apply_all-append t (c ∷ cs) ds = apply_all-append (apply t c) cs ds

-- The tables of `v` are those of `w` after some calls.
pub record Reaches {S : Type 0} (w v : World S) : Type 0 where
  pub calls : List TableCall
  pub reached : tables_of v ≡ apply_all (tables_of w) calls

module _ {S : Type 0} where
  pub Reaches-same : (w v : World S) → tables_of v ≡ tables_of w → Reaches w v
  Reaches-same w v e = record { calls = []; reached = unfold apply_all in e }

  pub Reaches-one :
      (w v : World S) (c : TableCall) → tables_of v ≡ apply (tables_of w) c → Reaches w v
  Reaches-one w v c e = record { calls = c ∷ []; reached = unfold apply_all in e }

  pub Reaches-trans : (u v w : World S) → Reaches u v → Reaches v w → Reaches u w
  Reaches-trans u v w r q = record {
    calls = r.calls ++ q.calls;
    reached =
        q.reached
        ∙ ap (λ t. apply_all t q.calls) r.reached
        ∙ sym (apply_all-append (tables_of u) r.calls q.calls);
  }

-- Whatever the state and the result, the action leaves tables that their calls lead to.
pub record Runs {S E A : Type 0} (m : Act (World S) E A) : Type 0 where
  pub at : (w : World S) → Reaches w (m w).1

module _ {S E A : Type 0} where
  pub Runs-pure : (a : A) → Runs {S = S} {E = E} (pure a)
  Runs-pure a = record { at = λ w. Reaches-same w w refl }

  pub Runs-fail : (e : E) → Runs {S = S} {A = A} (fail e)
  Runs-fail e = record { at = λ w. Reaches-same w w refl }

  pub Runs-lift : (r : Outcome E A) → Runs {S = S} (lift r)
  Runs-lift r = record { at = λ w. Reaches-same w w refl }

  pub Runs-call : (f : S → A × S) → Runs {E = E} (call f)
  Runs-call f = record { at = λ w. Reaches-same w (record w { node = (f w.node).1 }) refl }

  pub Runs-try_call :
      (to_error : Text → E) (f : S → Outcome Text A × S) → Runs (try_call to_error f)
  Runs-try_call to_error f = record {
    at = λ w. Reaches-same w (record w { node = (f w.node).1 }) refl;
  }

  pub Runs-if : (b : Bool) (m n : Act (World S) E A) → Runs m → Runs n → Runs (if b then m else n)
  Runs-if true m n rm rn = rm
  Runs-if false m n rm rn = rn

  pub Runs-option :
      {B : Type 0} (o : Option B) (m : Act (World S) E A) (f : B → Act (World S) E A)
      → Runs m
      → ((b : B) → Runs (f b))
      → Runs (elim o [ none ↦ m | some b ↦ f b ])
  Runs-option none m f rm rf = rm
  Runs-option (some b) m f rm rf = rf b

  pub Runs-catch_as :
      {F : Type 0} (f : E → F) (m : Act (World S) E A) → Runs m → Runs (catch_as f m)
  Runs-catch_as f m rm = record { at = λ w. rm.at w }

module _ {S E A B : Type 0} where
  follow-Reaches :
      (w v : World S) (r : Outcome E A) (f : A → Act (World S) E B)
      → ((a : A) → Runs (f a))
      → Reaches w v
      → Reaches w (follow (r, v) f).1
  follow-Reaches w v (ok a) f rf h = Reaches-trans w v (f a v).1 h ((rf a).at v)
  follow-Reaches w v (err e) f rf h = h
  follow-Reaches w v panic f rf h = h
  follow-Reaches w v out_of_fuel f rf h = h

  pub Runs-bind :
      (m : Act (World S) E A) (f : A → Act (World S) E B)
      → Runs m
      → ((a : A) → Runs (f a))
      → Runs (m >>= f)
  Runs-bind m f rm rf = record { at = λ w. follow-Reaches w (m w).1 (m w).0 f rf (rm.at w) }

pub ruleset runs_rules = (
  Runs-pure, Runs-fail, Runs-lift, Runs-call, Runs-try_call, Runs-if, Runs-option, Runs-catch_as,
  Runs-bind,
)
