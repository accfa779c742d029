-- ===== src/Wallet/Quote/Found.antt =====
-- What a quote of quote_payment (src/wallet.rs) stands for.
use dln_node_knots.Prelude.{
  ℕ, true, some, List, [], ◌∷◌, ◌≤◌, ◌≡◌, ◌≢◌, refl, sym, ap, ◌∙◌, subst, inl, inr, arith, All,
  or_else, Option-cases,
}
use dln_node_knots.Prelude.Outcome.{ok, Outcome-cases, ok_unique}
use dln_node_knots.Node.Types.{PublicKey, Invoice}
use dln_node_knots.Ldk.{World}
use dln_node_knots.Ldk.Routes.{FoundRoute, find_routes}
use dln_node_knots.Ldk.Routes.Totals.{Fits}
use dln_node_knots.Ldk.Routes.Answers.{
  IsAnswer, own_node, read_graph, find_routes-IsAnswer, find_routes-ends,
}
use dln_node_knots.Ldk.Routes.Queue.{PathHop}
use dln_node_knots.Ldk.Routes.Walks.{IsWalk, sum_fees}
use dln_node_knots.Ldk.Routes.Cheapest.{IsWithinLimit}
use dln_node_knots.Ldk.Routes.Cheapest.Found.{find_routes-IsCheapest}
use dln_node_knots.Nnc.{NncError}
use dln_node_knots.Wallet.{Wallet}
use dln_node_knots.Wallet.Quote.{QuotePaymentRequest, QuotePaymentResponse, quote_of, quote_payment}

module _ {S : Type 0} (wallet : Wallet S) (r : QuotePaymentRequest) (w : World S) where
  -- A successful quote has an invoice, an amount, and the routes that the search answered.
  record IsQuote (q : QuotePaymentResponse) : Type 0 where
    invoice : Invoice
    amount : ℕ
    routes : List FoundRoute
    parsed : wallet.ldk.lib.parse_invoice r.invoice ≡ ok invoice
    amount_of : or_else r.amount invoice.amount_milli_satoshis ≡ some amount
    searched :
        (find_routes {E = NncError} wallet.ldk
          (wallet.ldk.lib.show_public_key invoice.payee)
          amount
          1
          w).0
        ≡ ok routes
    quoted : quote_of amount routes ≡ q

  quote_payment-IsQuote :
      (q : QuotePaymentResponse) → (quote_payment wallet r w).0 ≡ ok q → IsQuote q
  unfolding quote_payment
  quote_payment-IsQuote q h = elim (Outcome-cases (wallet.ldk.lib.parse_invoice r.invoice)) [
    | inl e ↦ absurd (ground (arith, e, h))
    | inr (invoice, e) ↦ elim (Option-cases (or_else r.amount invoice.amount_milli_satoshis)) [
      | inl none_given ↦ absurd (ground (arith, e, none_given, h))
      | inr (amount, given) ↦
          let (routes, searched, few) =
            find_routes-ends {E = NncError} wallet.ldk
              (wallet.ldk.lib.show_public_key invoice.payee) amount 1 w in
          record {
            invoice = invoice;
            amount = amount;
            routes = routes;
            parsed = e;
            amount_of = given;
            searched = searched;
            quoted = ground (arith, e, given, searched, h);
          }
    ]
  ]

  -- The invoice was parsed, and the numbers are those of a route to its payee.
  pub record IsPriced (q : QuotePaymentResponse) : Type 0 where
    pub invoice : Invoice
    pub route : FoundRoute
    pub parsed : wallet.ldk.lib.parse_invoice r.invoice ≡ ok invoice
    pub amount_of : or_else r.amount invoice.amount_milli_satoshis ≡ some q.amount
    pub answer :
        IsAnswer q.amount
          (read_graph wallet.ldk w)
          (own_node wallet.ldk w)
          (wallet.ldk.lib.node_id_of invoice.payee)
          route
    pub fee_of : q.fee_msat ≡ route.total_fee
    pub cltv_of : q.cltv_expiry_delta ≡ route.total_time_lock

  -- Where a printed key parses as itself, and the graph has u32 base fees and u16 time locks: a
  -- quote that says that a route was found gives the fee and the time lock of a route over the
  -- graph, from this node to the payee of the invoice, each channel of which carries the amount.
  pub quote_payment-IsPriced :
      ((k : PublicKey) → wallet.ldk.lib.parse_public_key (wallet.ldk.lib.show_public_key k) ≡ ok k)
      → Fits (read_graph wallet.ldk w)
      → (q : QuotePaymentResponse) → (quote_payment wallet r w).0 ≡ ok q
      → q.route_found ≡ true
      → IsPriced q
  quote_payment-IsPriced parse_show fits q h found =
      let is = quote_payment-IsQuote q h in
      let answers =
        find_routes-IsAnswer {E = NncError} wallet.ldk
          (wallet.ldk.lib.show_public_key is.invoice.payee) is.amount 1 w fits is.routes
          is.searched in
      priced is is.routes is.quoted answers
    where
      priced :
          (is : IsQuote q) (routes : List FoundRoute)
          → quote_of is.amount routes ≡ q
          → All
              (λ (route : FoundRoute).
                (pk : PublicKey) × (wallet.ldk.lib.parse_public_key
                    (wallet.ldk.lib.show_public_key is.invoice.payee)
                  ≡ ok pk)
                × IsAnswer is.amount
                    (read_graph wallet.ldk w)
                    (own_node wallet.ldk w)
                    (wallet.ldk.lib.node_id_of pk)
                    route)
              routes
          → IsPriced q
      priced is [] quoted answers =
          absurd (ground (arith, ap (λ (p : QuotePaymentResponse). p.route_found) quoted, found))
      priced is (route ∷ routes) quoted ((pk, shown, answer), others) =
          let same : pk ≡ is.invoice.payee = ok_unique shown (parse_show is.invoice.payee) in
          let amount : is.amount ≡ q.amount = ap (λ (p : QuotePaymentResponse). p.amount) quoted in
          record {
            invoice = is.invoice;
            route = route;
            parsed = is.parsed;
            amount_of = is.amount_of ∙ ap some amount;
            answer =
                subst
                  (λ (k : PublicKey).
                    IsAnswer q.amount (read_graph wallet.ldk w) (own_node wallet.ldk w)
                      (wallet.ldk.lib.node_id_of k) route)
                  same
                  (subst
                    (λ (n : ℕ).
                      IsAnswer n (read_graph wallet.ldk w) (own_node wallet.ldk w)
                        (wallet.ldk.lib.node_id_of pk) route)
                    amount answer);
            fee_of = sym (ap (λ (p : QuotePaymentResponse). p.fee_msat) quoted);
            cltv_of = sym (ap (λ (p : QuotePaymentResponse). p.cltv_expiry_delta) quoted);
          }

  -- Where a printed key parses as itself, the graph has u32 base fees and u16 time locks, and no walk
  -- from this node that visits no node twice has more than six channels: when the invoice parses, an
  -- amount is given, and a walk leads from this node to a payee elsewhere over channels that carry
  -- the amount, the quote says that a route was found, at a fee of at most the sum of the fees of
  -- that walk.
  pub quote_payment-IsCheapest :
      (invoice : Invoice) (amount : ℕ) (path : List PathHop)
      → ((k : PublicKey)
          → wallet.ldk.lib.parse_public_key (wallet.ldk.lib.show_public_key k) ≡ ok k)
      → Fits (read_graph wallet.ldk w)
      → IsWithinLimit amount (read_graph wallet.ldk w) (own_node wallet.ldk w)
      → wallet.ldk.lib.parse_invoice r.invoice ≡ ok invoice
      → or_else r.amount invoice.amount_milli_satoshis ≡ some amount
      → IsWalk amount
          (read_graph wallet.ldk w)
          (own_node wallet.ldk w)
          path
          (wallet.ldk.lib.node_id_of invoice.payee)
      → own_node wallet.ldk w ≢ wallet.ldk.lib.node_id_of invoice.payee
      → (q : QuotePaymentResponse) × ((quote_payment wallet r w).0 ≡ ok q)
        × (q.route_found ≡ true)
        × (q.amount ≡ amount)
        × (q.fee_msat ≤ sum_fees path)
  unfolding quote_payment
  quote_payment-IsCheapest invoice amount path parse_show fits limit parsed given walk elsewhere =
      let (first, rest, searched, answer, fee) =
        find_routes-IsCheapest {E = NncError} wallet.ldk
          (wallet.ldk.lib.show_public_key invoice.payee) amount 1 w invoice.payee path
          (parse_show invoice.payee) fits limit walk elsewhere (omega arith) in
      (quote_of amount (first ∷ rest), ground (arith, parsed, given, searched), refl, refl, fee)
