-- ===== src/Ldk/Routes/Simple.antt =====
-- Walks over the gossip graph that visit no node twice, and the set of visited nodes of find_routes
-- (src/lightning/ldk_service.rs).
use dln_node_knots.Prelude.{
  ℕ, ◌≤◌, true, false, List, [], ◌∷◌, ◌++◌, ◌≡◌, refl, sym, subst, ◌⊎◌, inl, inr, arith, Bool-cases,
}
use dln_node_knots.Text.{text_eq}
use dln_node_knots.Text.Equality.{text_eq_iff}
use dln_node_knots.Node.Types.{NodeId, Graph}
use dln_node_knots.Ldk.Routes.{contains}
use dln_node_knots.Ldk.Routes.Queue.{PathHop}
use dln_node_knots.Ldk.Routes.Walks.{IsWalk, sum_fees}

-- Neither `node` nor a node of the path after it is visited, and none of them comes twice.
abbrev pub IsFresh : List NodeId → NodeId → List PathHop → Type 0
IsFresh visited node [] = contains node visited ≡ false
IsFresh visited node (h ∷ path) =
    (contains node visited ≡ false) × IsFresh (node ∷ visited) h.node path

-- No node comes twice.
abbrev pub IsSimple : NodeId → List PathHop → Type 0
IsSimple = IsFresh []

-- Every node of the path but the last is visited.
abbrev pub IsPast : List NodeId → NodeId → List PathHop → Type 0
IsPast visited node [] = Unit {0}
IsPast visited node (h ∷ path) = (contains node visited ≡ true) × IsPast visited h.node path

pub contains-cons :
    (x n : NodeId) (visited : List NodeId)
    → contains x visited ≡ true
    → contains x (n ∷ visited) ≡ true
unfolding contains
contains-cons x n visited h = ground (arith, h)

pub contains_self : (n : NodeId) (visited : List NodeId) → contains n (n ∷ visited) ≡ true
unfolding contains
contains_self n visited = ground (arith, text_eq_iff n n)

pub IsFresh-new :
    (visited : List NodeId) (node : NodeId) (path : List PathHop)
    → IsFresh visited node path
    → contains node visited ≡ false
IsFresh-new visited node [] h = h
IsFresh-new visited node (g ∷ path) h = h.0

-- `us` has no node that `vs` has not.
Within : List NodeId → List NodeId → Type 0
Within us vs = (x : NodeId) → contains x vs ≡ false → contains x us ≡ false

Within-cons : (n : NodeId) (us vs : List NodeId) → Within us vs → Within (n ∷ us) (n ∷ vs)
unfolding Within contains
Within-cons n us vs sub x h = ground (arith, h, sub x)

Within-swap : (n m : NodeId) (vs : List NodeId) → Within (n ∷ m ∷ vs) (m ∷ n ∷ vs)
unfolding Within contains
Within-swap n m vs x h = ground (arith, h)

Within-weaken : (n : NodeId) (vs : List NodeId) → Within vs (n ∷ vs)
unfolding Within contains
Within-weaken n vs x h = ground (arith, h)

IsFresh-Within :
    (us vs : List NodeId) (node : NodeId) (path : List PathHop)
    → Within us vs
    → IsFresh vs node path
    → IsFresh us node path
IsFresh-Within us vs node [] sub h = unfold Within in sub node h
IsFresh-Within us vs node (g ∷ path) sub h = (
  unfold Within in sub node h.0,
  IsFresh-Within (node ∷ us) (node ∷ vs) g.node path (Within-cons node us vs sub) h.1,
)

pub IsPast-cons :
    (n : NodeId) (visited : List NodeId) (node : NodeId) (path : List PathHop)
    → IsPast visited node path
    → IsPast (n ∷ visited) node path
IsPast-cons n visited node [] h = tt
IsPast-cons n visited node (g ∷ path) h =
    (contains-cons node n visited h.0, IsPast-cons n visited g.node path h.1)

module _ (amount : ℕ) (graph : Graph) where
  pub IsPast-snoc :
      (visited : List NodeId) (node : NodeId) (path : List PathHop) (via : NodeId) (h : PathHop)
      → IsWalk amount graph node path via
      → IsPast visited node path
      → contains via visited ≡ true
      → IsPast visited node (path ++ h ∷ [])
  IsPast-snoc visited node [] via h walk past seen =
      (subst (λ n. contains n visited ≡ true) (sym walk) seen, tt)
  IsPast-snoc visited node (g ∷ path) via h walk past seen =
      (past.0, IsPast-snoc visited g.node path via h walk.1 past.1 seen)

  contains_other :
      (x n : NodeId) (us visited : List NodeId)
      → contains n visited ≡ true
      → contains x visited ≡ false
      → contains x us ≡ false
      → contains x (n ∷ us) ≡ false
  unfolding contains
  contains_other x n us visited seen new h = elim (Bool-cases (text_eq n x)) [
    | inl same ↦ absurd (
        ground (arith, subst (λ y. contains y visited ≡ true) ((text_eq_iff n x).0 same) seen, new))
    | inr other ↦ ground (arith, other, h)
  ]

  -- A walk over visited nodes that goes on to a new one is simple still.
  pub IsFresh-snoc :
      (us visited : List NodeId) (node : NodeId) (path : List PathHop) (via : NodeId) (h : PathHop)
      → IsWalk amount graph node path via
      → IsFresh us node path
      → IsPast visited node path
      → contains via visited ≡ true
      → contains h.node visited ≡ false
      → contains h.node us ≡ false
      → IsFresh us node (path ++ h ∷ [])
  IsFresh-snoc us visited node [] via h walk fresh past seen new out = (
    fresh,
    contains_other h.node node us visited (subst (λ n. contains n visited ≡ true) (sym walk) seen)
        new out,
  )
  IsFresh-snoc us visited node (g ∷ path) via h walk fresh past seen new out = (
    fresh.0,
    IsFresh-snoc (node ∷ us) visited g.node path via h walk.1 fresh.1 past.1 seen new
        (contains_other h.node node us visited past.0 new out),
  )

  -- The rest of a fresh walk from `n`, where it comes through `n`.
  abbrev pub Rest : NodeId → List NodeId → NodeId → ℕ → Type 0
  Rest dest visited n bound =
      (path : List PathHop) × IsWalk amount graph n path dest
      × IsFresh visited n path
      × (sum_fees path ≤ bound)

  fresh_in_cons :
      (x n : NodeId) (visited : List NodeId)
      → text_eq n x ≡ false
      → contains x visited ≡ false
      → contains x (n ∷ visited) ≡ false
  unfolding contains
  fresh_in_cons x n visited other new = ground (arith, other, new)

  from_here :
      (dest n : NodeId) (visited : List NodeId) (node : NodeId) (path : List PathHop)
      → n ≡ node
      → IsWalk amount graph node path dest
      → IsFresh visited node path
      → Rest dest visited n (sum_fees path)
  from_here dest n visited node path at walk fresh = (
    path,
    subst (λ m. IsWalk amount graph m path dest) (sym at) walk,
    subst (λ m. IsFresh visited m path) (sym at) fresh,
    omega arith,
  )

  -- A fresh walk avoids `n`, or a rest of it leads from `n` to the same end at no greater price.
  pub IsFresh-split :
      (dest n : NodeId) (visited : List NodeId) (node : NodeId) (path : List PathHop)
      → contains n visited ≡ false
      → IsWalk amount graph node path dest
      → IsFresh visited node path
      → IsFresh (n ∷ visited) node path ⊎ Rest dest visited n (sum_fees path)
  IsFresh-split dest n visited node [] new walk fresh = elim (Bool-cases (text_eq n node)) [
    | inl same ↦ inr (from_here dest n visited node [] ((text_eq_iff n node).0 same) walk fresh)
    | inr other ↦ inl (fresh_in_cons node n visited other fresh)
  ]
  IsFresh-split dest n visited node (g ∷ path) new walk fresh =
      let other_way = λ (other : text_eq n node ≡ false).
        fresh_in_cons n node visited (ground (arith, text_eq_iff node n, text_eq_iff n node, other))
          new in
      let rest = λ (unseen : contains n (node ∷ visited) ≡ false).
        IsFresh-split dest n (node ∷ visited) g.node path unseen walk.1 fresh.1 in
      elim (Bool-cases (text_eq n node)) [
        | inl same ↦
            inr (from_here dest n visited node (g ∷ path) ((text_eq_iff n node).0 same) walk fresh)
        | inr other ↦ elim (rest (other_way other)) [
          | inl avoids ↦ inl (
            fresh_in_cons node n visited other fresh.0,
            IsFresh-Within (node ∷ n ∷ visited) (n ∷ node ∷ visited) g.node path
                (Within-swap node n visited) avoids,
          )
          | inr (tail, walks, apart, price) ↦ inr (
            tail,
            walks,
            IsFresh-Within visited (node ∷ visited) n tail (Within-weaken node visited) apart,
            omega (arith, price),
          )
        ]
      ]

  -- Every walk has a simple one at no greater price.
  pub IsWalk-Rest :
      (dest node : NodeId) (path : List PathHop)
      → IsWalk amount graph node path dest
      → Rest dest [] node (sum_fees path)
  unfolding contains
  IsWalk-Rest dest node [] walk = ([], walk, refl, omega arith)
  IsWalk-Rest dest node (g ∷ path) walk =
      let (tail, walks, simple, price) = IsWalk-Rest dest g.node path walk.1 in
      elim (IsFresh-split dest node [] g.node tail refl walks simple) [
        | inl avoids ↦ (g ∷ tail, (walk.0, walks), (refl, avoids), omega (arith, price))
        | inr (tail', walks', simple', price') ↦
            (tail', walks', simple', omega (arith, price, price'))
      ]
