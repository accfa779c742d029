-- ===== src/Ldk/Graph/Stats.antt =====
-- What the statistics of the graph say.
use native.Mathlib.Nat.{
  suc-mul, mul-le-mul_right, mul_comm, div-mul-le_self, le_of_mul-le-mul_right, div-lt_iff_lt-mul,
}
use dln_node_knots.Prelude.{
  Bool-cases, Option-cases, Option, true, none, some, unwrap_or, refl, inl, inr, ℕ, zero, suc, ◌+◌,
  ◌-◌, ◌*◌, ◌/◌, ◌^◌, ◌≤◌, ◌<◌, min, max, List, [], ◌∷◌, ◌≡◌, arith, length, ltb, if◌then◌else◌,
}
use dln_node_knots.Node.Types.{Graph, GraphChannel}
use dln_node_knots.Ldk.Graph.{tally, found_channels, capacity_of, network_stats, saturating_add}

-- The true sum and the largest capacity of a list of channels.
true_total : List GraphChannel → ℕ
true_total [] = 0
true_total (ch ∷ chs) = capacity_of ch + true_total chs

largest_of : List GraphChannel → ℕ
largest_of [] = 0
largest_of (ch ∷ chs) = max (capacity_of ch) (largest_of chs)

-- The capacity of a channel that the graph may have, zero where it is not known.
abbrev pub capacity_in : Option GraphChannel → ℕ
capacity_in none = 0
capacity_in (some ch) = unwrap_or ch.capacity_sats 0

-- The true sum and the largest of the capacities of the channels with these ids.
abbrev pub sum_in : Graph → List ℕ → ℕ
sum_in graph [] = 0
sum_in graph (scid ∷ scids) = capacity_in (graph.channel scid) + sum_in graph scids

abbrev pub largest_in : Graph → List ℕ → ℕ
largest_in graph [] = 0
largest_in graph (scid ∷ scids) = max (capacity_in (graph.channel scid)) (largest_in graph scids)

-- The average of a total over a number of channels, rounded down.
abbrev pub IsAverage : ℕ → ℕ → ℕ → Type 0
IsAverage total zero average = average ≡ 0
IsAverage total (suc n) average = (average * suc n ≤ total) × (total < (average + 1) * suc n)

tally-total :
    (total largest : ℕ) (chs : List GraphChannel)
    → total < 2 ^ 64
    → (tally total largest chs).0 ≡ min (total + true_total chs) (2 ^ 64 - 1)
unfolding tally true_total
tally-total total largest [] h = omega arith
tally-total total largest (ch ∷ chs) h = ground (
  arith,
  tally-total (saturating_add total (capacity_of ch))
      (if ltb largest (capacity_of ch) then capacity_of ch else largest) chs,
)

tally-largest :
    (total largest : ℕ) (chs : List GraphChannel)
    → (tally total largest chs).1 ≡ max largest (largest_of chs)
unfolding tally largest_of
tally-largest total largest [] = omega arith
tally-largest total largest (ch ∷ chs) = ground (
  arith,
  tally-largest (saturating_add total (capacity_of ch))
      (if ltb largest (capacity_of ch) then capacity_of ch else largest) chs,
)

length-found_channels :
    (graph : Graph) (scids : List ℕ) → length (found_channels graph scids) ≤ length scids
unfolding found_channels
length-found_channels graph [] = omega arith
length-found_channels graph (scid ∷ scids) = ground (arith, length-found_channels graph scids)

true_total-le :
    (chs : List GraphChannel) (m : ℕ) → largest_of chs ≤ m → true_total chs ≤ length chs * m
unfolding true_total largest_of
true_total-le [] m h = omega arith
true_total-le (ch ∷ chs) m h =
    omega (arith, suc-mul (length chs) m, true_total-le chs m (omega arith))

-- A quotient of a total over at least as many parts as it has.
average-le :
    (graph : Graph) (total : ℕ)
    → total ≤ true_total (found_channels graph graph.list_channels)
    → 0 < length graph.list_channels
    → total / length graph.list_channels ≤ largest_of (found_channels graph graph.list_channels)
average-le graph total h pos =
    let chs = found_channels graph graph.list_channels in
    let n = length graph.list_channels in
    le_of_mul-le-mul_right
      (omega (
        arith,
        div-mul-le_self total n,
        true_total-le chs (largest_of chs) (omega arith),
        mul-le-mul_right (largest_of chs) (length-found_channels graph graph.list_channels),
        mul_comm (largest_of chs) n,
      ))
      pos

sum_in-found :
    (graph : Graph) (scids : List ℕ)
    → (true_total (found_channels graph scids) ≡ sum_in graph scids)
      × (largest_of (found_channels graph scids) ≡ largest_in graph scids)
unfolding found_channels true_total largest_of
sum_in-found graph [] = (refl, refl)
sum_in-found graph (scid ∷ scids) =
    let ih = sum_in-found graph scids in
    elim (Option-cases (graph.channel scid)) [
      | inl e ↦ (ground (arith, e, ih.0), ground (arith, e, ih.1))
      | inr (ch, e) ↦ (ground (arith, e, ih.0), ground (arith, e, ih.1))
    ]

IsAverage-div : (total n : ℕ) → IsAverage total n (if ltb 0 n then total / n else 0)
IsAverage-div total zero = refl
IsAverage-div total (suc n) =
    let counted : ltb 0 (suc n) ≡ true = ground arith in
    rw counted (div-mul-le_self total (suc n), (div-lt_iff_lt-mul (omega arith)).0 (omega arith))

-- The statistics count the nodes and the channels that the graph lists. The total is the true sum of
-- the capacities of these channels, where a channel that the graph does not have or whose capacity
-- is not known counts as zero, cut at 2 ^ 64 - 1; the largest is their maximum; and the average is
-- the total divided by the number of channels, rounded down, zero where there are none, and never
-- more than the largest.
pub network_stats-total :
    (graph : Graph)
    → ((network_stats graph).num_nodes ≡ length graph.list_nodes)
      × ((network_stats graph).num_channels ≡ length graph.list_channels)
      × ((network_stats graph).total_capacity ≡ min (sum_in graph graph.list_channels) (2 ^ 64 - 1))
      × ((network_stats graph).max_channel_size ≡ largest_in graph graph.list_channels)
      × IsAverage
          (network_stats graph).total_capacity
          (length graph.list_channels)
          (network_stats graph).avg_channel_size
      × ((network_stats graph).avg_channel_size ≤ (network_stats graph).max_channel_size)
unfolding network_stats
network_stats-total graph =
    let chs = found_channels graph graph.list_channels in
    let (sums, maxima) = sum_in-found graph graph.list_channels in
    let total : (tally 0 0 chs).0 ≡ min (true_total chs) (2 ^ 64 - 1) =
      omega (arith, tally-total 0 0 chs (omega arith)) in
    let largest : (tally 0 0 chs).1 ≡ largest_of chs = omega (arith, tally-largest 0 0 chs) in
    (
      refl,
      refl,
      omega (arith, total, sums),
      omega (arith, largest, maxima),
      IsAverage-div (tally 0 0 chs).0 (length graph.list_channels),
      elim (Bool-cases (ltb 0 (length graph.list_channels))) [
        | inl some_listed ↦
            rw (some_listed, total, largest)
              (average-le graph (min (true_total chs) (2 ^ 64 - 1)) (omega arith) (ground arith))
        | inr none_listed ↦ rw none_listed (omega arith)
      ],
    )
