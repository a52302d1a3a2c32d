-- ===== src/Workers/Percentages.antt =====
-- The percentages of the workers and the weights of their queues.
use insight_collector.Prelude.{
  ℕ, ◌+◌, ◌-◌, ◌*◌, ◌/◌, ◌%◌, ◌≤◌, ◌<◌, String, none, some, List, [], ◌∷◌, GoMap, empty, insert,
  if◌then◌else◌, ltb, eqb, length, ◌≡◌, ◌≢◌, ◌↔◌, refl, arith, eq_iff, inl, inr, Bool-cases, All,
  ap,
}
use native.Mathlib.Nat.{div-add-mod, mod-lt, div-mul-le_self, le_of_mul-le-mul_right}
use insight_collector.Workers.{
  Worker, total_percentage, spread, scale, adjust_first, normalize_percentages, queue_weights,
  generate_queues, get_worker,
}

spread_total :
    (even remainder i : ℕ) (ws : List Worker)
    → total_percentage (spread even remainder i ws)
      ≡ even * length ws
        + (if ltb i remainder
            then (if ltb (i + length ws) remainder then length ws else remainder - i)
            else 0)
unfolding spread
spread_total even remainder i [] = ground arith
spread_total even remainder i (w ∷ ws) =
    let rest = spread_total even remainder (i + 1) ws in ground arith

scale_bound :
    (total : ℕ) (ws : List Worker)
    → total_percentage (scale total ws) * total ≤ total_percentage ws * 100
scale_bound total [] = omega arith
scale_bound total (w ∷ ws) =
    let here = div-mul-le_self (w.percentage * 100) total in
    let rest = scale_bound total ws in omega (arith, here, rest)

scale_total :
    (total : ℕ) (ws : List Worker)
    → 0 < total
    → total_percentage ws ≡ total
    → total_percentage (scale total ws) ≤ 100
scale_total total ws given e =
    le_of_mul-le-mul_right {m = total_percentage (scale total ws)} {n = 100} {k = total}
      (omega (arith, scale_bound total ws, ap (λ t. t * 100) e)) given

even_total :
    (w : Worker) (ws : List Worker)
    → total_percentage (spread (100 / length (w ∷ ws)) (100 % length (w ∷ ws)) 0 (w ∷ ws)) ≡ 100
even_total w ws =
    let n = length (w ∷ ws) in
    let even = spread_total (100 / n) (100 % n) 0 (w ∷ ws) in
    let parts = div-add-mod 100 n in let below = mod-lt 100 {m = n} (omega arith) in ground arith

adjust_total :
    (w : Worker) (ws : List Worker)
    → total_percentage (w ∷ ws) ≤ 100
    → total_percentage (adjust_first (w ∷ ws)) ≡ 100
unfolding adjust_first
adjust_total w ws bound = ground arith

-- Percentages that are normalised sum to 100 when there is a worker.
pub normalize_percentages_total :
    (ws : List Worker) → ws ≢ [] → total_percentage (normalize_percentages ws) ≡ 100
unfolding normalize_percentages
normalize_percentages_total [] some_worker = absurd (some_worker refl)
normalize_percentages_total (w ∷ ws) some_worker =
    let total = total_percentage (w ∷ ws) in
    let even = even_total w ws in
    let bound = scale_total total (w ∷ ws) in
    let adjusted =
      adjust_total (record w { percentage = (w.percentage * 100) / total }) (scale total ws) in
    elim (Bool-cases (eqb total 0)) [
      | inl none_given ↦ ground arith
      | inr given ↦ elim (Bool-cases (eqb total 100)) [
        | inl exact ↦ ground arith
        | inr inexact ↦ let b = adjusted (bound (ground arith) refl) in ground arith
      ]
    ]

-- The weights of given queues stay in their bounds.
queue_weights_bounds :
    (ws : List Worker) (queues : GoMap ℕ) (name : String)
    → All (λ w. w.percentage ≤ 100) ws
    → ((n : ℕ) → queues name ≡ some n → (1 ≤ n) × (n ≤ 10))
    → (n : ℕ) → queue_weights ws queues name ≡ some n
    → (1 ≤ n) × (n ≤ 10)
unfolding queue_weights
queue_weights_bounds [] queues name small before = before
queue_weights_bounds (w ∷ ws) queues name (at_most, small) before =
    queue_weights_bounds ws
      (insert w.name (if eqb (w.percentage / 10) 0 then 1 else w.percentage / 10) queues) name small
      (λ m e. ground (arith, before m, eq_iff w.name name))

queue_weights-none_iff :
    (ws : List Worker) (queues : GoMap ℕ) (name : String)
    → (queue_weights ws queues name ≡ none) ↔ ((queues name ≡ none) × (get_worker name ws ≡ none))
unfolding queue_weights
queue_weights-none_iff [] queues name = ground arith
queue_weights-none_iff (w ∷ ws) queues name =
    let rest =
      queue_weights-none_iff ws
        (insert w.name (if eqb (w.percentage / 10) 0 then 1 else w.percentage / 10) queues) name in
    ground (arith, eq_iff w.name name)

-- GenerateQueues has a queue for the name of every worker and for no other name.
pub generate_queues-none_iff :
    (ws : List Worker) (name : String)
    → (generate_queues ws name ≡ none) ↔ (get_worker name ws ≡ none)
generate_queues-none_iff ws name =
    let missing = queue_weights-none_iff ws empty name in ground arith

-- With percentages of at most 100, the weight of a queue is from 1 to 10.
pub generate_queues_bounds :
    (ws : List Worker) (name : String) (n : ℕ)
    → All (λ w. w.percentage ≤ 100) ws
    → generate_queues ws name ≡ some n
    → (1 ≤ n) × (n ≤ 10)
generate_queues_bounds ws name n small found =
    queue_weights_bounds ws empty name small (λ m e. ground arith) n found
