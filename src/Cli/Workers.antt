-- ===== src/Cli/Workers.antt =====
-- cmd/worker.go: the commands that set a worker, add task types to one, and reset them all.
use insight_collector.Prelude.{
  ℕ, ◌+◌, ◌≤◌, String, Bool, true, false, ◌||◌, none, some, List, [], ◌∷◌, ◌++◌, map, ◌==◌, Result,
  ok, err, if◌then◌else◌, ltb, eqb, ◌≡◌, refl, arith, eq_iff, Bool-cases, Option-cases, text_cases,
  ◌∙◌, sym, ap, inl, inr,
}
use insight_collector.Text.{split, trim_space}
use insight_collector.Text.Integers.{parse_int}
use insight_collector.Workers.{
  get_worker, handles, WorkerState, init_concurrency, set_worker, put_worker, reset_to_default,
  save_workers,
}
use insight_collector.Workers.Editing.{get_worker-put_worker}

pub data WorkerError : Type 0 where
  invalid_percentage out_of_range worker_not_found nothing_added : WorkerError

abbrev pub parse_task_types : String → List String
parse_task_types text = if text == "" then [] else map trim_space (split "," text)

-- The merged task types, and how many are new. The keys of `taskTypeMap` are the merged ones.
unfoldable pub merge_task_types : List String → ℕ → List String → List String × ℕ
merge_task_types task_types added [] = (task_types, added)
merge_task_types task_types added (t ∷ new) =
    if handles t task_types
    then merge_task_types task_types added new
    else merge_task_types (task_types ++ t ∷ []) (added + 1) new

module _ (configured : ℕ) (reachable : Bool) (order : List String) where
  -- A negative number is above 100 in two's complement. What InitConcurrency has loaded and saved
  -- stays after an error.
  unfoldable pub run_worker_set :
      String → String → String → WorkerState → Result WorkerError (Unit {0}) × WorkerState
  run_worker_set name percentage task_types s =
      let s' = init_concurrency configured reachable order s in
      elim (parse_int percentage) [
        | none ↦ (err invalid_percentage, s')
        | some n ↦
            if ltb 100 n
            then (err out_of_range, s')
            else (ok tt, set_worker reachable name n (parse_task_types task_types) s')
      ]

  unfoldable pub run_worker_add :
      String → String → WorkerState → Result WorkerError (Unit {0}) × WorkerState
  run_worker_add name task_types s =
      let s' = init_concurrency configured reachable order s in
      elim (get_worker name s'.workers) [
        | none ↦ (err worker_not_found, s')
        | some w ↦
            let (merged, added) = merge_task_types w.task_types 0 (parse_task_types task_types) in
            if eqb added 0
            then (err nothing_added, s')
            else (ok tt, set_worker reachable name w.percentage merged s')
      ]

  unfoldable pub run_worker_reset : WorkerState → WorkerState
  run_worker_reset s = reset_to_default reachable (init_concurrency configured reachable order s)

-- No task type stands twice.
abbrev pub IsDistinct : List String → Type 0
IsDistinct [] = Unit
IsDistinct (t ∷ ts) = (handles t ts ≡ false) × IsDistinct ts

handles-last :
    (t u : String) (ts : List String) → handles t (ts ++ u ∷ []) ≡ (handles t ts || u == t)
handles-last t u [] = ground arith
handles-last t u (x ∷ ts) = let rest = handles-last t u ts in ground arith

IsDistinct-last :
    (u : String) (ts : List String)
    → handles u ts ≡ false
    → IsDistinct ts
    → IsDistinct (ts ++ u ∷ [])
IsDistinct-last u [] absent distinct = (refl, tt)
IsDistinct-last u (t ∷ ts) absent (first, distinct) =
    let rest = IsDistinct-last u ts (ground arith) distinct in
    let last = handles-last t u ts in (ground (arith, eq_iff u t, eq_iff t u), rest)

absorbed :
    (u t : String) (ts new : List String)
    → handles u ts ≡ true
    → (handles t ts || handles t new) ≡ (handles t ts || handles t (u ∷ new))
absorbed u t ts new known = elim (text_cases u t) [
  | inl (same, e) ↦ let also = sym (ap (λ x. handles x ts) same) ∙ known in ground arith
  | inr (differ, e) ↦ ground arith
]

moved :
    (u t : String) (ts new : List String)
    → (handles t (ts ++ u ∷ []) || handles t new) ≡ (handles t ts || handles t (u ∷ new))
moved u t ts new = let last = handles-last t u ts in ground arith

merge_known :
    (ts : List String) (n : ℕ) (u : String) (new : List String)
    → handles u ts ≡ true
    → merge_task_types ts n (u ∷ new) ≡ merge_task_types ts n new
unfolding merge_task_types
merge_known ts n u new known = ground arith

merge_fresh :
    (ts : List String) (n : ℕ) (u : String) (new : List String)
    → handles u ts ≡ false
    → merge_task_types ts n (u ∷ new) ≡ merge_task_types (ts ++ u ∷ []) (n + 1) new
unfolding merge_task_types
merge_fresh ts n u new fresh = ground arith

-- Merging task types handles exactly what the old or the new ones handle.
pub merge_task_types-handles :
    (ts : List String) (n : ℕ) (new : List String) (t : String)
    → handles t (merge_task_types ts n new).0 ≡ (handles t ts || handles t new)
merge_task_types-handles ts n [] t = unfold merge_task_types in ground arith
merge_task_types-handles ts n (u ∷ new) t = elim (Bool-cases (handles u ts)) [
  | inl known ↦
      rw (merge_known ts n u new known)
        (merge_task_types-handles ts n new t ∙ absorbed u t ts new known)
  | inr fresh ↦
      rw (merge_fresh ts n u new fresh)
        (merge_task_types-handles (ts ++ u ∷ []) (n + 1) new t ∙ moved u t ts new)
]

-- Merging repeats no task type when the old ones have no repetition, whatever the new ones are.
pub merge_task_types-IsDistinct :
    (ts : List String) (n : ℕ) (new : List String)
    → IsDistinct ts
    → IsDistinct (merge_task_types ts n new).0
merge_task_types-IsDistinct ts n [] distinct = unfold merge_task_types in distinct
merge_task_types-IsDistinct ts n (u ∷ new) distinct = elim (Bool-cases (handles u ts)) [
  | inl known ↦ rw (merge_known ts n u new known) (merge_task_types-IsDistinct ts n new distinct)
  | inr fresh ↦
      rw (merge_fresh ts n u new fresh) (
        merge_task_types-IsDistinct (ts ++ u ∷ []) (n + 1) new
          (IsDistinct-last u ts fresh distinct))
]

set_worker-workers :
    (reachable : Bool) (name : String) (n : ℕ) (task_types : List String) (s : WorkerState)
    → (set_worker reachable name n task_types s).workers ≡ put_worker name n task_types s.workers
unfolding set_worker save_workers
set_worker-workers true name n task_types s = refl
set_worker-workers false name n task_types s = refl

-- A percentage that is accepted is 100 at most, and the worker then has it with the task types
-- given; the other workers are as they were loaded.
pub run_worker_set_lem :
    (configured : ℕ) (reachable : Bool) (order : List String) (name percentage task_types : String)
    (s s' : WorkerState)
    → run_worker_set configured reachable order name percentage task_types s ≡ (ok tt, s')
    → (n : ℕ) × (parse_int percentage ≡ some n)
      × (n ≤ 100)
      × ((m : String)
          → get_worker m s'.workers ≡ (
              if name == m
              then some
                  (record { name = name; percentage = n; task_types = parse_task_types task_types })
              else get_worker m (init_concurrency configured reachable order s).workers))
unfolding run_worker_set
run_worker_set_lem configured reachable order name percentage task_types s s' done =
    elim (Option-cases (parse_int percentage)) [
      | inl bad ↦ absurd (ground arith)
      | inr (n, parsed) ↦
          let before = init_concurrency configured reachable order s in
          let listed = parse_task_types task_types in
          let set : s' ≡ set_worker reachable name n listed before = ground arith in
          (
            n,
            parsed,
            ground arith,
            λ m.
                ap (λ x. get_worker m x.workers) set
                ∙ ap (get_worker m) (set_worker-workers reachable name n listed before)
                ∙ get_worker-put_worker name n listed before.workers m,
          )
    ]
