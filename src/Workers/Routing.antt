-- ===== src/Workers/Routing.antt =====
-- GetQueueForTaskType on the workers that generateDefaultWorkers makes of the registered jobs.
use insight_collector.Prelude.{
  ℕ, ◌+◌, ◌/◌, ◌%◌, String, Bool, true, false, ◌&&◌, ◌||◌, Option, some, List, [], ◌∷◌, ◌++◌, ◌==◌,
  GoMap, empty, insert, ok, if◌then◌else◌, length, any, All, ◌≡◌, ◌≢◌, refl, arith, eq_iff, inl,
  inr, text_cases, ◌∙◌, sym, ap,
}
use insight_collector.Workers.{
  Worker, Job, total_percentage, spread, scale, adjust_first, normalize_percentages, or_nil,
  tasks_at, queue_jobs, group_workers, generate_default_workers, handles, get_queue_for_task_type,
}
use insight_collector.Workers.Percentages.{normalize_percentages_total}

get_queue-spread :
    (t : String) (even remainder i : ℕ) (ws : List Worker)
    → get_queue_for_task_type t (spread even remainder i ws) ≡ get_queue_for_task_type t ws
unfolding get_queue_for_task_type spread
get_queue-spread t even remainder i [] = refl
get_queue-spread t even remainder i (w ∷ ws) =
    let rest = get_queue-spread t even remainder (i + 1) ws in cc

get_queue-scale :
    (t : String) (total : ℕ) (ws : List Worker)
    → get_queue_for_task_type t (scale total ws) ≡ get_queue_for_task_type t ws
unfolding get_queue_for_task_type
get_queue-scale t total [] = refl
get_queue-scale t total (w ∷ ws) = let rest = get_queue-scale t total ws in cc

get_queue-adjust_first :
    (t : String) (ws : List Worker)
    → get_queue_for_task_type t (adjust_first ws) ≡ get_queue_for_task_type t ws
unfolding get_queue_for_task_type adjust_first
get_queue-adjust_first t [] = refl
get_queue-adjust_first t (w ∷ ws) = ground arith

-- Normalising the percentages moves no task type to another queue.
pub get_queue-normalize_percentages :
    (t : String) (ws : List Worker)
    → get_queue_for_task_type t (normalize_percentages ws) ≡ get_queue_for_task_type t ws
unfolding normalize_percentages
get_queue-normalize_percentages t ws =
    let total = total_percentage ws in
    let even = get_queue-spread t (100 / length ws) (100 % length ws) 0 ws in
    let scaled = get_queue-adjust_first t (scale total ws) ∙ get_queue-scale t total ws in
    ground arith

handles-append :
    (t : String) (xs ys : List String) → handles t (xs ++ ys) ≡ (handles t xs || handles t ys)
handles-append t [] ys = refl
handles-append t (x ∷ xs) ys = let rest = handles-append t xs ys in ground arith

-- Some job has the queue and the task type.
abbrev pub is_registered : String → String → List Job → Bool
is_registered q t = any (λ j. j.queue == q && j.task_type == t)

or_nil-if :
    (b : Bool) (v : List String) (o : Option (List String))
    → or_nil (if b then some v else o) ≡ (if b then v else or_nil o)
or_nil-if true v o = refl
or_nil-if false v o = refl

or_assoc : (a b c : Bool) → ((a || b) || c) ≡ (a || (b || c))
or_assoc true b c = refl
or_assoc false b c = refl

handled :
    (q t p task : String) (m : GoMap (List String))
    → handles t (if p == q then tasks_at m p ++ task ∷ [] else tasks_at m q)
      ≡ (handles t (tasks_at m q) || p == q && task == t)
handled q t p task m =
    let last = handles-append t (tasks_at m p) (task ∷ []) in
    elim (text_cases p q) [
      | inl (same, e) ↦ let old = ap (λ r. handles t (tasks_at m r)) same in ground arith
      | inr (differ, e) ↦ ground arith
    ]

handles-insert :
    (q t p task : String) (m : GoMap (List String))
    → handles t (tasks_at (insert p (tasks_at m p ++ task ∷ []) m) q)
      ≡ (handles t (tasks_at m q) || p == q && task == t)
handles-insert q t p task m =
    let new = tasks_at m p ++ task ∷ [] in
    ap (handles t) (or_nil-if (p == q) new (m q)) ∙ handled q t p task m

handles-queue_jobs :
    (q t : String) (js : List Job) (m : GoMap (List String))
    → handles t (tasks_at (queue_jobs js m) q) ≡ (handles t (tasks_at m q) || is_registered q t js)
handles-queue_jobs q t [] m = ground arith
handles-queue_jobs q t (j ∷ js) m =
    let new = tasks_at m j.queue ++ j.task_type ∷ [] in
    let rest = handles-queue_jobs q t js (insert j.queue new m) in
    let first = handles-insert q t j.queue j.task_type m in
    rest ∙ ap (λ b. b || is_registered q t js) first ∙ or_assoc (handles t (tasks_at m q)) _ _

grouped :
    (order : List String) (total : ℕ) (m : GoMap (List String)) (t q : String)
    → any (λ p. p == q) order ≡ true
    → handles t (tasks_at m q) ≡ true
    → ((p : String) → handles t (tasks_at m p) ≡ true → p ≡ q)
    → get_queue_for_task_type t (group_workers order total m) ≡ q
unfolding get_queue_for_task_type
grouped [] total m t q visited here only = absurd (ground arith)
grouped (p ∷ order) total m t q visited here only =
    let rest = grouped order total m t q in ground (arith, eq_iff p q, only p, rest)

only_queue :
    (q t p : String) (js : List Job)
    → All (λ j. j.task_type ≡ t → j.queue ≡ q) js
    → is_registered p t js ≡ true
    → p ≡ q
only_queue q t p [] same found = absurd (ground arith)
only_queue q t p (j ∷ js) (here, same) found =
    let rest = only_queue q t p js same in
    ground (arith, eq_iff j.queue p, eq_iff j.task_type t, rest)

registered-has_queue :
    (q t : String) (js : List Job) → is_registered q t js ≡ true → any (λ j. j.queue == q) js ≡ true
registered-has_queue q t [] found = absurd (ground arith)
registered-has_queue q t (j ∷ js) found =
    let rest = registered-has_queue q t js in ground (arith, rest)

some_group :
    (order : List String) (total : ℕ) (m : GoMap (List String)) (q : String)
    → any (λ p. p == q) order ≡ true
    → group_workers order total m ≢ []
some_group [] total m q visited e = ground arith
some_group (p ∷ order) total m q visited e = ground arith

-- In whatever order the map of the queues is visited: when the jobs of one task type have one
-- queue, the generated workers route the type of a registered job to the queue of the job, and
-- their percentages sum to 100.
pub generate_default_workers-routes :
    (order : List String) (jobs : List Job) (q t : String)
    → ((p : String) → any (λ x. x == p) order ≡ any (λ j. j.queue == p) jobs)
    → All (λ j. j.task_type ≡ t → j.queue ≡ q) jobs
    → is_registered q t jobs ≡ true
    → (get_queue_for_task_type t (generate_default_workers order (ok jobs)) ≡ q)
      × (total_percentage (generate_default_workers order (ok jobs)) ≡ 100)
unfolding generate_default_workers
generate_default_workers-routes order [] q t visits same registered = absurd (ground arith)
generate_default_workers-routes order (j ∷ js) q t visits same registered =
    let jobs = j ∷ js in
    let m = queue_jobs jobs empty in
    let groups = group_workers order (length order) m in
    let visited = visits q ∙ registered-has_queue q t jobs registered in
    let here = handles-queue_jobs q t jobs empty ∙ registered in
    let only : (p : String) → handles t (tasks_at m p) ≡ true → p ≡ q =
      λ p found. only_queue q t p jobs same (sym (handles-queue_jobs p t jobs empty) ∙ found) in
    let routed = grouped order (length order) m t q visited here only in
    (
      get_queue-normalize_percentages t groups ∙ routed,
      normalize_percentages_total groups (some_group order (length order) m q visited),
    )
