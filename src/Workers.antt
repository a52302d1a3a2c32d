-- ===== src/Workers.antt =====
-- pkg/asynq/worker_config.go with internal/constants/queues.go and internal/jobs/registry.go: the
-- workers, the percentages of new ones, and the queue of a task type. A percentage is a natural
-- number: `worker set` refuses others, and the generated ones are.
pub mod Percentages
pub mod Routing
pub mod Editing
pub mod Dispatch
use insight_collector.Prelude.{
  ℕ, ◌+◌, ◌-◌, ◌*◌, ◌/◌, ◌%◌, String, Bool, true, false, ◌&&◌, not, Option, none, some, List, [],
  ◌∷◌, ◌++◌, map, ◌==◌, GoMap, empty, insert, Result, ok, err, if◌then◌else◌, ◌≡◌, refl, ltb, eqb,
  length, any, all, sum,
}
use insight_collector.Text.{split, trim_space}

pub record Worker : Type 0 where
  pub name : String
  pub percentage : ℕ
  pub task_types : List String

pub record Job : Type 0 where
  pub task_type : String
  pub queue : String

pub data JobsError : Type 0 where
  invalid_queue : String → String → JobsError

abbrev pub all_queues : List String
all_queues = "critical" ∷ "default" ∷ "low" ∷ []

abbrev pub is_valid_queue : String → Bool
is_valid_queue queue = any (λ valid. queue == valid) all_queues

-- The jobs of RegisterHandlers
abbrev pub all_jobs : List Job
all_jobs =
    record { task_type = "user_activities:logging"; queue = "critical" }
    ∷ record { task_type = "security_events:logging"; queue = "critical" }
    ∷ record { task_type = "transaction_events:logging"; queue = "critical" }
    ∷ record { task_type = "callback_logs:logging"; queue = "critical" }
    ∷ record { task_type = "example:processing"; queue = "low" }
    ∷ []

-- The loop that validates the queue names
unfoldable pub check_queues : List Job → Result JobsError (List Job)
check_queues [] = ok []
check_queues (j ∷ js) =
    let rest = check_queues js in
    if not (is_valid_queue j.queue)
    then err (invalid_queue j.queue j.task_type)
    else elim rest [ ok rest' ↦ ok (j ∷ rest') | err e ↦ err e ]

checked_jobs : check_queues all_jobs ≡ ok all_jobs
unfolding check_queues
checked_jobs = refl

unfoldable pub get_default_percentage : String → ℕ → ℕ
get_default_percentage queue total_queues =
    if queue == "critical"
    then 70
    else if queue == "default"
    then 20
    else if queue == "low"
    then 10
    else 100 / total_queues

abbrev pub total_percentage : List Worker → ℕ
total_percentage ws = sum (map (λ w. w.percentage) ws)

-- The loop over the workers from index `i`
unfoldable pub spread : ℕ → ℕ → ℕ → List Worker → List Worker
spread even remainder i [] = []
spread even remainder i (w ∷ ws) =
    record w { percentage = if ltb i remainder then even + 1 else even }
    ∷ spread even remainder (i + 1) ws

abbrev pub scale : ℕ → List Worker → List Worker
scale total [] = []
scale total (w ∷ ws) = record w { percentage = (w.percentage * 100) / total } ∷ scale total ws

-- The difference goes to the first worker: 100 is added before the total is taken away, since the
-- total may not be above it.
unfoldable pub adjust_first : List Worker → List Worker
adjust_first [] = []
adjust_first (w ∷ ws) =
    let actual_total = total_percentage (w ∷ ws) in
    if not (eqb actual_total 100)
    then record w { percentage = (w.percentage + 100) - actual_total } ∷ ws
    else w ∷ ws

unfoldable pub normalize_percentages : List Worker → List Worker
normalize_percentages ws =
    let total = total_percentage ws in
    if eqb (length ws) 0
    then ws
    else if eqb total 0
    then spread (100 / length ws) (100 % length ws) 0 ws
    else if not (eqb total 100)
    then adjust_first (scale total ws)
    else ws

-- A missing key of the map reads as nil.
abbrev pub or_nil : Option (List String) → List String
or_nil none = []
or_nil (some ts) = ts

abbrev pub tasks_at : GoMap (List String) → String → List String
tasks_at m queue = or_nil (m queue)

-- `queueJobs[job.Queue] = append(queueJobs[job.Queue], job.TaskType)` for each job
abbrev pub queue_jobs : List Job → GoMap (List String) → GoMap (List String)
queue_jobs [] m = m
queue_jobs (j ∷ js) m = queue_jobs js (insert j.queue (tasks_at m j.queue ++ j.task_type ∷ []) m)

-- `range queueJobs` visits the keys in an order that Go leaves open: `order`.
abbrev pub group_workers : List String → ℕ → GoMap (List String) → List Worker
group_workers [] total m = []
group_workers (queue ∷ order) total m =
    record {
      name = queue;
      percentage = get_default_percentage queue total;
      task_types = tasks_at m queue;
    }
    ∷ group_workers order total m

unfoldable pub generate_default_workers : List String → Result JobsError (List Job) → List Worker
generate_default_workers order (err e) = []
generate_default_workers order (ok []) = []
generate_default_workers order (ok (j ∷ js)) =
    normalize_percentages (group_workers order (length order) (queue_jobs (j ∷ js) empty))

abbrev pub get_worker : String → List Worker → Option Worker
get_worker name [] = none
get_worker name (w ∷ ws) = if w.name == name then some w else get_worker name ws

-- The loop of SetWorker, and the append when it finds no entry
unfoldable pub put_worker : String → ℕ → List String → List Worker → List Worker
put_worker name percentage task_types [] =
    record { name = name; percentage = percentage; task_types = task_types } ∷ []
put_worker name percentage task_types (w ∷ ws) =
    if w.name == name
    then record w { percentage = percentage; task_types = task_types } ∷ ws
    else w ∷ put_worker name percentage task_types ws

unfoldable pub queue_weights : List Worker → GoMap ℕ → GoMap ℕ
queue_weights [] queues = queues
queue_weights (w ∷ ws) queues =
    queue_weights ws
      (insert w.name (if eqb (w.percentage / 10) 0 then 1 else w.percentage / 10) queues)

abbrev pub generate_queues : List Worker → GoMap ℕ
generate_queues ws = queue_weights ws empty

abbrev pub handles : String → List String → Bool
handles task_type ts = any (λ t. t == task_type) ts

unfoldable pub get_queue_for_task_type : String → List Worker → String
get_queue_for_task_type task_type [] = "default"
get_queue_for_task_type task_type (w ∷ ws) =
    if handles task_type w.task_types then w.name else get_queue_for_task_type task_type ws

-- The package's variables, and the value of "asynq:worker:config" in Redis
pub record WorkerState : Type 0 where
  pub concurrency : ℕ
  pub workers : List Worker
  pub saved : Option (List Worker)

-- saveWorkersToRedis, when Redis answers or not
unfoldable pub save_workers : Bool → WorkerState → WorkerState
save_workers reachable s = if reachable then record s { saved = some s.workers } else s

-- loadWorkersFromRedis: neither an absent key nor an error changes the workers.
unfoldable pub load_workers : Bool → WorkerState → WorkerState
load_workers reachable s =
    if reachable then elim s.saved [ some ws ↦ record s { workers = ws } | none ↦ s ] else s

unfoldable pub init_concurrency : ℕ → Bool → List String → WorkerState → WorkerState
unfolding load_workers save_workers
init_concurrency configured reachable order s =
    let set =
      if eqb s.concurrency 0
      then record s { concurrency = if eqb configured 0 then 10 else configured }
      else s in
    let loaded = load_workers reachable set in
    if eqb (length loaded.workers) 0
    then save_workers reachable
        (record loaded { workers = generate_default_workers order (check_queues all_jobs) })
    else loaded

unfoldable pub set_worker : Bool → String → ℕ → List String → WorkerState → WorkerState
unfolding save_workers
set_worker reachable name percentage task_types s =
    save_workers reachable (record s { workers = put_worker name percentage task_types s.workers })

unfoldable pub reset_to_default : Bool → WorkerState → WorkerState
unfolding save_workers
reset_to_default reachable s = save_workers reachable (record s { workers = [] })
