-- ===== src/Tests/Queues.antt =====
-- The workers and their commands at the registered jobs.
use insight_collector.Query.{last}
use insight_collector.Workers.Dispatch.{
  Payload, Task, Enqueued, duplicate_task, panicked, enqueued_successfully, dispatch_job, task_of,
  dispatch_job_hides_errors,
}
use insight_collector.Prelude.{
  Bool, ◌≢◌, ℕ, ◌≤◌, String, true, none, some, List, [], ◌∷◌, ◌==◌, ok, if◌then◌else◌, ◌≡◌, ◌↔◌,
  refl, arith, any, eq_iff,
}
use insight_collector.Text.Integers.{parse_int}
use insight_collector.Workers.{
  Worker, all_jobs, check_queues, total_percentage, normalize_percentages, generate_default_workers,
  get_worker, put_worker, get_queue_for_task_type, WorkerState, init_concurrency, set_worker,
  reset_to_default,
}
use insight_collector.Workers.Percentages.{normalize_percentages_total}
use insight_collector.Workers.Routing.{generate_default_workers-routes}
use insight_collector.Workers.Editing.{started_with, changes_persist}
use insight_collector.Cli.Workers.{parse_task_types, run_worker_set, run_worker_set_lem}

abbrev workers : List Worker
workers =
    record { name = "critical"; percentage = 70; task_types = "a" ∷ "b" ∷ [] }
    ∷ record { name = "low"; percentage = 10; task_types = "c" ∷ [] }
    ∷ []

normalize_percentages_total_example : total_percentage (normalize_percentages workers) ≡ 100
normalize_percentages_total_example = normalize_percentages_total workers (λ e. ground arith)

visits :
    (p : String) → any (λ x. x == p) ("critical" ∷ "low" ∷ []) ≡ any (λ j. j.queue == p) all_jobs
visits p = ground arith

generate_default_workers-routes_example :
    (get_queue_for_task_type "example:processing"
        (generate_default_workers ("critical" ∷ "low" ∷ []) (ok all_jobs))
      ≡ "low")
    × (total_percentage (generate_default_workers ("critical" ∷ "low" ∷ []) (ok all_jobs)) ≡ 100)
generate_default_workers-routes_example =
    generate_default_workers-routes ("critical" ∷ "low" ∷ []) all_jobs "low" "example:processing"
      visits
      (
        λ e. ground (arith, eq_iff "user_activities:logging" "example:processing"),
        (
          λ e. ground (arith, eq_iff "security_events:logging" "example:processing"),
          (
            λ e. ground (arith, eq_iff "transaction_events:logging" "example:processing"),
            (
              λ e. ground (arith, eq_iff "callback_logs:logging" "example:processing"),
              (λ e. refl, tt),
            ),
          ),
        ),
      )
      refl

changes_persist_example :
    ((init_concurrency 5 true
        ("critical" ∷ "low" ∷ [])
        (started_with (set_worker true "low" 30 ("d" ∷ []) (started_with none)).saved)).workers
      ≡ put_worker "low" 30 ("d" ∷ []) [])
    × ((init_concurrency 5 true
          ("critical" ∷ "low" ∷ [])
          (started_with (reset_to_default true (started_with none)).saved)).workers
        ≡ generate_default_workers ("critical" ∷ "low" ∷ []) (check_queues all_jobs))
changes_persist_example =
    changes_persist 5 30 "low" ("d" ∷ []) ("critical" ∷ "low" ∷ []) (started_with none)

abbrev set_low : WorkerState
set_low =
    set_worker true "low" 30 (parse_task_types "d, e")
      (init_concurrency 5 true ("critical" ∷ "low" ∷ []) (started_with none))

run_worker_set_lem_example :
    (n : ℕ) × (parse_int "30" ≡ some n)
    × (n ≤ 100)
    × ((m : String)
        → get_worker m set_low.workers ≡ (
            if "low" == m
            then some
                (record { name = "low"; percentage = n; task_types = parse_task_types "d, e" })
            else get_worker m
                (init_concurrency 5 true ("critical" ∷ "low" ∷ []) (started_with none)).workers))
run_worker_set_lem_example =
    run_worker_set_lem 5 true ("critical" ∷ "low" ∷ []) "low" "30" "d, e" (started_with none)
      set_low (unfold run_worker_set parse_int in refl)

abbrev one_worker : List Worker
one_worker = record { name = "critical"; percentage = 100; task_types = "a:b" ∷ [] } ∷ []

abbrev one_payload : Payload String
one_payload = record { task_id = "t-1"; task_type = "a:b"; data_of = "{}" }

-- The task is already in the queue.
abbrev refuses : Bool → Task → Enqueued
refuses client task = duplicate_task

-- The text of a payload is its data.
dispatch_job_hides_errors_example :
    (last ((dispatch_job some refuses true one_worker (some one_payload)).1)
      ≡ some (enqueued_successfully "critical"))
    ↔ ((p : Payload String) × (data_text : String) × (some one_payload ≡ some p)
        × (some p.data_of ≡ some data_text)
        × ("critical" ≡ get_queue_for_task_type p.task_type one_worker)
        × (refuses true (task_of some refuses one_worker p data_text) ≢ panicked))
dispatch_job_hides_errors_example =
    dispatch_job_hides_errors some refuses true one_worker (some one_payload) "critical"
