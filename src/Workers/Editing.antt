-- ===== src/Workers/Editing.antt =====
-- SetWorker and ResetToDefault, and what the next process reads of them in Redis.
use insight_collector.Prelude.{
  ℕ, String, true, Option, some, List, [], ◌∷◌, ◌==◌, if◌then◌else◌, ◌≡◌, ◌≢◌, refl, arith, eq_iff,
  ap, text_cases, inl, inr,
}
use insight_collector.Workers.{
  Worker, all_jobs, check_queues, generate_default_workers, get_worker, put_worker, save_workers,
  load_workers, WorkerState, init_concurrency, set_worker, reset_to_default,
}

-- After a worker is set, its name has the new configuration, and every other name the one it had.
pub get_worker-put_worker :
    (name : String) (percentage : ℕ) (task_types : List String) (ws : List Worker) (m : String)
    → get_worker m (put_worker name percentage task_types ws) ≡ (
        if name == m
        then some (record { name = name; percentage = percentage; task_types = task_types })
        else get_worker m ws)
unfolding put_worker
get_worker-put_worker name percentage task_types [] m = ground arith
get_worker-put_worker name percentage task_types (w ∷ ws) m =
    let rest = get_worker-put_worker name percentage task_types ws m in
    elim (text_cases w.name name) [
      | inl (same, e) ↦
          let at : String → Worker =
            λ x. record { name = x; percentage = percentage; task_types = task_types } in
          let renamed = ap at same in let tested = ap (λ x. x == m) same in ground arith
      | inr (differ, e) ↦ ground (arith, eq_iff w.name m, eq_iff name m, eq_iff w.name name)
    ]

-- A process that starts, with the value that Redis holds
abbrev pub started_with : Option (List Worker) → WorkerState
started_with saved = record { concurrency = 0; workers = []; saved = saved }

put_worker-ne :
    (name : String) (percentage : ℕ) (task_types : List String) (ws : List Worker)
    → put_worker name percentage task_types ws ≢ []
unfolding put_worker
put_worker-ne name percentage task_types [] e = ground arith
put_worker-ne name percentage task_types (w ∷ ws) e = ground arith

init_saved :
    (configured : ℕ) (order : List String) (ws : List Worker)
    → ws ≢ []
    → (init_concurrency configured true order (started_with (some ws))).workers ≡ ws
unfolding init_concurrency load_workers save_workers
init_saved configured order [] some_worker = absurd (some_worker refl)
init_saved configured order (w ∷ ws) some_worker = ground arith

init_reset :
    (configured : ℕ) (order : List String)
    → (init_concurrency configured true order (started_with (some []))).workers
      ≡ generate_default_workers order (check_queues all_jobs)
unfolding init_concurrency load_workers save_workers
init_reset configured order = ground arith

-- While Redis answers, the next process starts with the workers that SetWorker leaves, and after
-- ResetToDefault with the generated ones.
pub changes_persist :
    (configured percentage : ℕ) (name : String) (task_types order : List String) (s : WorkerState)
    → ((init_concurrency configured true order
          (started_with (set_worker true name percentage task_types s).saved)).workers
        ≡ put_worker name percentage task_types s.workers)
      × ((init_concurrency configured true order
            (started_with (reset_to_default true s).saved)).workers
          ≡ generate_default_workers order (check_queues all_jobs))
unfolding set_worker reset_to_default save_workers
changes_persist configured percentage name task_types order s = (
  init_saved configured order (put_worker name percentage task_types s.workers)
      (put_worker-ne name percentage task_types s.workers),
  init_reset configured order,
)
