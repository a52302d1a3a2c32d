-- ===== src/Workers/Dispatch.antt =====
-- DispatchJob of pkg/asynq/client.go, with the goroutine that hands the task to asynq. asynq is the
-- parameter `enqueue`: EnqueueContext on a client, or on the nil of a package without one (`false`),
-- where it panics unless it refuses the task before it needs the client.
use mathlib.Core.Option.{some-injective}
use insight_collector.Prelude.{
  String, Bool, true, false, not, Option, none, some, List, [], ◌∷◌, ◌++◌, if◌then◌else◌, Result,
  ok, err, ◌≡◌, ◌≢◌, ◌↔◌, refl, arith, Option-cases, inl, inr, ap, sym, ◌∙◌,
}
use insight_collector.Query.{last}
use insight_collector.Workers.{Worker, get_queue_for_task_type}

pub record Payload (Data : Type 0) : Type 0 where
  pub task_id : String
  pub task_type : String
  pub data_of : Data

pub record Task : Type 0 where
  pub task_id : String
  pub task_type : String
  pub payload : String
  pub queue : String

-- How EnqueueContext ends. Its errors are ErrDuplicateTask, ErrTaskIDConflict and others.
pub data Enqueued : Type 0 where
  accepted duplicate_task task_id_conflict other_error panicked : Enqueued

pub data DispatchError : Type 0 where
  nil_payload marshal_failed : DispatchError

-- The log lines of DispatchJob; the last one has the queue.
pub data DispatchLine : Type 0 where
  failed_to_marshal client_not_initialized duplicate_ignored id_conflict : DispatchLine
  failed_to_enqueue : DispatchLine
  enqueued_successfully : String → DispatchLine

-- The lines after EnqueueContext
abbrev pub report : Enqueued → String → List DispatchLine
report accepted queue = enqueued_successfully queue ∷ []
report duplicate_task queue =
    duplicate_ignored ∷ failed_to_enqueue ∷ enqueued_successfully queue ∷ []
report task_id_conflict queue = id_conflict ∷ failed_to_enqueue ∷ enqueued_successfully queue ∷ []
report other_error queue = failed_to_enqueue ∷ enqueued_successfully queue ∷ []
report panicked queue = []

module _ {Data : Type 0} (marshal : Data → Option String) (enqueue : Bool → Task → Enqueued) where
  -- The goroutine, for a client that is there or nil
  unfoldable pub enqueue_task : Bool → List Worker → Payload Data → String → List DispatchLine
  enqueue_task client workers p data_text =
      let queue = get_queue_for_task_type p.task_type workers in
      let task : Task = record {
        task_id = p.task_id;
        task_type = p.task_type;
        payload = data_text;
        queue = queue;
      } in
      (if not client then client_not_initialized ∷ [] else []) ++ report (enqueue client task) queue

  -- The result, and the log once the goroutine has ended
  unfoldable pub dispatch_job :
      Bool
      → List Worker
      → Option (Payload Data)
      → Result DispatchError (Unit {0}) × List DispatchLine
  dispatch_job client workers none = (err nil_payload, [])
  dispatch_job client workers (some p) = elim (marshal p.data_of) [
    | none ↦ (err marshal_failed, failed_to_marshal ∷ [])
    | some data_text ↦ (ok tt, enqueue_task client workers p data_text)
  ]

  last-report_iff :
      (client : Bool) (e : Enqueued) (queue text : String)
      → (last ((if not client then client_not_initialized ∷ [] else []) ++ report e queue)
          ≡ some (enqueued_successfully text))
        ↔ ((text ≡ queue) × (e ≢ panicked))
  last-report_iff true accepted queue text = ground arith
  last-report_iff true duplicate_task queue text = ground arith
  last-report_iff true task_id_conflict queue text = ground arith
  last-report_iff true other_error queue text = ground arith
  last-report_iff true panicked queue text = ground arith
  last-report_iff false accepted queue text = ground arith
  last-report_iff false duplicate_task queue text = ground arith
  last-report_iff false task_id_conflict queue text = ground arith
  last-report_iff false other_error queue text = ground arith
  last-report_iff false panicked queue text = ground arith

  -- The task of a payload whose text is `data_text`
  abbrev pub task_of : List Worker → Payload Data → String → Task
  task_of workers p data_text = record {
    task_id = p.task_id;
    task_type = p.task_type;
    payload = data_text;
    queue = get_queue_for_task_type p.task_type workers;
  }

  logged :
      (client : Bool) (workers : List Worker) (p : Payload Data) (data_text : String)
      → marshal p.data_of ≡ some data_text
      → (dispatch_job client workers (some p)).1
        ≡ (if not client then client_not_initialized ∷ [] else [])
          ++ report
              (enqueue client (task_of workers p data_text))
              (get_queue_for_task_type p.task_type workers)
  unfolding enqueue_task dispatch_job
  logged client workers p data_text encoded = rw (dispatch_job, encoded) refl

  -- The log of DispatchJob and its goroutine ends with the line that a task is in a queue exactly
  -- when there is a payload, JSON encodes it, the queue is that of the worker for its type, and the
  -- call of asynq for its task does not panic: the line does not depend on asynq's acceptance.
  pub dispatch_job_hides_errors :
      (client : Bool) (workers : List Worker) (payload : Option (Payload Data)) (queue : String)
      → (last ((dispatch_job client workers payload).1) ≡ some (enqueued_successfully queue)) ↔ (
          (p : Payload Data) × (data_text : String) × (payload ≡ some p)
          × (marshal p.data_of ≡ some data_text)
          × (queue ≡ get_queue_for_task_type p.task_type workers)
          × (enqueue client (task_of workers p data_text) ≢ panicked))
  unfolding dispatch_job
  dispatch_job_hides_errors client workers none queue = ground arith
  dispatch_job_hides_errors client workers (some p) queue =
      elim (Option-cases (marshal p.data_of)) [
        | inl bad ↦ (
          λ e. absurd (ground arith),
          λ (x, data_text, same, encoded, _, _).
              let is_p = some-injective p x same in absurd (cc (ap (λ y. marshal y.data_of) is_p)),
        )
        | inr (data_text, encoded) ↦
            let (there, back) =
              last-report_iff client (enqueue client (task_of workers p data_text))
                (get_queue_for_task_type p.task_type workers) queue in
            let log = logged client workers p data_text encoded in
            (
              λ e.
                  let (is_queue, steady) = there (ap last (sym log) ∙ e) in
                  (p, data_text, refl, encoded, is_queue, steady),
              λ (x, text, same, encoded', is_queue, steady).
                  let is_p = some-injective p x same in
                  let is_text : data_text ≡ text =
                    some-injective data_text text
                      (sym encoded ∙ ap (λ y. marshal y.data_of) is_p ∙ encoded') in
                  ap last log ∙ back (rw (is_p, is_text) (is_queue, steady)),
            )
      ]
