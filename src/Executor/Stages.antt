-- ===== src/Executor/Stages.antt =====
-- A client of src/concurrency/TaskExecutor.cpp that waits for each task before it submits the next one:
-- where the two threads can stand.
use gicame.Prelude.{◌≡◌, List, [], ◌∷◌, ◌++◌, Option, none, some, Bool, true, false, ℕ}
use gicame.Executor.{
  CompletionState, not_done, completion_of, exception_of, Task, Call, submit_void_task,
  wait_for_task_completion, Worker, checking, asleep, running, recording, notifying_done, Client,
  calling, notifying_task, asleep_completion, Executor,
}

-- `submitVoidTask(t); waitForTaskCompletion();` for each task in turn
abbrev pub script : List Task → List Call
script [] = []
script (t ∷ ts) = submit_void_task t ∷ wait_for_task_completion ∷ script ts

abbrev pub outcomes : List Task → List CompletionState
outcomes [] = []
outcomes (t ∷ ts) = completion_of t.ending ∷ outcomes ts

-- The worker has nothing to do, or is about to find that out.
pub data Rests : Worker → Type 0 where
  rest_checking : Rests checking
  rest_asleep : Rests asleep
  rest_notifying : Rests notifying_done

-- The client has submitted and has not seen the end of the task.
pub data Busy : Client → Type 0 where
  busy_notifying : Busy notifying_task
  busy_calling : Busy calling
  busy_asleep : Busy asleep_completion

-- The worker will look at the slot: it is awake, or its notification is still to come.
pub data Alert : Worker → Client → Type 0 where
  alert_checking : {c : Client} → Busy c → Alert checking c
  alert_notifying : {c : Client} → Busy c → Alert notifying_done c
  alert_asleep : Alert asleep notifying_task

-- The task has ended: a client asleep has its notification still to come.
pub data Ended : Worker → Client → Type 0 where
  ended_notifying : {c : Client} → Busy c → Ended notifying_done c
  ended_resting : {w : Worker} → Rests w → Ended w notifying_task
  ended_calling : {w : Worker} → Rests w → Ended w calling

abbrev pub at :
    Worker
    → Client
    → Option Task
    → Bool
    → CompletionState
    → Option ℕ
    → List Call
    → List Task
    → List CompletionState
    → Executor
at w c slot available k x calls log results = record {
  task = slot;
  task_available = available;
  stop_flag = false;
  completion = k;
  last_exception = x;
  worker = w;
  client = c;
  calls = calls;
  log = log;
  results = results;
}

-- `dones` are the tasks that the client has waited for, then come the current one and `todo`.
pub data Phase (tasks : List Task) : Executor → Type 0 where
  idle :
      {w : Worker} {k : CompletionState} {x : Option ℕ} {rs : List CompletionState}
      (dones todo : List Task)
      → Rests w
      → rs ≡ outcomes dones
      → dones ++ todo ≡ tasks
      → Phase tasks (at w calling none false k x (script todo) dones rs)
  offered :
      {w : Worker} {c : Client} {x : Option ℕ} {rs : List CompletionState} {t : Task}
      (dones todo : List Task)
      → Alert w c
      → rs ≡ outcomes dones
      → dones ++ t ∷ todo ≡ tasks
      → Phase tasks
          (at w c (some t) true not_done x (wait_for_task_completion ∷ script todo) dones rs)
  taken :
      {c : Client} {rs : List CompletionState} {t : Task} (dones todo : List Task)
      → Busy c
      → rs ≡ outcomes dones
      → dones ++ t ∷ todo ≡ tasks
      → Phase tasks (
          at
            (running (some t))
            c
            none
            false
            not_done
            none
            (wait_for_task_completion ∷ script todo)
            dones
            rs)
  ran :
      {c : Client} {rs : List CompletionState} {t : Task} (dones todo : List Task)
      → Busy c
      → rs ≡ outcomes dones
      → dones ++ t ∷ todo ≡ tasks
      → Phase tasks (
          at
            (recording t)
            c
            none
            false
            not_done
            none
            (wait_for_task_completion ∷ script todo)
            (dones ++ t ∷ [])
            rs)
  ended :
      {w : Worker} {c : Client} {x : Option ℕ} {rs : List CompletionState} (dones todo : List Task)
      (t : Task)
      → Ended w c
      → x ≡ exception_of t.ending
      → rs ≡ outcomes dones
      → dones ++ t ∷ todo ≡ tasks
      → Phase tasks (
          at w c none false
            (completion_of t.ending)
            x
            (wait_for_task_completion ∷ script todo)
            (dones ++ t ∷ [])
            rs)
