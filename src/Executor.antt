-- ===== src/Executor.antt =====
-- headers/concurrency/TaskExecutor.hpp and src/concurrency/TaskExecutor.cpp: the worker thread and one
-- client thread. A step is one critical section of `mtx`, one notification, or the run of a task.
-- A thread that a condition variable has put to sleep tests its condition again when it is notified, or
-- when it wakes by itself, as a `std::condition_variable` may let it do at any time.
pub mod Lost
pub mod Stages
pub mod Steps
pub mod Phases
pub mod Progress
use gicame.Prelude.{
  ℕ, Bool, true, false, Option, none, some, List, [], ◌∷◌, ◌++◌, ◌||◌, if◌then◌else◌,
}

pub data CompletionState : Type 0 where
  not_done all_done done_with_errors : CompletionState

-- What the run of a task ends in: a return, a `std::exception`, or a throw of anything else.
pub data TaskEnd : Type 0 where
  returns : TaskEnd
  throws : ℕ → TaskEnd
  throws_other : TaskEnd

-- A `std::function<void()>`, by a number that names it and what its run ends in.
pub record Task : Type 0 where
  pub name : ℕ
  pub ending : TaskEnd

-- The calls of the client; `destroy` is the destructor.
pub data Call : Type 0 where
  submit_void_task : Task → Call
  wait_for_task_completion : Call
  destroy : Call

pub data Worker : Type 0 where
  checking : Worker
  asleep : Worker
  running : Option Task → Worker
  recording : Task → Worker
  notifying_done : Worker
  exited : Worker

pub data Client : Type 0 where
  calling : Client
  notifying_task : Client
  asleep_submit : Client
  asleep_completion : Client
  notifying_stop : Client
  joining : Client
  joined : Client

-- `log` are the tasks run so far, `results` what the calls of `waitForTaskCompletion` have returned.
pub record Executor : Type 0 where
  pub task : Option Task
  pub task_available : Bool
  pub stop_flag : Bool
  pub completion : CompletionState
  pub last_exception : Option ℕ
  pub worker : Worker
  pub client : Client
  pub calls : List Call
  pub log : List Task
  pub results : List CompletionState

abbrev pub completion_of : TaskEnd → CompletionState
completion_of returns = all_done
completion_of (throws e) = done_with_errors
completion_of throws_other = done_with_errors

abbrev pub exception_of : TaskEnd → Option ℕ
exception_of (throws e) = some e
exception_of _ = none

-- The body of the wait on `cvTaskAvailable`, once its test holds.
pub take_task : Executor → Executor
take_task s = if s.stop_flag then record s { worker = exited } else record s {
  worker = running s.task;
  task = none;
  task_available = false;
  completion = not_done;
  last_exception = none;
}

pub wake_client : Client → Client
wake_client asleep_completion = calling
wake_client c = c

pub wake_worker : Worker → Worker
wake_worker asleep = checking
wake_worker w = w

-- `workerThreadBody`. A worker that sleeps does nothing in its turns: it is woken by `wake_worker`.
pub work : Worker → Executor → Executor
work checking s =
    if s.task_available || s.stop_flag then take_task s else record s { worker = asleep }
work asleep s = s
work (running none) s = record s { worker = checking }
work (running (some t)) s = record s { worker = recording t; log = s.log ++ (t ∷ []) }
work (recording t) s = record s {
  worker = notifying_done;
  completion = completion_of t.ending;
  last_exception = elim t.ending [ throws e ↦ some e | _ ↦ s.last_exception ];
}
work notifying_done s = record s { worker = checking; client = wake_client s.client }
work exited s = s

-- The head of the list of calls, where the client thread is not asleep.
pub call : List Call → Executor → Executor
call [] s = s
call (submit_void_task t ∷ cs) s =
    if s.task_available then record s { client = asleep_submit } else record s {
      task = some t;
      task_available = true;
      completion = not_done;
      client = notifying_task;
      calls = cs;
    }
call (wait_for_task_completion ∷ cs) s = elim s.completion [
  | not_done ↦ record s { client = asleep_completion }
  | _ ↦ record s { results = s.results ++ (s.completion ∷ []); calls = cs }
]
call (destroy ∷ cs) s = record s { stop_flag = true; client = notifying_stop; calls = cs }

pub is_exited : Worker → Bool
is_exited exited = true
is_exited _ = false

-- The client; one that sleeps is woken by `wake_client` or `rouse_client`.
pub request : Client → Executor → Executor
request calling s = call s.calls s
request notifying_task s = record s { client = calling; worker = wake_worker s.worker }
request asleep_submit s = s
request asleep_completion s = s
request notifying_stop s = record s { client = joining; worker = wake_worker s.worker }
request joining s = if is_exited s.worker then record s { client = joined } else s
request joined s = s

-- `getLastTaskException`
unfoldable pub get_last_task_exception : Executor → Option ℕ
get_last_task_exception s = s.last_exception

-- A turn of a thread, or a spurious wake-up of one that sleeps.
pub data Turn : Type 0 where
  worker_turn client_turn worker_wakes client_wakes : Turn

-- The client tests the condition of its wait again.
pub rouse_client : Client → Client
rouse_client asleep_submit = calling
rouse_client asleep_completion = calling
rouse_client c = c

abbrev pub client_rouses : List Turn → Bool
client_rouses [] = false
client_rouses (client_wakes ∷ ts) = true
client_rouses (t ∷ ts) = client_rouses ts

-- Some thread of the schedule wakes by itself.
abbrev pub rouses : List Turn → Bool
rouses [] = false
rouses (client_wakes ∷ ts) = true
rouses (worker_wakes ∷ ts) = true
rouses (t ∷ ts) = rouses ts

unfoldable pub step : Turn → Executor → Executor
unfolding work request call take_task wake_client wake_worker rouse_client is_exited
step worker_turn s = work s.worker s
step client_turn s = request s.client s
step worker_wakes s = record s { worker = wake_worker s.worker }
step client_wakes s = record s { client = rouse_client s.client }

unfoldable pub run : List Turn → Executor → Executor
run [] s = s
run (t ∷ ts) s = run ts (step t s)

-- The constructor, with the calls that the client will make.
unfoldable pub start : List Call → Executor
start calls = record {
  task = none;
  task_available = false;
  stop_flag = false;
  completion = not_done;
  last_exception = none;
  worker = checking;
  client = calling;
  calls = calls;
  log = [];
  results = [];
}
