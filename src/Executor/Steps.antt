-- ===== src/Executor/Steps.antt =====
-- The steps of the two threads of src/concurrency/TaskExecutor.cpp from where they can stand.
use gicame.Prelude.{
  ◌≡◌, refl, ◌∙◌, sym, ap, subst, List, [], ◌∷◌, ◌++◌, Option, none, some, false, append_assoc, ℕ,
}
use gicame.Executor.{
  CompletionState, completion_of, TaskEnd, returns, throws, throws_other, exception_of, Task, Call,
  wait_for_task_completion, Worker, notifying_done, Client, calling, Executor, Turn, worker_turn,
  client_turn, worker_wakes, client_wakes, step, run, work, request, call, take_task, wake_client,
  wake_worker, rouse_client,
}
use gicame.Executor.Stages.{
  script, outcomes, Rests, rest_checking, rest_asleep, rest_notifying, Busy, busy_notifying,
  busy_calling, busy_asleep, alert_checking, alert_notifying, alert_asleep, ended_notifying,
  ended_resting, ended_calling, at, Phase, idle, offered, taken, ran, ended,
}

work-Phase : (ts : List Task) {s : Executor} → Phase ts s → Phase ts (work s.worker s)
unfolding work take_task wake_client
work-Phase ts (idle dones todo rest_checking r e) = idle dones todo rest_asleep r e
work-Phase ts (idle dones todo rest_asleep r e) = idle dones todo rest_asleep r e
work-Phase ts (idle dones todo rest_notifying r e) = idle dones todo rest_checking r e
work-Phase ts (offered dones todo (alert_checking b) r e) = taken dones todo b r e
work-Phase ts (offered dones todo (alert_notifying busy_notifying) r e) =
    offered dones todo (alert_checking busy_notifying) r e
work-Phase ts (offered dones todo (alert_notifying busy_calling) r e) =
    offered dones todo (alert_checking busy_calling) r e
work-Phase ts (offered dones todo (alert_notifying busy_asleep) r e) =
    offered dones todo (alert_checking busy_calling) r e
work-Phase ts (offered dones todo alert_asleep r e) = offered dones todo alert_asleep r e
work-Phase ts (taken dones todo b r e) = ran dones todo b r e
work-Phase ts (ran {t = t} dones todo b r e) =
    ended dones todo t (ended_notifying b) (caught t.ending) r e
  where
    caught : (d : TaskEnd) → (elim d [ throws n ↦ some n | _ ↦ none ]) ≡ exception_of d
    caught returns = refl
    caught (throws n) = refl
    caught throws_other = refl
work-Phase ts (ended dones todo t (ended_notifying busy_notifying) x r e) =
    ended dones todo t (ended_resting rest_checking) x r e
work-Phase ts (ended dones todo t (ended_notifying busy_calling) x r e) =
    ended dones todo t (ended_calling rest_checking) x r e
work-Phase ts (ended dones todo t (ended_notifying busy_asleep) x r e) =
    ended dones todo t (ended_calling rest_checking) x r e
work-Phase ts (ended dones todo t (ended_resting rest_checking) x r e) =
    ended dones todo t (ended_resting rest_asleep) x r e
work-Phase ts (ended dones todo t (ended_resting rest_asleep) x r e) =
    ended dones todo t (ended_resting rest_asleep) x r e
work-Phase ts (ended dones todo t (ended_resting rest_notifying) x r e) =
    ended dones todo t (ended_resting rest_checking) x r e
work-Phase ts (ended dones todo t (ended_calling rest_checking) x r e) =
    ended dones todo t (ended_calling rest_asleep) x r e
work-Phase ts (ended dones todo t (ended_calling rest_asleep) x r e) =
    ended dones todo t (ended_calling rest_asleep) x r e
work-Phase ts (ended dones todo t (ended_calling rest_notifying) x r e) =
    ended dones todo t (ended_calling rest_checking) x r e

pub outcomes-append :
    (dones : List Task) (t : Task)
    → outcomes (dones ++ t ∷ []) ≡ outcomes dones ++ completion_of t.ending ∷ []
outcomes-append [] t = refl
outcomes-append (d ∷ ds) t = ap (λ l. completion_of d.ending ∷ l) (outcomes-append ds t)

-- `waitForTaskCompletion` returns the completion state once it is not NOT_DONE.
pub call-wait :
    (e : TaskEnd) (cs : List Call) (s : Executor)
    → call (wait_for_task_completion ∷ cs) (record s { completion = completion_of e }) ≡ record s {
      completion = completion_of e;
      results = s.results ++ completion_of e ∷ [];
      calls = cs;
    }
unfolding call
call-wait returns cs s = refl
call-wait (throws n) cs s = refl
call-wait throws_other cs s = refl

waited-Phase :
    (ts dones todo : List Task) (t : Task) (w : Worker) (x : Option ℕ) (rs : List CompletionState)
    → Rests w
    → rs ≡ outcomes dones
    → dones ++ t ∷ todo ≡ ts
    → Phase ts (
        call (wait_for_task_completion ∷ script todo) (
          at w calling none false
            (completion_of t.ending)
            x
            (wait_for_task_completion ∷ script todo)
            (dones ++ t ∷ [])
            rs))
waited-Phase ts dones todo t w x rs q r e =
    subst (Phase ts)
      (sym (
        call-wait t.ending (script todo) (
          at w calling none false (completion_of t.ending) x
            (wait_for_task_completion ∷ script todo) (dones ++ t ∷ []) rs)))
      (idle (dones ++ t ∷ []) todo q
        (ap (λ l. l ++ completion_of t.ending ∷ []) r ∙ sym (outcomes-append dones t))
        (append_assoc dones (t ∷ []) todo ∙ e))

request-Phase : (ts : List Task) {s : Executor} → Phase ts s → Phase ts (request s.client s)
unfolding request
request-Phase ts (idle dones [] q r e) = unfold call in idle dones [] q r e
request-Phase ts (idle dones (t ∷ todo) rest_checking r e) =
    unfold call in offered dones todo (alert_checking busy_notifying) r e
request-Phase ts (idle dones (t ∷ todo) rest_asleep r e) =
    unfold call in offered dones todo alert_asleep r e
request-Phase ts (idle dones (t ∷ todo) rest_notifying r e) =
    unfold call in offered dones todo (alert_notifying busy_notifying) r e
request-Phase ts (offered dones todo (alert_checking busy_notifying) r e) =
    unfold wake_worker in offered dones todo (alert_checking busy_calling) r e
request-Phase ts (offered dones todo (alert_checking busy_calling) r e) =
    unfold call in offered dones todo (alert_checking busy_asleep) r e
request-Phase ts (offered dones todo (alert_checking busy_asleep) r e) =
    offered dones todo (alert_checking busy_asleep) r e
request-Phase ts (offered dones todo (alert_notifying busy_notifying) r e) =
    unfold wake_worker in offered dones todo (alert_notifying busy_calling) r e
request-Phase ts (offered dones todo (alert_notifying busy_calling) r e) =
    unfold call in offered dones todo (alert_notifying busy_asleep) r e
request-Phase ts (offered dones todo (alert_notifying busy_asleep) r e) =
    offered dones todo (alert_notifying busy_asleep) r e
request-Phase ts (offered dones todo alert_asleep r e) =
    unfold wake_worker in offered dones todo (alert_checking busy_calling) r e
request-Phase ts (taken dones todo busy_notifying r e) =
    unfold wake_worker in taken dones todo busy_calling r e
request-Phase ts (taken dones todo busy_calling r e) =
    unfold call in taken dones todo busy_asleep r e
request-Phase ts (taken dones todo busy_asleep r e) = taken dones todo busy_asleep r e
request-Phase ts (ran dones todo busy_notifying r e) =
    unfold wake_worker in ran dones todo busy_calling r e
request-Phase ts (ran dones todo busy_calling r e) = unfold call in ran dones todo busy_asleep r e
request-Phase ts (ran dones todo busy_asleep r e) = ran dones todo busy_asleep r e
request-Phase ts (ended dones todo t (ended_notifying busy_notifying) x r e) =
    unfold wake_worker in ended dones todo t (ended_notifying busy_calling) x r e
request-Phase ts (ended dones todo t (ended_notifying busy_calling) x r e) =
    waited-Phase ts dones todo t notifying_done _ _ rest_notifying r e
request-Phase ts (ended dones todo t (ended_notifying busy_asleep) x r e) =
    ended dones todo t (ended_notifying busy_asleep) x r e
request-Phase ts (ended dones todo t (ended_resting rest_checking) x r e) =
    unfold wake_worker in ended dones todo t (ended_calling rest_checking) x r e
request-Phase ts (ended dones todo t (ended_resting rest_asleep) x r e) =
    unfold wake_worker in ended dones todo t (ended_calling rest_checking) x r e
request-Phase ts (ended dones todo t (ended_resting rest_notifying) x r e) =
    unfold wake_worker in ended dones todo t (ended_calling rest_notifying) x r e
request-Phase ts (ended dones todo t (ended_calling q) x r e) =
    waited-Phase ts dones todo t _ _ _ q r e

-- Spurious wake-ups
worker_wakes-Phase : (ts : List Task) {s : Executor} → Phase ts s → Phase ts (step worker_wakes s)
unfolding step wake_worker
worker_wakes-Phase ts (idle dones todo rest_checking r e) = idle dones todo rest_checking r e
worker_wakes-Phase ts (idle dones todo rest_asleep r e) = idle dones todo rest_checking r e
worker_wakes-Phase ts (idle dones todo rest_notifying r e) = idle dones todo rest_notifying r e
worker_wakes-Phase ts (offered dones todo (alert_checking b) r e) =
    offered dones todo (alert_checking b) r e
worker_wakes-Phase ts (offered dones todo (alert_notifying b) r e) =
    offered dones todo (alert_notifying b) r e
worker_wakes-Phase ts (offered dones todo alert_asleep r e) =
    offered dones todo (alert_checking busy_notifying) r e
worker_wakes-Phase ts (taken dones todo b r e) = taken dones todo b r e
worker_wakes-Phase ts (ran dones todo b r e) = ran dones todo b r e
worker_wakes-Phase ts (ended dones todo t (ended_notifying b) x r e) =
    ended dones todo t (ended_notifying b) x r e
worker_wakes-Phase ts (ended dones todo t (ended_resting rest_checking) x r e) =
    ended dones todo t (ended_resting rest_checking) x r e
worker_wakes-Phase ts (ended dones todo t (ended_resting rest_asleep) x r e) =
    ended dones todo t (ended_resting rest_checking) x r e
worker_wakes-Phase ts (ended dones todo t (ended_resting rest_notifying) x r e) =
    ended dones todo t (ended_resting rest_notifying) x r e
worker_wakes-Phase ts (ended dones todo t (ended_calling rest_checking) x r e) =
    ended dones todo t (ended_calling rest_checking) x r e
worker_wakes-Phase ts (ended dones todo t (ended_calling rest_asleep) x r e) =
    ended dones todo t (ended_calling rest_checking) x r e
worker_wakes-Phase ts (ended dones todo t (ended_calling rest_notifying) x r e) =
    ended dones todo t (ended_calling rest_notifying) x r e

Busy-rouse_client : {c : Client} → Busy c → Busy (rouse_client c)
unfolding rouse_client
Busy-rouse_client busy_notifying = busy_notifying
Busy-rouse_client busy_calling = busy_calling
Busy-rouse_client busy_asleep = busy_calling

client_wakes-Phase : (ts : List Task) {s : Executor} → Phase ts s → Phase ts (step client_wakes s)
unfolding step rouse_client
client_wakes-Phase ts (idle dones todo q r e) = idle dones todo q r e
client_wakes-Phase ts (offered dones todo (alert_checking b) r e) =
    offered dones todo (alert_checking (Busy-rouse_client b)) r e
client_wakes-Phase ts (offered dones todo (alert_notifying b) r e) =
    offered dones todo (alert_notifying (Busy-rouse_client b)) r e
client_wakes-Phase ts (offered dones todo alert_asleep r e) = offered dones todo alert_asleep r e
client_wakes-Phase ts (taken dones todo b r e) = taken dones todo (Busy-rouse_client b) r e
client_wakes-Phase ts (ran dones todo b r e) = ran dones todo (Busy-rouse_client b) r e
client_wakes-Phase ts (ended dones todo t (ended_notifying b) x r e) =
    ended dones todo t (ended_notifying (Busy-rouse_client b)) x r e
client_wakes-Phase ts (ended dones todo t (ended_resting q) x r e) =
    ended dones todo t (ended_resting q) x r e
client_wakes-Phase ts (ended dones todo t (ended_calling q) x r e) =
    ended dones todo t (ended_calling q) x r e

pub run-Phase :
    (tasks : List Task) (ts : List Turn) {s : Executor} → Phase tasks s → Phase tasks (run ts s)
unfolding run step
run-Phase tasks [] h = h
run-Phase tasks (worker_turn ∷ ts) h = run-Phase tasks ts (work-Phase tasks h)
run-Phase tasks (client_turn ∷ ts) h = run-Phase tasks ts (request-Phase tasks h)
run-Phase tasks (worker_wakes ∷ ts) h = run-Phase tasks ts (worker_wakes-Phase tasks h)
run-Phase tasks (client_wakes ∷ ts) h = run-Phase tasks ts (client_wakes-Phase tasks h)
