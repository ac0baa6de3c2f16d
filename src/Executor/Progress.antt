-- ===== src/Executor/Progress.antt =====
-- A client that waits for each task is never stuck: wherever the two threads stand, they can go on to
-- the end of its calls.
use gicame.Prelude.{◌≡◌, refl, sym, subst, List, [], ◌∷◌, Option, none, some, true, false, ℕ}
use gicame.Executor.{
  CompletionState, not_done, completion_of, Task, wait_for_task_completion, Worker, running,
  recording, Client, calling, Executor, Turn, worker_turn, client_turn, rouses, step, run, start,
  work, request, call, take_task, wake_client, wake_worker,
}
use gicame.Executor.Stages.{
  script, outcomes, Rests, rest_checking, rest_asleep, rest_notifying, Busy, busy_notifying,
  busy_calling, busy_asleep, Alert, alert_checking, alert_notifying, alert_asleep, Ended,
  ended_notifying, ended_resting, ended_calling, at, Phase, idle, offered, taken, ran, ended,
}
use gicame.Executor.Steps.{call-wait, run-Phase}
use gicame.Executor.Phases.{Serves, waited_tasks-Serves, start-Phase, Phase-complete}

-- Some turns, without a spurious wake-up, lead to the end of the calls.
abbrev Finishes : Executor → Type 0
Finishes s = (more : List Turn) × (rouses more ≡ false) × ((run more s).calls ≡ [])

by_worker : (s : Executor) → Finishes (work s.worker s) → Finishes s
unfolding run step
by_worker s (more, n, e) = (worker_turn ∷ more, n, e)

by_client : (s : Executor) → Finishes (request s.client s) → Finishes s
unfolding run step
by_client s (more, n, e) = (client_turn ∷ more, n, e)

-- The client finishes the calls for `todo` from wherever it starts them.
IdleFinishes : List Task → Type 0
IdleFinishes todo =
    (w : Worker) (k : CompletionState) (x : Option ℕ) (dones : List Task)
    (rs : List CompletionState)
    → Rests w
    → Finishes (at w calling none false k x (script todo) dones rs)

module _ (todo : List Task) (then_idle : IdleFinishes todo) where
  ended_calling-Finishes :
      {w : Worker} (t : Task) (x : Option ℕ) (log : List Task) (rs : List CompletionState)
      → Rests w
      → Finishes (
          at w calling none false
            (completion_of t.ending)
            x
            (wait_for_task_completion ∷ script todo)
            log
            rs)
  unfolding request IdleFinishes
  ended_calling-Finishes {w} t x log rs q = by_client _ (
      subst Finishes
        (sym (
          call-wait t.ending (script todo) (
            at w calling none false (completion_of t.ending) x
              (wait_for_task_completion ∷ script todo) log rs)))
        (then_idle w (completion_of t.ending) x log _ q))

  Ended-Finishes :
      {w : Worker} {c : Client} (t : Task) (x : Option ℕ) (log : List Task)
      (rs : List CompletionState)
      → Ended w c
      → Finishes (
          at w c none false
            (completion_of t.ending)
            x
            (wait_for_task_completion ∷ script todo)
            log
            rs)
  unfolding request work wake_client wake_worker
  Ended-Finishes t x log rs (ended_calling q) = ended_calling-Finishes t x log rs q
  Ended-Finishes t x log rs (ended_resting rest_checking) =
      by_client _ (ended_calling-Finishes t x log rs rest_checking)
  Ended-Finishes t x log rs (ended_resting rest_asleep) =
      by_client _ (ended_calling-Finishes t x log rs rest_checking)
  Ended-Finishes t x log rs (ended_resting rest_notifying) =
      by_client _ (ended_calling-Finishes t x log rs rest_notifying)
  Ended-Finishes t x log rs (ended_notifying busy_notifying) =
      by_worker _ (by_client _ (ended_calling-Finishes t x log rs rest_checking))
  Ended-Finishes t x log rs (ended_notifying busy_calling) =
      by_worker _ (ended_calling-Finishes t x log rs rest_checking)
  Ended-Finishes t x log rs (ended_notifying busy_asleep) =
      by_worker _ (ended_calling-Finishes t x log rs rest_checking)

  ran-Finishes :
      {c : Client} (t : Task) (x : Option ℕ) (log : List Task) (rs : List CompletionState)
      → Busy c
      → Finishes
          (at (recording t) c none false not_done x (wait_for_task_completion ∷ script todo) log rs)
  unfolding work
  ran-Finishes t x log rs b = by_worker _ (Ended-Finishes t _ log rs (ended_notifying b))

  taken-Finishes :
      {c : Client} (t : Task) (x : Option ℕ) (log : List Task) (rs : List CompletionState)
      → Busy c
      → Finishes (
          at
            (running (some t))
            c
            none
            false
            not_done
            x
            (wait_for_task_completion ∷ script todo)
            log
            rs)
  unfolding work
  taken-Finishes t x log rs b = by_worker _ (ran-Finishes t x _ rs b)

  offered-Finishes :
      {w : Worker} {c : Client} (t : Task) (x : Option ℕ) (log : List Task)
      (rs : List CompletionState)
      → Alert w c
      → Finishes (at w c (some t) true not_done x (wait_for_task_completion ∷ script todo) log rs)
  unfolding work request take_task wake_client wake_worker
  offered-Finishes t x log rs (alert_checking b) = by_worker _ (taken-Finishes t none log rs b)
  offered-Finishes t x log rs (alert_notifying busy_notifying) =
      by_worker _ (by_worker _ (taken-Finishes t none log rs busy_notifying))
  offered-Finishes t x log rs (alert_notifying busy_calling) =
      by_worker _ (by_worker _ (taken-Finishes t none log rs busy_calling))
  offered-Finishes t x log rs (alert_notifying busy_asleep) =
      by_worker _ (by_worker _ (taken-Finishes t none log rs busy_calling))
  offered-Finishes t x log rs alert_asleep =
      by_client _ (by_worker _ (taken-Finishes t none log rs busy_calling))

idle-Finishes : (todo : List Task) → IdleFinishes todo
unfolding IdleFinishes request call run
idle-Finishes [] w k x dones rs q = ([], refl, refl)
idle-Finishes (t ∷ todo) w k x dones rs rest_checking =
    by_client _
      (offered-Finishes todo (idle-Finishes todo) t x dones rs (alert_checking busy_notifying))
idle-Finishes (t ∷ todo) w k x dones rs rest_asleep =
    by_client _ (offered-Finishes todo (idle-Finishes todo) t x dones rs alert_asleep)
idle-Finishes (t ∷ todo) w k x dones rs rest_notifying =
    by_client _
      (offered-Finishes todo (idle-Finishes todo) t x dones rs (alert_notifying busy_notifying))

Phase-Finishes : {tasks : List Task} {s : Executor} → Phase tasks s → Finishes s
unfolding IdleFinishes
Phase-Finishes (idle dones todo q r e) = idle-Finishes todo _ _ _ dones _ q
Phase-Finishes (offered {t = t} dones todo q r e) =
    offered-Finishes todo (idle-Finishes todo) t _ dones _ q
Phase-Finishes (taken {t = t} dones todo q r e) =
    taken-Finishes todo (idle-Finishes todo) t _ dones _ q
Phase-Finishes (ran {t = t} dones todo q r e) = ran-Finishes todo (idle-Finishes todo) t _ _ _ q
Phase-Finishes (ended dones todo t q x r e) = Ended-Finishes todo (idle-Finishes todo) t _ _ _ q

-- A client that waits for each task before it submits the next one is served in order under every
-- schedule, with spurious wake-ups of either thread at any point: the tasks run so far are the first
-- ones of its list, the calls of `waitForTaskCompletion` have returned the outcomes of the first `n` of
-- them, each task's own, and at most one more has run. No schedule brings it to a dead end: whatever
-- turns the two threads have had, further turns exist, none of them a spurious wake-up, after which
-- each task has run exactly once, in order, and each wait has returned the outcome of its own task.
pub waited_tasks_are_served :
    (tasks : List Task) (ts : List Turn)
    → Serves tasks (run ts (start (script tasks)))
      × ((more : List Turn) × (rouses more ≡ false)
          × ((run more (run ts (start (script tasks)))).log ≡ tasks)
          × ((run more (run ts (start (script tasks)))).results ≡ outcomes tasks))
waited_tasks_are_served tasks ts =
    let reached : Phase tasks (run ts (start (script tasks))) =
      run-Phase tasks ts (start-Phase tasks) in
    let (more, notified, all_called) = Phase-Finishes reached in
    let (l, r) = Phase-complete tasks (run-Phase tasks more reached) all_called in
    (waited_tasks-Serves tasks ts, (more, notified, l, r))
