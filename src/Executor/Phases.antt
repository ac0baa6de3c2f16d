-- ===== src/Executor/Phases.antt =====
-- What a client of src/concurrency/TaskExecutor.cpp that waits for each task gets.
use gicame.Prelude.{
  ◌≡◌, refl, ◌∙◌, sym, ap, List, [], ◌∷◌, ◌++◌, length, take, length-append, take-append,
  append_assoc, append-nil, ℕ, ◌+◌, ◌⊎◌, inl, inr,
}
use gicame.Executor.{Task, Executor, Turn, run, start}
use gicame.Executor.Stages.{
  script, outcomes, rest_checking, Phase, idle, offered, taken, ran, ended,
}
use gicame.Executor.Steps.{run-Phase}

front : (xs ys ts : List Task) → xs ++ ys ≡ ts → xs ≡ take (length xs) ts
front xs ys ts e = sym (ap (take (length xs)) (sym e) ∙ take-append xs ys)

front_next :
    (xs ys ts : List Task) (t : Task) → xs ++ t ∷ ys ≡ ts → xs ++ t ∷ [] ≡ take (length xs + 1) ts
front_next xs ys ts t e =
    front (xs ++ t ∷ []) ys ts (append_assoc xs (t ∷ []) ys ∙ e)
    ∙ ap (λ n. take n ts) (length-append xs (t ∷ []))

-- What the client can have seen.
abbrev pub Serves : List Task → Executor → Type 0
Serves tasks s =
    (n : ℕ) × (s.results ≡ outcomes (take n tasks))
    × ((s.log ≡ take n tasks) ⊎ (s.log ≡ take (n + 1) tasks))

Phase-Serves : (tasks : List Task) {s : Executor} → Phase tasks s → Serves tasks s
Phase-Serves tasks (idle dones todo q r e) =
    let p = front dones todo tasks e in (length dones, r ∙ ap outcomes p, inl p)
Phase-Serves tasks (offered {t = t} dones todo q r e) =
    let p = front dones (t ∷ todo) tasks e in (length dones, r ∙ ap outcomes p, inl p)
Phase-Serves tasks (taken {t = t} dones todo q r e) =
    let p = front dones (t ∷ todo) tasks e in (length dones, r ∙ ap outcomes p, inl p)
Phase-Serves tasks (ran {t = t} dones todo q r e) =
    let p = front dones (t ∷ todo) tasks e in
    (length dones, r ∙ ap outcomes p, inr (front_next dones todo tasks t e))
Phase-Serves tasks (ended dones todo t q x r e) =
    let p = front dones (t ∷ todo) tasks e in
    (length dones, r ∙ ap outcomes p, inr (front_next dones todo tasks t e))

pub start-Phase : (tasks : List Task) → Phase tasks (start (script tasks))
unfolding start
start-Phase tasks = idle [] tasks rest_checking refl refl

-- A client that waits for each task before it submits the next one is served in order under every
-- schedule: the tasks run so far are the first ones of its list, the calls of
-- `waitForTaskCompletion` have returned the outcomes of the first `n` of them, each task's own, and
-- at most one more has run.
pub waited_tasks-Serves :
    (tasks : List Task) (ts : List Turn) → Serves tasks (run ts (start (script tasks)))
waited_tasks-Serves tasks ts = Phase-Serves tasks (run-Phase tasks ts (start-Phase tasks))

pub Phase-complete :
    (tasks : List Task) {s : Executor}
    → Phase tasks s
    → s.calls ≡ []
    → (s.log ≡ tasks) × (s.results ≡ outcomes tasks)
Phase-complete tasks (idle dones [] q r e) h =
    let p : dones ≡ tasks = sym (append-nil dones) ∙ e in (p, r ∙ ap outcomes p)
Phase-complete tasks (idle dones (t ∷ todo) q r e) h = cc
Phase-complete tasks (offered dones todo q r e) h = cc
Phase-complete tasks (taken dones todo q r e) h = cc
Phase-complete tasks (ran dones todo q r e) h = cc
Phase-complete tasks (ended dones todo t q x r e) h = cc

-- Under every schedule after which a client that waits for each task has made all its calls, each
-- task has run exactly once, in order, and each wait has returned the outcome of its own task.
pub waited_tasks_complete :
    (tasks : List Task) (ts : List Turn)
    → let s = run ts (start (script tasks)) in
      s.calls ≡ [] → (s.log ≡ tasks) × (s.results ≡ outcomes tasks)
waited_tasks_complete tasks ts h = Phase-complete tasks (run-Phase tasks ts (start-Phase tasks)) h
