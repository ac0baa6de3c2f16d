-- ===== src/Executor/Lost.antt =====
-- A `submitVoidTask` that has to wait is never woken: `workerThreadBody` empties the slot without a
-- notification of `cvTaskAvailable`.
use gicame.Prelude.{◌≡◌, refl, sym, subst, arith, false, List, [], ◌∷◌}
use gicame.Executor.{
  Task, Call, submit_void_task, Worker, checking, asleep_submit, Executor, Turn, worker_turn,
  client_turn, worker_wakes, client_wakes, client_rouses, step, run, start, work, take_task,
  wake_client, request,
}

abbrev Waits : List Call → Executor → Type 0
Waits cs s = (s.client ≡ asleep_submit) × (s.calls ≡ cs)

work-Waits : (cs : List Call) (w : Worker) (s : Executor) → Waits cs s → Waits cs (work w s)
unfolding work take_task wake_client
work-Waits cs checking s h = ground arith
work-Waits cs w s h = ground arith

run-Waits :
    (cs : List Call) (ts : List Turn) (s : Executor)
    → client_rouses ts ≡ false
    → Waits cs s
    → Waits cs (run ts s)
unfolding run step
run-Waits cs [] s n h = h
run-Waits cs (worker_turn ∷ ts) s n h =
    run-Waits cs ts (work s.worker s) n (work-Waits cs s.worker s h)
run-Waits cs (client_turn ∷ ts) s n h =
    run-Waits cs ts (request s.client s) n (subst (λ c. Waits cs (request c s)) (sym h.0) h)
run-Waits cs (worker_wakes ∷ ts) s n h = run-Waits cs ts _ n h
run-Waits cs (client_wakes ∷ ts) s n h = cc

-- A client that submits two tasks in its first three turns, before the worker has a turn, waits for the
-- slot to be free and is never notified: unless its wait ends by a spurious wake-up, it sleeps for ever, whatever the two tasks are and however
-- the threads are scheduled from then on, spurious wake-ups of the worker included. The call does
-- not return, and the calls after it are never made.
pub second_submit_sleeps :
    (a b : Task) (cs : List Call) (ts : List Turn)
    → client_rouses ts ≡ false
    → let s =
        run
          (client_turn ∷ client_turn ∷ client_turn ∷ ts)
          (start (submit_void_task a ∷ submit_void_task b ∷ cs)) in
      (s.client ≡ asleep_submit) × (s.calls ≡ submit_void_task b ∷ cs)
unfolding run step start
second_submit_sleeps a b cs ts n = run-Waits (submit_void_task b ∷ cs) ts _ n (refl, refl)
