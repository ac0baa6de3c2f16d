-- ===== src/Signals/Laws.antt =====
-- What one call on a signal or a group does, against the levels before and after it.
use gicame.Prelude.{
  ℕ, ◌≤◌, ◌<◌, ◌≡◌, ◌≢◌, refl, ap, arith, true, false, List, [], ◌∷◌, ◌==◌, leb, done, threw,
  Bool-cases, inl, inr, ◌⊎◌, if_split, fun_ext,
}
use gicame.Signals.{
  SignalGroup, no_signals, update, try_consume, try_consume_one, Wake, during, Waited, consumed,
  expired, blocked, consumed_or, wait_loop, wait, timed_wait, picked_or, wait_one_loop,
  timed_wait_one, signal,
}
use gicame.Signals.Ends.{
  Takes, Scanned, found, nothing, clear-Takes, try_consume_one-Scanned, Seen, at_first, after, due,
  at_end, Ends, OwnTaken, OwnClear, LowestTaken, AllClear, Settles, SettlesOne, LoopEnds,
  after-Ends, LoopEnds-Ends,
}

-- A look for the signal `i` at the levels `h`.
consumed_or-Ends :
    (R : SignalGroup → Type 0) (ws : List Wake) (g h : SignalGroup) (i : ℕ) (x : Waited)
    → Seen ws g h
    → (h.events i ≡ false → Ends (OwnTaken i) (OwnClear i) R ws g x)
    → Ends (OwnTaken i) (OwnClear i) R ws g (consumed_or x (try_consume h i) i)
unfolding try_consume
consumed_or-Ends R ws g h i x seen none_set = elim (Bool-cases (h.events i)) [
  | inl e ↦ rw e (h, seen, (refl, clear-Takes h i e))
  | inr e ↦ rw e (none_set e)
]

wait_loop-Ends :
    (ws : List Wake) (g : SignalGroup) (i : ℕ)
    → LoopEnds (OwnTaken i) (OwnClear i) ws g (wait_loop ws g i)
unfolding wait_loop
wait_loop-Ends [] g i = consumed_or-Ends _ [] g g i (blocked g) at_first (λ e. (at_end, e))
wait_loop-Ends (w ∷ ws) g i = consumed_or-Ends _ (w ∷ ws) g g i _ at_first (λ _.
    if_split (LoopEnds (OwnTaken i) (OwnClear i) (w ∷ ws) g) w.timed_out _
      (wait_loop ws (during w g) i)
      (λ t.
        consumed_or-Ends _ (w ∷ ws) g (during w g) i (expired (during w g)) (after w at_first)
          (λ e. (due w t, e)))
      (λ t. after-Ends (OwnTaken i) (OwnClear i) w ws g _ t (wait_loop-Ends ws (during w g) i)))

-- Whatever is signaled while it waits, `wait` with a timeout throws exactly on an index out of range;
-- else it settles.
pub timed_wait-Settles :
    (g : SignalGroup) (i timeout : ℕ) (ws : List Wake)
    → ((g.count ≤ i) × (timed_wait g i timeout ws ≡ threw))
      ⊎ ((i < g.count)
          × ((w : Waited) × (timed_wait g i timeout ws ≡ done w) × Settles i timeout ws g w))
unfolding timed_wait
timed_wait-Settles g i timeout ws = elim (Bool-cases (leb g.count i)) [
  | inl e ↦ inl (ground arith, rw e)
  | inr e ↦ inr (
    ground arith,
    (
      _,
      rw e refl,
      consumed_or-Ends _ ws g g i _ at_first (λ z.
          if_split (Settles i timeout ws g) (timeout == 0) (expired g) (wait_loop ws g i)
            (λ t. (inl (ground arith, refl), z))
            (λ _. LoopEnds-Ends (OwnTaken i) (OwnClear i) timeout ws g _ (wait_loop-Ends ws g i))),
    ),
  )
]

-- Signaling is sticky and does not count: however often a signal is set before the wait, the wait
-- returns at once, and takes the signal and leaves every other one as it was.
pub wait-signal :
    (g : SignalGroup) (i : ℕ) (ws : List Wake)
    → i < g.count
    → (g' : SignalGroup) × (signal g i ≡ done g')
      × (signal g' i ≡ done g')
      × ((g'' : SignalGroup) × (wait g' i ws ≡ done (consumed i g''))
          × Takes g' i g''
          × ((j : ℕ) → i ≢ j → g''.events j ≡ g.events j))
unfolding signal wait try_consume
wait-signal g i ws h =
    let out : leb g.count i ≡ false = ground arith in
    let same : (i == i) ≡ true = ground arith in
    let g' : SignalGroup = record g { events = update g.events i true } in
    (
      g',
      rw out,
      rw out (ap done (ap (λ f. record g { events = f }) (fun_ext λ j. ground arith))),
      (
        record g' { events = update g'.events i false },
        rw (out, same),
        clear-Takes g' i (rw same),
        λ j ne. ground arith,
      ),
    )

-- A look for any signal at the levels `h`.
picked_or-Ends :
    (R : SignalGroup → Type 0) (ws : List Wake) (g h : SignalGroup) (x : Waited)
    → h.count ≤ no_signals
    → Seen ws g h
    → (AllClear h → Ends LowestTaken AllClear R ws g x)
    → Ends LowestTaken AllClear R ws g (picked_or x (try_consume_one h))
picked_or-Ends R ws g h x fits seen none_set = pick (try_consume_one-Scanned h)
  where
    pick :
        {out : ℕ × SignalGroup}
        → Scanned h.count 0 h out
        → Ends LowestTaken AllClear R ws g (picked_or x out)
    pick {out} (found lo hi t lower) =
        let ne : (out.0 == no_signals) ≡ false = ground arith in
        rw ne (h, seen, (omega arith, t, λ j lt. lower j (omega arith) lt))
    pick (nothing q clear) = rw q (none_set (λ j lt. clear j (omega arith) (omega arith)))

wait_one_loop-Ends :
    (ws : List Wake) (g : SignalGroup)
    → g.count ≤ no_signals
    → LoopEnds LowestTaken AllClear ws g (wait_one_loop ws g)
unfolding wait_one_loop
wait_one_loop-Ends [] g fits = picked_or-Ends _ [] g g (blocked g) fits at_first (λ z. (at_end, z))
wait_one_loop-Ends (w ∷ ws) g fits = picked_or-Ends _ (w ∷ ws) g g _ fits at_first (λ _.
    if_split (LoopEnds LowestTaken AllClear (w ∷ ws) g) w.timed_out _
      (wait_one_loop ws (during w g))
      (λ t.
        picked_or-Ends _ (w ∷ ws) g (during w g) (expired (during w g)) fits (after w at_first)
          (λ z. (due w t, z)))
      (λ t. after-Ends LowestTaken AllClear w ws g _ t (wait_one_loop-Ends ws (during w g) fits)))

-- `waitOne` with a timeout settles.
pub timed_wait_one-SettlesOne :
    (g : SignalGroup) (timeout : ℕ) (ws : List Wake)
    → g.count ≤ no_signals
    → SettlesOne timeout ws g (timed_wait_one g timeout ws)
unfolding timed_wait_one
timed_wait_one-SettlesOne g timeout ws fits = picked_or-Ends _ ws g g _ fits at_first (λ z.
    if_split (SettlesOne timeout ws g) (timeout == 0) (expired g) (wait_one_loop ws g)
      (λ t. (inl (ground arith, refl), z))
      (λ _. LoopEnds-Ends LowestTaken AllClear timeout ws g _ (wait_one_loop-Ends ws g fits)))
