-- ===== src/Signals/Ends.antt =====
-- What a call on a signal or a group of headers/concurrency/Signal.h takes, finds and waits for.
use gicame.Prelude.{
  ℕ, zero, suc, ◌+◌, ◌≤◌, ◌<◌, ◌≡◌, ◌≢◌, refl, ◌∙◌, sym, ap, arith, true, false, List, [], ◌∷◌,
  ◌==◌, Bool-cases, inl, inr, ◌⊎◌, if_split,
}
use gicame.Signals.{
  SignalGroup, no_signals, update, scan, try_consume_one, Wake, during, Waited, consumed, expired,
  blocked,
}

-- Exactly the signal `i` goes from 1 to 0.
pub record Takes (g : SignalGroup) (i : ℕ) (g' : SignalGroup) : Type 0 where
  pub was_set : g.events i ≡ true
  pub cleared : g'.events i ≡ false
  pub others : (j : ℕ) → i ≢ j → g'.events j ≡ g.events j
  pub count_kept : g'.count ≡ g.count

-- What a scan from `i` over `n` signals finds.
pub data Scanned (n i : ℕ) (g : SignalGroup) (out : ℕ × SignalGroup) : Type 0 where
  found :
      i ≤ out.0
      → out.0 < i + n
      → Takes g out.0 out.1
      → ((j : ℕ) → i ≤ j → j < out.0 → g.events j ≡ false)
      → Scanned n i g out
  nothing :
      out ≡ (no_signals, g) → ((j : ℕ) → i ≤ j → j < i + n → g.events j ≡ false) → Scanned n i g out

pub clear-Takes :
    (g : SignalGroup) (i : ℕ)
    → g.events i ≡ true
    → Takes g i (record g { events = update g.events i false })
clear-Takes g i e = record {
  was_set = e;
  cleared = ground arith;
  others = λ j ne. ground arith;
  count_kept = refl;
}

pub scan-Scanned : (n i : ℕ) (g : SignalGroup) → Scanned n i g (scan n i g)
unfolding scan
scan-Scanned zero i g = nothing refl (λ j lo hi. absurd (omega arith))
scan-Scanned (suc n) i g =
    if_split (Scanned (suc n) i g) (g.events i) _ (scan n (i + 1) g)
      (λ e. found (omega arith) (omega arith) (clear-Takes g i e) (λ j lo hi. absurd (omega arith)))
      (λ e. shift e (scan-Scanned n (i + 1) g))
  where
    below :
        g.events i ≡ false
        → (m : ℕ) → ((j : ℕ) → i + 1 ≤ j → j < m → g.events j ≡ false)
        → (j : ℕ) → i ≤ j
        → j < m
        → g.events j ≡ false
    below e m h j lo hi = elim (Bool-cases (i == j)) [
      | inl q ↦ let p : i ≡ j = ground arith in ap g.events (sym p) ∙ e
      | inr q ↦ h j (ground arith) hi
    ]

    shift :
        g.events i ≡ false
        → {out : ℕ × SignalGroup} → Scanned n (i + 1) g out
        → Scanned (suc n) i g out
    shift e {out} (found lo hi t h) = found (omega arith) (omega arith) t (below e out.0 h)
    shift e (nothing q h) = nothing q (below e (i + suc n) (λ j lo hi. h j lo (omega arith)))

-- `tryConsumeOne` takes the lowest signal that is set and no other; if none is set, it changes
-- nothing and returns NO_SIGNALS.
pub try_consume_one-Scanned : (g : SignalGroup) → Scanned g.count 0 g (try_consume_one g)
unfolding try_consume_one
try_consume_one-Scanned g = scan-Scanned g.count 0 g

-- The levels that a wait which starts at the first group finds at some look: those of that group with what
-- is stored up to then.
pub data Seen : List Wake → SignalGroup → SignalGroup → Type 0 where
  at_first : {ws : List Wake} {g : SignalGroup} → Seen ws g g
  after :
      {ws : List Wake} {g h : SignalGroup} (w : Wake) → Seen ws (during w g) h → Seen (w ∷ ws) g h

-- The deadline passes at one of the wakes, and the last group is what it leaves.
pub data TimedOut : List Wake → SignalGroup → SignalGroup → Type 0 where
  due :
      {ws : List Wake} {g : SignalGroup} (w : Wake)
      → w.timed_out ≡ true
      → TimedOut (w ∷ ws) g (during w g)
  passed :
      {ws : List Wake} {g h : SignalGroup} (w : Wake)
      → w.timed_out ≡ false
      → TimedOut ws (during w g) h
      → TimedOut (w ∷ ws) g h

-- The deadline passes at none of them.
pub data StillWaits : List Wake → SignalGroup → SignalGroup → Type 0 where
  at_end : {g : SignalGroup} → StillWaits [] g g
  woken :
      {ws : List Wake} {g h : SignalGroup} (w : Wake)
      → w.timed_out ≡ false
      → StillWaits ws (during w g) h
      → StillWaits (w ∷ ws) g h

-- Why a wait with a timeout may give up.
abbrev pub Expires : ℕ → List Wake → SignalGroup → SignalGroup → Type 0
Expires timeout ws g g' = ((timeout ≡ 0) × (g' ≡ g)) ⊎ TimedOut ws g g'

-- How a wait ends, by what it takes (`T`), what it has not found (`N`) and when it gives up (`R`).
abbrev pub Ends :
    (SignalGroup → ℕ → SignalGroup → Type 0)
    → (SignalGroup → Type 0)
    → (SignalGroup → Type 0)
    → List Wake
    → SignalGroup
    → Waited
    → Type 0
Ends T N R ws g (consumed k g') = (h : SignalGroup) × Seen ws g h × T h k g'
Ends T N R ws g (expired g') = R g' × N g'
Ends T N R ws g (blocked g') = StillWaits ws g g' × N g'

-- Its own signal was set, and only that one is set back to 0.
abbrev pub OwnTaken : ℕ → SignalGroup → ℕ → SignalGroup → Type 0
OwnTaken i h k g' = (k ≡ i) × Takes h i g'

abbrev pub OwnClear : ℕ → SignalGroup → Type 0
OwnClear i g = g.events i ≡ false

-- The lowest signal that was set, and only that one, is set back to 0.
abbrev pub LowestTaken : SignalGroup → ℕ → SignalGroup → Type 0
LowestTaken h k g' = (k < h.count) × Takes h k g' × ((j : ℕ) → j < k → h.events j ≡ false)

abbrev pub AllClear : SignalGroup → Type 0
AllClear g = (j : ℕ) → j < g.count → g.events j ≡ false

abbrev pub Settles : ℕ → ℕ → List Wake → SignalGroup → Waited → Type 0
Settles i timeout ws g = Ends (OwnTaken i) (OwnClear i) (Expires timeout ws g) ws g

abbrev pub SettlesOne : ℕ → List Wake → SignalGroup → Waited → Type 0
SettlesOne timeout ws g = Ends LowestTaken AllClear (Expires timeout ws g) ws g

-- The loops give up only at a wake.
abbrev pub LoopEnds :
    (SignalGroup → ℕ → SignalGroup → Type 0)
    → (SignalGroup → Type 0)
    → List Wake
    → SignalGroup
    → Waited
    → Type 0
LoopEnds T N ws g = Ends T N (TimedOut ws g) ws g

module _ (T : SignalGroup → ℕ → SignalGroup → Type 0) (N : SignalGroup → Type 0) where
  pub after-Ends :
      (w : Wake) (ws : List Wake) (g : SignalGroup) (x : Waited)
      → w.timed_out ≡ false
      → LoopEnds T N ws (during w g) x
      → LoopEnds T N (w ∷ ws) g x
  after-Ends w ws g (consumed k g') e (h, seen, t) = (h, after w seen, t)
  after-Ends w ws g (expired g') e (late, n) = (passed w e late, n)
  after-Ends w ws g (blocked g') e (waits, n) = (woken w e waits, n)

  pub LoopEnds-Ends :
      (timeout : ℕ) (ws : List Wake) (g : SignalGroup) (x : Waited)
      → LoopEnds T N ws g x
      → Ends T N (Expires timeout ws g) ws g x
  LoopEnds-Ends timeout ws g (consumed k g') h = h
  LoopEnds-Ends timeout ws g (expired g') (late, n) = (inr late, n)
  LoopEnds-Ends timeout ws g (blocked g') h = h
