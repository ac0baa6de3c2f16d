-- ===== src/MultiLock.antt =====
-- headers/concurrency/MultiLock.h: a counter that makes any lock reentrant for its owner.
use gicame.Prelude.{
  ℕ, ◌+◌, ◌-◌, ◌<◌, ◌≡◌, ◌≢◌, refl, arith, Bool, true, false, ◌==◌, ltb, if◌then◌else◌, Outcome,
  done, threw, fault, ◌>>=◌, Bool-cases, inl, inr, ◌⊎◌, ◌∙◌,
}
use gicame.Memory.{size_mod}

-- The lock that is wrapped: its operations and what they promise about being held.
pub record Lockable : Type 1 where
  pub Lock : Type 0
  pub is_held : Lock → Bool
  pub acquire : Lock → Outcome Lock
  pub release : Lock → Outcome Lock
  pub try_acquire : Lock → Outcome (Bool × Lock)
  pub acquire_holds : (l : Lock) {l' : Lock} → acquire l ≡ done l' → is_held l' ≡ true
  pub release_frees : (l : Lock) {l' : Lock} → release l ≡ done l' → is_held l' ≡ false
  pub try_acquire_holds :
      (l : Lock) {b : Bool} {l' : Lock}
      → is_held l ≡ false
      → try_acquire l ≡ done (b, l')
      → is_held l' ≡ b

module _ (a : Lockable) where
  open a use {Lock, is_held, acquire, release, try_acquire}

  pub record MultiLock : Type 0 where
    pub counter : ℕ
    pub the_lock : Lock

  abbrev pub max_counter : ℕ
  max_counter = size_mod - 1

  unfoldable pub lock : MultiLock → Outcome MultiLock
  lock m =
      if m.counter == max_counter
      then threw
      else ((if m.counter == 0 then acquire m.the_lock else done m.the_lock) >>= λ l.
          done (record { counter = m.counter + 1; the_lock = l }))

  unfoldable pub unlock : MultiLock → Outcome MultiLock
  unlock m =
      if m.counter == 0
      then threw
      else ((if m.counter == 1 then release m.the_lock else done m.the_lock) >>= λ l.
          done (record { counter = m.counter - 1; the_lock = l }))

  unfoldable pub try_lock : MultiLock → Outcome (Bool × MultiLock)
  try_lock m =
      if m.counter == max_counter
      then threw
      else if m.counter == 0
      then (try_acquire m.the_lock >>= λ bl.
          done (bl.0, record { counter = if bl.0 then 1 else m.counter; the_lock = bl.1 }))
      else done (true, record m { counter = m.counter + 1 })

  -- The wrapped lock is held exactly while the counter is positive, and the counter fits.
  pub record IsValid (m : MultiLock) : Type 0 where
    pub held : is_held m.the_lock ≡ ltb 0 m.counter
    pub fits : m.counter < size_mod

  -- What `lock` may end in.
  abbrev pub Locked : MultiLock → Outcome MultiLock → Type 0
  Locked m threw = (m.counter ≡ max_counter) ⊎ ((m.counter ≡ 0) × (acquire m.the_lock ≡ threw))
  Locked m fault = (m.counter ≡ 0) × (acquire m.the_lock ≡ fault)
  Locked m (done m') =
      IsValid m'
      × (m.counter ≢ max_counter)
      × (m'.counter ≡ m.counter + 1)
      × (m.counter ≢ 0 → m'.the_lock ≡ m.the_lock)

  -- `lock` throws at the maximum and where the first one's `lock` of the wrapped lock does; else it
  -- returns with the invariant, has counted one more, and has left the wrapped lock alone if nested.
  pub lock-Locked : (m : MultiLock) → IsValid m → Locked m (lock m)
  unfolding lock
  lock-Locked m v = elim (Bool-cases (m.counter == max_counter)) [
    | inl top ↦ rw top (inl (ground arith))
    | inr low ↦ rw low (elim (Bool-cases (m.counter == 0)) [
      | inl z ↦ rw z (taken (acquire m.the_lock) (ground arith) refl)
      | inr nz ↦ rw nz (
        record { held = v.held ∙ ground arith; fits = ground (arith, v.fits) },
        ground arith,
        refl,
        λ _. refl,
      )
    ])
  ]
    where
      taken :
          (o : Outcome Lock)
          → m.counter ≡ 0
          → acquire m.the_lock ≡ o
          → Locked m (o >>= λ l. done (record { counter = m.counter + 1; the_lock = l }))
      taken threw z e = inr (z, e)
      taken fault z e = (z, e)
      taken (done l) z e = (
        record { held = a.acquire_holds m.the_lock e ∙ ground arith; fits = omega arith },
        omega arith,
        refl,
        λ ne. absurd (ne z),
      )

  -- What `unlock` may end in.
  abbrev pub Unlocked : MultiLock → Outcome MultiLock → Type 0
  Unlocked m threw = (m.counter ≡ 0) ⊎ ((m.counter ≡ 1) × (release m.the_lock ≡ threw))
  Unlocked m fault = (m.counter ≡ 1) × (release m.the_lock ≡ fault)
  Unlocked m (done m') =
      IsValid m' × (m'.counter + 1 ≡ m.counter) × (m.counter ≢ 1 → m'.the_lock ≡ m.the_lock)

  -- `unlock` throws where nothing is counted and where the last one's `unlock` of the wrapped lock
  -- does; else it returns with the invariant, has counted one less, and has left the wrapped lock
  -- alone unless it is the last one.
  pub unlock-Unlocked : (m : MultiLock) → IsValid m → Unlocked m (unlock m)
  unfolding unlock
  unlock-Unlocked m v = elim (Bool-cases (m.counter == 0)) [
    | inl z ↦ rw z (inl (ground arith))
    | inr nz ↦ rw nz (elim (Bool-cases (m.counter == 1)) [
      | inl one ↦ rw one (freed (release m.the_lock) (ground arith) refl)
      | inr more ↦ rw more (
        record { held = v.held ∙ ground arith; fits = ground (arith, v.fits) },
        ground arith,
        λ _. refl,
      )
    ])
  ]
    where
      freed :
          (o : Outcome Lock)
          → m.counter ≡ 1
          → release m.the_lock ≡ o
          → Unlocked m (o >>= λ l. done (record { counter = m.counter - 1; the_lock = l }))
      freed threw one e = inr (one, e)
      freed fault one e = (one, e)
      freed (done l) one e = (
        record { held = a.release_frees m.the_lock e ∙ ground arith; fits = omega arith },
        omega arith,
        λ ne. absurd (ne one),
      )

  -- What `try_lock` may end in.
  abbrev pub Tried : MultiLock → Outcome (Bool × MultiLock) → Type 0
  Tried m threw = (m.counter ≡ max_counter) ⊎ ((m.counter ≡ 0) × (try_acquire m.the_lock ≡ threw))
  Tried m fault = (m.counter ≡ 0) × (try_acquire m.the_lock ≡ fault)
  Tried m (done (b, m')) =
      IsValid m' × (m'.counter ≡ (if b then m.counter + 1 else 0)) × (m.counter ≢ 0 → b ≡ true)

  -- `try_lock` throws at the maximum and where the wrapped lock's `try_lock` does; else it keeps the
  -- invariant, and returns true having counted one more, which it always does on a lock that is
  -- counted already, or false with nothing counted.
  pub try_lock-Tried : (m : MultiLock) → IsValid m → Tried m (try_lock m)
  unfolding try_lock
  try_lock-Tried m v = elim (Bool-cases (m.counter == max_counter)) [
    | inl top ↦ rw top (inl (ground arith))
    | inr low ↦ rw low (elim (Bool-cases (m.counter == 0)) [
      | inl z ↦ rw z (tried (try_acquire m.the_lock) (ground arith) refl)
      | inr nz ↦
          rw nz (
            record { held = v.held ∙ ground arith; fits = ground (arith, v.fits) },
            refl,
            λ _. refl,
          )
    ])
  ]
    where
      tried :
          (o : Outcome (Bool × Lock))
          → m.counter ≡ 0
          → try_acquire m.the_lock ≡ o
          → Tried m (
              o >>= λ bl.
              done (bl.0, record { counter = if bl.0 then 1 else m.counter; the_lock = bl.1 }))
      tried threw z e = inr (z, e)
      tried fault z e = (z, e)
      tried (done (true, l)) z e = (
        record {
          held = a.try_acquire_holds m.the_lock (v.held ∙ ground arith) e;
          fits = omega arith;
        },
        omega arith,
        λ ne. absurd (ne z),
      )
      tried (done (false, l)) z e = (
        record {
          held = a.try_acquire_holds m.the_lock (v.held ∙ ground arith) e ∙ ground arith;
          fits = ground (arith, v.fits);
        },
        z,
        λ ne. absurd (ne z),
      )

  -- On a valid lock, what the three calls may end in. `lock` throws at the maximum and where the first
  -- one's `lock` of the wrapped lock does, else it has counted one more and left the wrapped lock
  -- alone if nested. `unlock` throws where nothing is counted and where the last one's `unlock` of
  -- the wrapped lock does, else it has counted one less and left the wrapped lock alone unless it is
  -- the last one. `try_lock` throws at the maximum and where the wrapped lock's does, else it returns
  -- true having counted one more, which it always does on a lock that is counted already, or false
  -- with nothing counted. A call that returns keeps the invariant: the wrapped lock is held exactly
  -- while the counter is positive.
  pub calls_count :
      (m : MultiLock) → IsValid m → Locked m (lock m) × Unlocked m (unlock m) × Tried m (try_lock m)
  calls_count m v = (lock-Locked m v, unlock-Unlocked m v, try_lock-Tried m v)
