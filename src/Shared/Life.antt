-- ===== src/Shared/Life.antt =====
-- The life of a SharedMemory: who owns the mapping, and what the destructor gives back.
use gicame.Prelude.{
  ℕ, ◌+◌, ◌-◌, ◌≡◌, ◌≢◌, refl, arith, Bool, true, false, if◌then◌else◌, ◌==◌, Outcome, done, threw,
  ◌>>=◌, Option, none, some, ◌⊎◌, inl, inr, Bool-cases, fault,
}
use gicame.Shared.{
  Kernel, SharedMemory, map_failed, Answers, open_memory, size_and_map, close, destroy, move,
}

-- The object maps its memory exactly when its pointer is not NULL, `others` being the mappings of
-- the rest of the process.
pub record Owns (others : ℕ) (m : SharedMemory) (k : Kernel) : Type 0 where
  pub real : m.ptr ≢ map_failed
  pub counted : k.mappings ≡ (if m.ptr == 0 then others else others + 1)

-- What `open` may end in on the object `m`.
abbrev pub OpensTo : ℕ → SharedMemory → Outcome (Bool × SharedMemory × Kernel) → Type 0
OpensTo others m threw = m.ptr ≢ 0
OpensTo others m fault = ⊥
OpensTo others m (done (b, m', k')) =
    (m.ptr ≡ 0) × Owns others m' k' × (b ≡ (if m'.ptr == 0 then false else true))

-- While `mmap` does not fail, `open` throws on an object that is open, and on no other; else the
-- object owns its mapping afterwards, and has one exactly when `open` returns true.
pub open_memory-OpensTo :
    (a : Answers) (m : SharedMemory) (k : Kernel) (others : ℕ)
    → a.mmap ≢ map_failed
    → Owns others m k
    → OpensTo others m (open_memory a m k)
unfolding open_memory
open_memory-OpensTo a m k others ok own = elim (Bool-cases (m.ptr == 0)) [
  | inr e ↦ rw e (ground arith)
  | inl e ↦ rw e (opened a.shm_open a.ftruncate_ok (ground arith))
]
  where
    opened :
        (d : Option ℕ) (b : Bool)
        → m.ptr ≡ 0
        → OpensTo others m (done (size_and_map d b a.mmap m k))
    opened none b z = (z, record { real = own.real; counted = own.counted }, ground arith)
    opened (some d) false z = (z, record { real = own.real; counted = own.counted }, ground arith)
    opened (some d) true z = elim (Bool-cases (a.mmap == 0)) [
      | inl e ↦ rw e (z, record { real = omega arith; counted = ground (arith, own.counted) }, refl)
      | inr e ↦ rw e (z, record { real = ok; counted = ground (arith, own.counted) }, ground arith)
    ]

-- A failed `mmap` passes for a mapping: the code compares its result with NULL, and the result of a
-- failure is MAP_FAILED. `open` returns true, `get` hands out the invalid address, and nothing is
-- mapped.
pub open_memory_unmapped :
    (a : Answers) (m : SharedMemory) (k : Kernel) {d : ℕ}
    → m.ptr ≡ 0
    → a.shm_open ≡ some d
    → a.ftruncate_ok ≡ true
    → a.mmap ≡ map_failed
    → (m' : SharedMemory) × (k' : Kernel) × (open_memory a m k ≡ done (true, m', k'))
      × (m'.ptr ≡ map_failed)
      × (k'.mappings ≡ k.mappings)
unfolding open_memory
open_memory_unmapped a m k {d} z o f e = (
  record m { ptr = map_failed; fd = some d },
  record k { descriptors = k.descriptors + 1; linked = true },
  ground arith,
  refl,
  refl,
)

-- `close` throws exactly on an object that is not open, and gives the mapping back; the descriptor
-- that `open` has taken is not given back.
pub close-Owns :
    (m : SharedMemory) (k : Kernel) (others : ℕ)
    → Owns others m k
    → ((m.ptr ≡ 0) × (close m k ≡ threw))
      ⊎ ((m.ptr ≢ 0)
          × (m' : SharedMemory) × (k' : Kernel) × (close m k ≡ done (m', k'))
          × (m'.ptr ≡ 0)
          × (k'.mappings ≡ others)
          × (k'.descriptors ≡ k.descriptors))
unfolding close
close-Owns m k others own = elim (Bool-cases (m.ptr == 0)) [
  | inl e ↦ inl (ground arith, rw e)
  | inr e ↦ inr (
    ground arith,
    record m { ptr = 0 },
    record k { mappings = if m.ptr == map_failed then k.mappings else k.mappings - 1 },
    rw e,
    refl,
    ground (arith, own.real, own.counted),
    refl,
  )
]

-- The destructor gives back the mapping of an open object, and unlinks the name if the object is
-- still set to; an object that is not open, so also one that has been closed or moved from, gives
-- back and unlinks nothing.
pub destroy-Owns :
    (m : SharedMemory) (k : Kernel) (others : ℕ)
    → Owns others m k
    → destroy m k ≡ (
        if m.ptr == 0
        then done k
        else done (record k {
          mappings = others;
          linked = if m.unlink_on_destruction then false else k.linked;
        }))
unfolding destroy
destroy-Owns m k others own = ground (arith, own.real, own.counted)

-- After a move, destroying both objects leaves the kernel as destroying the source alone would
-- have.
pub destroy-move :
    (m : SharedMemory) (k : Kernel)
    → let (new, old) = move m in (destroy old k >>= λ k'. destroy new k') ≡ destroy m k
unfolding move destroy
destroy-move m k = refl
