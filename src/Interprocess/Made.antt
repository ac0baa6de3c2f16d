-- ===== src/Interprocess/Made.antt =====
-- The constructor of InterprocessSignal, and what its failures give back.
use gicame.Prelude.{
  ℕ, ◌+◌, ◌%◌, ◌≡◌, ◌∙◌, ◌≢◌, refl, arith, Bool, true, false, ◌&&◌, not, ◌==◌, if◌then◌else◌,
  Bool-cases, inl, inr, Option, none, some, Outcome, done, threw,
}
use gicame.Memory.{align}
use gicame.Ring.{Role, master, slave}
use gicame.Shared.Life.{destroy-Owns}
use gicame.Shared.{
  Answers, Kernel, map_failed, construct, open_memory, size_and_map, map_memory, destroy,
  set_unlink_on_destruction,
}
use gicame.Interprocess.{
  Shape, futex_word, posix_mutex_cv, size_of, align_of, InterprocessSignal, is_master, place,
  place_opened, construct_signal, destroy_signal,
}

abbrev is_some : Option ℕ → Bool
is_some none = false
is_some (some x) = true

-- The kernel gives a memory, at an address which is a multiple of the alignment.
abbrev pub is_usable : Shape → Answers → Bool
is_usable shape a =
    is_some a.shm_open && a.ftruncate_ok && not (a.mmap == 0) && ((a.mmap % align_of shape) == 0)

-- What the constructor ends in, by whether the memory is usable; `k` is the kernel before.
abbrev pub MadeBy : Bool → Role → ℕ → Kernel → Outcome InterprocessSignal × Outcome Kernel → Type 0
MadeBy true role addr k (done s, done k') =
    (s.shared ≡ addr)
    × (k'.mappings ≡ k.mappings + 1)
    × (k'.linked ≡ true)
    × ((k'' : Kernel) × (destroy_signal s k' ≡ done k'')
        × (k''.mappings ≡ k.mappings)
        × (k''.linked ≡ not (is_master role)))
MadeBy false role addr k (threw, done k') = k'.mappings ≡ k.mappings
MadeBy _ _ _ _ _ = ⊥

aligned :
    (shape : Shape) (addr : ℕ)
    → align (align_of shape) (size_of shape) addr (size_of shape)
      ≡ (if (addr % align_of shape) == 0 then some (addr, size_of shape) else none)
unfolding align
aligned futex_word addr = ground arith
aligned posix_mutex_cv addr = ground arith

destroy-mapped :
    (n addr d m f : ℕ) (role : Role)
    → (addr == 0) ≡ false
    → (addr == map_failed) ≡ false
    → destroy
        (record { size = n; ptr = addr; fd = some d; unlink_on_destruction = is_master role })
        (record { mappings = m + 1; descriptors = f; linked = true })
      ≡ done (record { mappings = m; descriptors = f; linked = not (is_master role) })
destroy-mapped n addr d m f role p q =
    destroy-Owns _ _ m (record { real = ground arith; counted = rw p refl }) ∙ rw p (by_role role)
  where
    left : Bool → Kernel
    left l = record { mappings = m; descriptors = f; linked = l }

    by_role :
        (role : Role)
        → done (left (if is_master role then false else true)) ≡ done (left (not (is_master role)))
    by_role master = refl
    by_role slave = refl

place-MadeBy :
    (shape : Shape) (role : Role) (addr : ℕ) (k : Kernel) (d : ℕ)
    → (addr == 0) ≡ false
    → (addr == map_failed) ≡ false
    → MadeBy ((addr % align_of shape) == 0) role addr k (
        place shape
          (record {
            size = size_of shape;
            ptr = addr;
            fd = some d;
            unlink_on_destruction = is_master role;
          })
          (record { mappings = k.mappings + 1; descriptors = k.descriptors + 1; linked = true }))
unfolding place destroy_signal
place-MadeBy shape role addr k d p q =
    rw (place, aligned shape addr)
      (elim (Bool-cases ((addr % align_of shape) == 0)) [
        | inl e ↦ rw e (refl, refl, refl, (_, destroy-mapped _ addr d _ _ role p q, refl, refl))
        | inr e ↦
            rw e rw
              (
                destroy,
                destroy-mapped (size_of shape) addr d k.mappings (k.descriptors + 1) role p q,
              )
              refl
      ])

-- The constructor makes an object exactly when the kernel gives a memory at an aligned address, and
-- the shared word is at the start of this memory; else it throws. Either way no mapping is left: a
-- failure has given it back, and the destructor of the object does, which unlinks the name if the
-- object is the master's. `mmap` does not fail with MAP_FAILED.
pub construct_signal-MadeBy :
    (shape : Shape) (role : Role) (a : Answers) (k : Kernel)
    → a.mmap ≢ map_failed
    → MadeBy (is_usable shape a) role a.mmap k (construct_signal shape role a k)
unfolding construct_signal place_opened construct open_memory size_and_map map_memory
    set_unlink_on_destruction destroy
construct_signal-MadeBy shape role a k ok = by_answers shape a.shm_open a.ftruncate_ok a.mmap ok
  where
    by_answers :
        (shape : Shape) (d : Option ℕ) (b : Bool) (addr : ℕ)
        → addr ≢ map_failed
        → let a' : Answers = record { shm_open = d; ftruncate_ok = b; mmap = addr } in
          MadeBy (is_usable shape a') role addr k (construct_signal shape role a' k)
    by_answers shape none b addr ok = refl
    by_answers shape (some d) false addr ok = refl
    by_answers shape (some d) true addr ok = elim (Bool-cases (addr == 0)) [
      | inl e ↦ rw e refl
      | inr e ↦
          let q : (addr == map_failed) ≡ false = ground arith in
          rw (e, q) (place-MadeBy shape role addr k d e q)
    ]
