-- ===== src/Shared.antt =====
-- headers/sm/SharedMemory.h and src/sm/SharedMemory.cpp, POSIX branch. What the kernel answers
-- (`shm_open`, `ftruncate`, `mmap`) is an argument of the call; what the calls ask of it is counted.
pub mod Life
pub mod Queue
use gicame.Prelude.{
  ℕ, ◌+◌, ◌-◌, ◌%◌, ◌≤◌, Bool, true, false, not, ◌&&◌, if◌then◌else◌, ◌==◌, leb, ltb, Outcome, done,
  threw, ◌>>=◌, Option, none, some,
}
use gicame.Memory.{size_mod}

-- What this process holds of the kernel: mappings, descriptors, and whether the name is linked.
pub record Kernel : Type 0 where
  pub mappings : ℕ
  pub descriptors : ℕ
  pub linked : Bool

-- `ptr` 0 is NULL; `fd` is `none` for a negative descriptor.
pub record SharedMemory : Type 0 where
  pub size : ℕ
  pub ptr : ℕ
  pub fd : Option ℕ
  pub unlink_on_destruction : Bool

abbrev pub map_failed : ℕ
map_failed = size_mod - 1

unfoldable pub construct : ℕ → SharedMemory
construct size = record { size = size; ptr = 0; fd = none; unlink_on_destruction = true }

-- The answers to one `open`.
pub record Answers : Type 0 where
  pub shm_open : Option ℕ
  pub ftruncate_ok : Bool
  pub mmap : ℕ

-- The last part of `open`: the mapping and the test of its result.
unfoldable pub map_memory : ℕ → SharedMemory → Kernel → Bool × SharedMemory × Kernel
map_memory addr m k =
    if addr == 0 then (false, record m { ptr = 0 }, record k { linked = false }) else (
      true,
      record m { ptr = addr },
      record k { mappings = if addr == map_failed then k.mappings else k.mappings + 1 },
    )

-- What follows `shm_open`: the size, then the mapping.
unfoldable pub size_and_map :
    Option ℕ → Bool → ℕ → SharedMemory → Kernel → Bool × SharedMemory × Kernel
unfolding map_memory
size_and_map none ok addr m k = (false, record m { fd = none }, k)
size_and_map (some d) false addr m k =
    (false, record m { fd = some d }, record k { descriptors = k.descriptors + 1; linked = false })
size_and_map (some d) true addr m k =
    map_memory addr (record m { fd = some d })
      (record k { descriptors = k.descriptors + 1; linked = true })

unfoldable pub open_memory :
    Answers → SharedMemory → Kernel → Outcome (Bool × SharedMemory × Kernel)
unfolding size_and_map
open_memory a m k =
    if not (m.ptr == 0) then threw else done (size_and_map a.shm_open a.ftruncate_ok a.mmap m k)

-- `munmap` fails, and unmaps nothing, where the pointer is MAP_FAILED.
unfoldable pub close : SharedMemory → Kernel → Outcome (SharedMemory × Kernel)
close m k =
    if m.ptr == 0
    then threw
    else done (
      record m { ptr = 0 },
      record k { mappings = if m.ptr == map_failed then k.mappings else k.mappings - 1 },
    )

unfoldable pub unlink : SharedMemory → Kernel → Outcome (SharedMemory × Kernel)
unfolding close
unlink m k = (if m.ptr == 0 then done (m, k) else close m k) >>= λ mk.
    done (mk.0, record (mk.1) { linked = false })

unfoldable pub destroy : SharedMemory → Kernel → Outcome Kernel
unfolding close unlink
destroy m k =
    if m.ptr == 0
    then done k
    else (close m k >>= λ mk.
        (if (mk.0).unlink_on_destruction
          then (unlink (mk.0) (mk.1) >>= λ mk'. done (mk'.1))
          else done (mk.1)))

-- The move constructor: the new object and what is left of the source.
unfoldable pub move : SharedMemory → SharedMemory × SharedMemory
move m = (m, record m { ptr = 0; fd = none; unlink_on_destruction = false })

unfoldable pub set_unlink_on_destruction : Bool → SharedMemory → SharedMemory
set_unlink_on_destruction b m = record m { unlink_on_destruction = b }
