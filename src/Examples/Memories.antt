-- ===== src/Examples/Memories.antt =====
-- Shared memories, the queue laid out in one, and a reentrant lock, at concrete inputs.
use gicame.Prelude.{
  ◌+◌, ◌≤◌, ◌%◌, ◌≡◌, refl, arith, Bool, true, false, some, none, [], Outcome, done, threw,
}
use gicame.Shared.{Kernel, SharedMemory, Answers, map_failed}
use gicame.Shared.Life.{Owns}
use gicame.Shared.Queue.{
  Layout, init_sh_mem, enlarge_capacity, descriptor_size, descriptor_align, queue_fits_its_memory,
  construct_queue,
}
use gicame.Ring.{Ring, master}
use gicame.Ring.Inv.{IsValid, contents}
use gicame.MultiLock
use gicame.MultiLock.{Lockable, calls_count}

abbrev kernel : Kernel
kernel = record { mappings = 4; descriptors = 9; linked = false }

abbrev fresh : SharedMemory
fresh = record { size = 100; ptr = 0; fd = none; unlink_on_destruction = true }

abbrev mapped : SharedMemory
mapped = record { size = 100; ptr = 8192; fd = some 5; unlink_on_destruction = true }

abbrev answers : Answers
answers = record { shm_open = some 5; ftruncate_ok = true; mmap = 8192 }

abbrev failed_answers : Answers
failed_answers = record { shm_open = some 5; ftruncate_ok = true; mmap = map_failed }

fresh-Owns : Owns 4 fresh kernel
fresh-Owns = record { real = omega arith; counted = refl }

queue_fits_its_memory_example :
    ((l : Layout) × (init_sh_mem true 8200 (enlarge_capacity 1000) 1000 ≡ done l)
      × (l.capacity ≡ 1000)
      × (l.header % descriptor_align ≡ 0)
      × (8200 ≤ l.header)
      × (l.buffer ≡ l.header + descriptor_size)
      × (l.buffer + l.capacity ≤ 8200 + enlarge_capacity 1000))
    × ((r : Ring) × (construct_queue true 8200 1000 master 5 6 (λ i. 0) ≡ done r)
        × IsValid r
        × (r.capacity ≡ 1000)
        × (contents r ≡ []))
queue_fits_its_memory_example =
    queue_fits_its_memory 8200 1000 5 6 (λ i. 0) (omega arith) (omega arith)

abbrev take_flag : Bool → Outcome Bool
take_flag false = done true
take_flag true = threw

abbrev free_flag : Bool → Outcome Bool
free_flag true = done false
free_flag false = threw

abbrev try_flag : Bool → Outcome (Bool × Bool)
try_flag b = done (true, true)

took-held : (b : Bool) {b' : Bool} → take_flag b ≡ done b' → b' ≡ true
took-held false e = ground arith
took-held true e = ground arith

freed-free : (b : Bool) {b' : Bool} → free_flag b ≡ done b' → b' ≡ false
freed-free false e = ground arith
freed-free true e = ground arith

tried-held : (b : Bool) {c b' : Bool} → b ≡ false → try_flag b ≡ done (c, b') → b' ≡ c
tried-held b {c} {b'} z e = ground arith

-- A lock that is a flag.
abbrev flag : Lockable
flag = record {
  Lock = Bool;
  is_held = λ b. b;
  acquire = take_flag;
  release = free_flag;
  try_acquire = try_flag;
  acquire_holds = took-held;
  release_frees = freed-free;
  try_acquire_holds = tried-held;
}

abbrev locked_once : MultiLock.MultiLock flag
locked_once = record { counter = 1; the_lock = true }

locked_once-IsValid : MultiLock.IsValid flag locked_once
locked_once-IsValid = record { held = refl; fits = omega arith }

calls_count_example :
    MultiLock.Locked flag locked_once (MultiLock.lock flag locked_once)
    × MultiLock.Unlocked flag locked_once (MultiLock.unlock flag locked_once)
    × MultiLock.Tried flag locked_once (MultiLock.try_lock flag locked_once)
calls_count_example = calls_count flag locked_once locked_once-IsValid
