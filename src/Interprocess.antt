-- ===== src/Interprocess.antt =====
-- src/concurrency/InterprocessSignal.cpp, headers/concurrency/InterprocessSignal.h and WaitResult.h: a
-- signal in a shared memory, as a futex or as a POSIX mutex with a condition variable. What the kernel
-- and the pthread functions answer is an argument.
pub mod Condition
pub mod Futex
pub mod Made
use gicame.Prelude.{
  ℕ, ◌==◌, Bool, true, false, not, if◌then◌else◌, none, some, Outcome, done, threw, fault,
}
use gicame.Memory.{align}
use gicame.Ring.{Role, master, slave}
use gicame.Shared.{
  SharedMemory, Kernel, Answers, construct, open_memory, set_unlink_on_destruction, destroy, move,
}

pub data WaitResult : Type 0 where
  ok timeout_elapsed failed : WaitResult

-- What lies in the shared memory.
pub data Shape : Type 0 where
  futex_word : Shape
  posix_mutex_cv : Shape

-- `sizeof` and `alignof` on x86-64 Linux: `std::atomic<uint32_t>`, and a pthread mutex of 40 bytes
-- before a condition variable of 48.
abbrev pub size_of : Shape → ℕ
size_of futex_word = 4
size_of posix_mutex_cv = 88

abbrev pub align_of : Shape → ℕ
align_of futex_word = 4
align_of posix_mutex_cv = 8

-- `shared` is the pointer `futexp` or `sharedData`, 0 for NULL.
pub record InterprocessSignal : Type 0 where
  pub shmem : SharedMemory
  pub shared : ℕ

abbrev pub is_master : Role → Bool
is_master master = true
is_master slave = false

-- An exception of the constructor's body destroys the member `shmem`.
unfoldable pub place : Shape → SharedMemory → Kernel → Outcome InterprocessSignal × Outcome Kernel
place shape m k = elim (align (align_of shape) (size_of shape) m.ptr m.size) [
  | none ↦ (threw, destroy m k)
  | some (p, _) ↦ (done (record { shmem = m; shared = p }), done k)
]

-- What follows `open`.
unfoldable pub place_opened :
    Shape
    → Role
    → Outcome (Bool × SharedMemory × Kernel)
    → Outcome InterprocessSignal × Outcome Kernel
unfolding place set_unlink_on_destruction
place_opened shape role (done (false, m, k)) = (threw, destroy m k)
place_opened shape role (done (true, m, k)) =
    place shape (set_unlink_on_destruction (is_master role) m) k
place_opened shape role threw = (threw, threw)
place_opened shape role fault = (fault, fault)

-- The constructor. What it initialises in the memory, whatever the role, is the start of
-- Interprocess.Futex and of Interprocess.Condition.
unfoldable pub construct_signal :
    Shape → Role → Answers → Kernel → Outcome InterprocessSignal × Outcome Kernel
unfolding place_opened construct open_memory
construct_signal shape role a k =
    place_opened shape role (open_memory a (construct (size_of shape)) k)

-- The move constructor: the new object and what is left of the source.
unfoldable pub move_signal : InterprocessSignal → InterprocessSignal × InterprocessSignal
unfolding move
move_signal s =
    let (new, old) = move s.shmem in
    (record { shmem = new; shared = s.shared }, record { shmem = old; shared = 0 })

-- The destructor gives back the member `shmem`.
unfoldable pub destroy_signal : InterprocessSignal → Kernel → Outcome Kernel
unfolding destroy
destroy_signal s k = destroy s.shmem k

-- What the pthread calls of one operation return, 0 for success.
pub record Codes : Type 0 where
  pub lock : ℕ
  pub cond : ℕ
  pub unlock : ℕ

abbrev pub etimedout : ℕ
etimedout = 110

-- `wait` on a condition variable: its end, and whether the caller holds the mutex then.
unfoldable pub wait_cond : Codes → Outcome WaitResult × Bool
wait_cond c =
    if not (c.lock == 0)
    then (threw, false)
    else if not (c.unlock == 0)
    then (threw, true)
    else if c.cond == etimedout
    then (done timeout_elapsed, false)
    else if not (c.cond == 0)
    then (done failed, false)
    else (done ok, false)

-- `signal` on a condition variable.
unfoldable pub signal_cond : Codes → Outcome (Unit {0}) × Bool
signal_cond c =
    if not (c.lock == 0)
    then (threw, false)
    else if not (c.unlock == 0)
    then (threw, true)
    else if not (c.cond == 0)
    then (threw, false)
    else (done tt, false)

-- StubInterprocessSignal
abbrev pub stub_wait : WaitResult
stub_wait = timeout_elapsed
