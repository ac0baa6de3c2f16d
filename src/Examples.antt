-- ===== src/Examples.antt =====
-- Runs of the models at concrete inputs, and each theorem applied at one.
mod Rings
mod Threading
mod Memories
mod Remote
mod Semaphores
mod Transfers
mod TypedCalls
mod Network
mod Ciphers
mod Queues
mod Objects
mod Integers
mod Waiters
mod Keys
mod Crossing
