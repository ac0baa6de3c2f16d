-- ===== src/Lib.antt =====
-- Gicame, "Generic Inter-process Communication And Message Exchange": a model of the library's own
-- logic with the theorems that make it correct.
--
-- The parts and how they interact. InterprocessQueue and SLInterprocessQueue are a ByteRing in a
-- SharedMemory, with a wait policy of InterprocessSignals or of none; SPSCQueue, Signal and TaskExecutor
-- coordinate the threads of one process, InterprocessSemaphore those of several, and MultiLock makes
-- any of their locks reentrant; RPC and the transfer of objects put messages on any byte stream,
-- such as a TcpSocket or a NamedPipe; a typed remote call serializes its arguments by BinarySerializer
-- through a MemoryStream; IDataExchangerQueueAdapter makes a queue such a byte stream. The cryptography
-- is apart from these.
--
--   Prelude     names, lists, Boolean tests and outcomes that the modules share
--   Memory      bytes in memory and `size_t`: headers/utils/Memory.h (align) and `memcpy`
--   Ring        headers/concurrency/ByteRing.h and implementation_details/CircularBuffer.h: the pieces
--               of `push` and `pop` between two accesses to shared memory. Ring.System runs a producer
--               and a consumer thread through them, under each wait policy of InterprocessQueue.h
--   SpscQueue   src/concurrency/SPSCQueue.cpp: two threads of one process, a byte at a time
--   Shared      src/sm/SharedMemory.cpp; Shared.Queue: src/concurrency/InterprocessQueue.cpp
--   Signals     headers/concurrency/Signal.h: a group of signals, and (Signals.Threads) any number of
--               threads at one signal
--   Executor    src/concurrency/TaskExecutor.cpp: the worker thread and a client thread, spurious
--               wake-ups included
--   Semaphore   src/concurrency/Semaphore.cpp
--   Interprocess  src/concurrency/InterprocessSignal.cpp: a signal in a shared memory, and any number of
--               threads at one as a futex (Interprocess.Futex, internal_headers/futex/Futex.h) and as a
--               condition variable (Interprocess.Condition)
--   MultiLock   headers/concurrency/MultiLock.h, over any lock that satisfies `Lockable`
--   Rpc         headers/rpc, src/rpc: the request and its bytes, the client's sending, the server
--   Remote      headers/rpc/RerBuilding.h, RpcServer.h (registerFunction), RpcClient.h (get): the typed
--               ends of a call
--   Serializer  headers/dataSerialization/BinarySerializer.h
--   Streams     headers/stream/MemoryStream.h
--   Binary      headers/serialization/Binary.h: objects through their properties
--   Tree        headers/serialization/Tree.h: the tree of an object, beside the bytes of Binary
--   Numbers     headers/utils/Numbers.h
--   Adapter     headers/concurrency/IDataExchangerQueueAdapter.h: remote calls over two queues
--   Addresses   headers/network/NetworkDefinitions.h and src/network/NetworkDefinitions.cpp
--   Transfer    headers/dataTransfer: objects and texts behind their sizes
--   Sockets     src/network/TcpSocket.cpp and TcpListeningSocket.cpp; Sockets.World: the sockets of a
--               process and the descriptors that the kernel holds for it
--   Pipe        src/os/NamedPipe.cpp, and objects sent over a pipe whose calls fail
--   Crypto      src/crypto/encryption and headers/crypto/encryption/EncryptionAlgorithm.h, over what
--               the EVP functions of OpenSSL do
--   Digest      src/crypto/hash, over what the functions of OpenSSL do
--   Openssl     what src/crypto takes from OpenSSL and gives back: keys (key/EvpKey.cpp), signatures (ds),
--               certificates and their store (certificate) and key exchanges (dh)
--   SymmetricKey  src/crypto/key/SymmetricKey.cpp: who erases the bytes of a key
--   Library     src/os/DynLibraryHandler.cpp
--   Examples    the models and the theorems at concrete inputs
--
-- A function is named as in the source, in snake_case; an object is a record of its data members. A
-- throw is `threw`, an access outside an object or another undefined behaviour is `fault`. Threads
-- interleave: a run is a list that says which thread makes the next step, and theorems on runs hold
-- for all lists. Where the code reads `std::atomic` members with acquire and release order, a step
-- reads or writes memory at once. Integers are natural numbers; `size_t` arithmetic wraps at 2^64
-- (`add_size`, `sub_size`), and 64-bit pointers on a little-endian machine are assumed. There is no
-- fuel: loops that depend on the kernel or on the other peer recur on the list of the answers that
-- they get, and `none` or `blocked` says that the loop still runs when this list ends; the theorems
-- that a loop returns say how many answers are enough.
--
-- Not modelled: the Windows branches; OpenSSL itself and random numbers; serial devices; the conversion
-- of addresses by inet_pton and inet_ntop. What the POSIX kernel answers is an argument of the
-- definitions that ask it, what an EVP context does one of the ciphers, and what OpenSSL answers to
-- the other calls one of their models.
pub mod Prelude
pub mod Memory
pub mod Ring
pub mod Executor
pub mod Signals
pub mod Shared
pub mod MultiLock
pub mod Semaphore
pub mod Rpc
pub mod Transfer
pub mod Streams
pub mod Serializer
pub mod Remote
pub mod Sockets
pub mod Pipe
pub mod Crypto
pub mod Examples
pub mod SpscQueue
pub mod Binary
pub mod Numbers
pub mod Digest
pub mod Interprocess
pub mod Openssl
pub mod Tree
pub mod Addresses
pub mod Adapter
pub mod SymmetricKey
pub mod Library
