-- ===== src/Lib.antt =====
-- caudio: the playback engine.
--
-- caudio is an audio library and daemon. Its core is the engine (src/engine/engine.cpp): it keeps
-- the active queue and the current track, walks the queue with and without shuffle, opens a track's
-- file into a decoder, a ring of samples and an audio device, persists its state in the database,
-- writes the listening history, and tells its clients what happens through a queue of events. The
-- service and the clients around it turn requests into calls of the engine.
--
-- Files and what they model:
--   Prelude            64-bit words, tests and lists; status codes, errors and std::expected
--                      (include/caudio/utils/result.hpp, error.hpp); below it Status and Text.
--   Mpsc               MpscQueue of src/utils/mpsc_queue.hpp: make, push, pop, wait_pop (waitPop).
--     Mpsc/Fifo        The circular storage against a list; Mpsc/Refine: sequences of calls.
--   Ring               SpscRing of include/caudio/utils/ring.hpp: write_frames and
--                      read_frames (write and read with a pointer), write and read (with a
--                      span), available_read, available_write, reset.
--     Ring/Mask        The bit mask of a power of two; Ring/Copies and Ring/Frames: helpers.
--     Ring/Stored, Ring/Pieces and Ring/Writes: what a write stores, in one or two pieces;
--                      Ring/Taken, Ring/Delivered and Ring/Reads: what a read delivers;
--                      Ring/Spans and Ring/Refine: sequences of calls.
--   Engine             The data: Engine is Engine::Impl of src/engine/engine.cpp, QueueState and
--                      EngineState its structs, and the types of include/caudio/types.
--     Engine/Persist   hasDb, loadState, saveState, the cursor and shuffle writes, the position.
--     Engine/Traverse  setShuffleLocked, queueNextLocked, queuePrevLocked; below it Cycle, Linear,
--                      Shuffled and Pass on the order of the tracks.
--     Engine/Play      doPlayTrack, preroll, pushEvent, the accounting of the time played.
--     Engine/Transport pause, resume, stop, seek, suspendCurrentTrack, resumeAfterTagWrite.
--     Engine/Commands  play, playTrack, next, autoNext, prev.
--     Engine/Settings  volume, shuffle, repeat, switchQueue, noteEnqueued, events, shutdown.
--     Engine/Tick      engineTick, doHistoryMark, shouldMarkPlayed (src/engine/history.cpp).
--     Engine/Life      the constructor, init, monitorLoop's interval, an iteration of decodeLoop.
--     Engine/View, Engine/Started and Engine/Machine
--                      what a client sees, the commands as moves of a state machine, its invariant.
--     Engine/Whole, Replay, Clock, Saved, Switched, Enqueued, History, Volume, Events
--                      properties of a whole queue, of stop, pause, save and load, switching,
--                      enqueueing, the history, the volume and the events;
--                      Engine/Current and Engine/Notified: helpers on doPlayTrack and on the
--                      callbacks.
--     Engine/Tests, Mpsc/Tests
--                      concrete engines and queues.
--   Json               Json and JsonRef of include/caudio/utils/json.hpp and src/utils/json.cpp.
--   Record             Track of include/caudio/types/record.hpp and its source kinds.
--     Record/Hex, Fallback and Reading
--                      toHex and fromHex (include/caudio/utils/math.hpp), fallbackFingerprint,
--                      trackToJson and trackFromJson of src/utils/record_json.cpp;
--                      Record/Roundtrip: one after the other.
--   Ipc                Command of include/caudio/ipc/command, with its 58 alternatives.
--     Ipc/Writing, Ipc/Reading, Ipc/Roundtrip
--                      toJson, commandFromJson of src/ipc/protocol.cpp, one after the other.
--     Ipc/Frame        frame and deframe.
--     Ipc/Result       Result and its parts; below it Errors, Writing, Reading, Later, Each, Entries
--                      and Lists: toJson and resultFromJson; Known and Roundtrip: one after the
--                      other.
--   StatusPage         publish, snapshot, setDuration and setQueueSize of src/ipc/shm_status.cpp
--                      (include/caudio/ipc/shm_status.hpp), as single loads and stores.
--     StatusPage/Views, Holds and Consistent
--                      copies under any interleaving; StatusPage/Alone: a reader alone;
--                      StatusPage/Texts and Publish: what an update leaves on the page.
--   QueueTable         The table of queue entries: queueEnqueueLocked, queueDequeueLocked,
--                      queueRemoveLocked, queueClearLocked, queueListLocked, queueCountLocked and
--                      queueIndexOfLocked of src/db/queue.cpp, the constraints of src/db/core.cpp.
--     QueueTable/Gap, Shift, Rows, Places and Index
--                      positions without gaps, the shift of an UPDATE, a queue as a list of tracks;
--                      QueueTable/Calls, Statements, Stands and Refine: sequences of calls;
--                      QueueTable/Insert: a position inside a queue.
--     QueueTable/Queues and QueueCalls
--                      getQueueLocked, listQueuesLocked, createQueueLocked, deleteQueueLocked,
--                      setQueueRepeatLocked, setQueueTempLocked: the table of queues.
--   WriterThread       WriterThread of src/db/write_thread.cpp: push, the worker's loop, the test of
--                      flush, close; WriterThread/Steps, Kept and Order: any interleaving of them.
--
-- How the code is represented. An operation is a function from the engine to the engine and its
-- result; std::expected is Expected, with the source's codes and messages. What an operation meets
-- while it runs is a World: the clocks, whether the queue's lock can be taken, the random
-- permutation, and the replies of the database contract (include/caudio/contracts/database.hpp), of
-- the media and of the device. A theorem on any sequence of commands (Engine/Life/Born) gives each
-- command its own World, so that the replies may change between them, and so do those on pausing,
-- on saving and loading, on switching and on the history; stopping has its own in Engine/Replay.
-- Those on the walk of a whole queue (Engine/Traverse, Engine/Whole) have one World throughout. The
-- engine also records the database writes and the callbacks that it made. Calls are whole steps:
-- the queue's mutex and the event queue's mutex are held over them in the source, the ring's
-- counters have one writer each. The status page and the writer thread are exceptions: the page's
-- loads and stores and the worker's steps are moves of
-- their own, in one order of all threads, and interleave freely. 64-bit integers are natural
-- numbers below 2^64 with the wrap-around written out (a signed one is its bit pattern), and so is
-- the size of the ring's storage; float and double are an abstract type with the operations that
-- the engine uses (Floats), and what a theorem needs of their comparisons it names. A generator that
-- is not std::ranges::shuffle, or a decoder that delivers more than it is offered, is excluded by a
-- named hypothesis where it matters.
--
-- Fuel: drainAll pops until the queue is empty; the model pops at most one time more than the queue
-- has events, which drain_all_lem shows to be enough. Nothing else in the model needs fuel; preroll
-- ends with the chunks that the decoder delivers.
--
-- An SQL statement is a function on the rows of its table, listed by id. An UPDATE visits the rows in
-- that order, as SQLite does when it collects the ids first, and a constraint that a row violates
-- undoes the statement. A statement prepares and runs otherwise: failures of the storage are left
-- out.
--
-- The JSON library is third-party code: its values are a data type, an object an association list,
-- and an exception that it throws is the error that its callers make of it. The casts between float
-- and double are a parameter (Singles, Unsigned).
--
-- Not modelled: the JSON library's parser and printer, SQLite itself and the SQL of the other tables,
-- the sockets, the service and the clients, the decoders and the audio device, configuration files
-- and the command line, the interleaving of the decode thread within a command, and memory orders
-- weaker than one order of all loads and stores of the status page.
pub mod Prelude
pub mod Mpsc
pub mod Ring
pub mod Engine
pub mod Json
pub mod Record
pub mod Ipc
pub mod StatusPage
pub mod QueueTable
pub mod WriterThread
