-- ===== src/WriterThread/Tests.antt =====
-- A writer thread of src/db/write_thread.cpp, its worker and a flush.
use caudio.Prelude.{◌≡◌, refl, true, false, List, [], ◌∷◌, some}
use caudio.Mpsc.{push, make, pop, empty}
use caudio.WriterThread.{
  WriteOperation, Sqlite, WriterThread, opened_thread, Move, pushes, works, requests_stop, drops,
  run, flushed,
}

abbrev first : WriteOperation
first = record { sql = "DELETE FROM history"; stmt = false; cb = true }

abbrev second : WriteOperation
second = record { sql = ""; stmt = true; cb = true }

-- A database that is locked.
abbrev database : Sqlite
database = record { opened = true; refuses = λ _. some "database is locked" }

abbrev moves : List Move
moves =
    pushes first
    ∷ works
    ∷ works
    ∷ works
    ∷ pushes second
    ∷ pushes first
    ∷ works
    ∷ works
    ∷ works
    ∷ requests_stop
    ∷ works
    ∷ works
    ∷ drops
    ∷ drops
    ∷ drops
    ∷ []

abbrev closed : WriterThread
closed = run database moves (opened_thread 0)

-- The first operation ran and was answered; close dropped the two behind it.
close_drops : closed.dropped ≡ second ∷ first ∷ []
unfolding run opened_thread push make pop
close_drops = refl

-- Between the pop and the count of in_flight_, flush finds nothing left to do.
abbrev popped : WriterThread
popped = run database (pushes first ∷ works ∷ works ∷ works ∷ []) (opened_thread 0)

flushed_too_early : flushed popped ≡ true
unfolding run opened_thread flushed empty push make pop
flushed_too_early = refl

not_run : popped.ran ≡ []
unfolding run opened_thread push make pop
not_run = refl
