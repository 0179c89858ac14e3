-- ===== src/StatusPage/Tests.antt =====
-- A page of src/ipc/shm_status.cpp, two updates and a reader between them.
use caudio.Prelude.{ℕ, ◌≡◌, ◌≢◌, refl, arith, false, List, [], ◌∷◌, ◌++◌, length, replicate, suc}
use caudio.StatusPage.{
  ShmStatus, ShmStatusUpdate, publish_all, blank, loads, done, Move, begin, write, read,
  duration_set, run, opened, publish,
}
use caudio.StatusPage.Views.{Same, snapshot}
use caudio.StatusPage.Texts.{c_text, shown}
use caudio.StatusPage.Consistent.{run-snapshot_consistent}
use caudio.StatusPage.Publish.{snapshot-publish}
use caudio.StatusPage.Alone.{run-read_alone}

abbrev first : ShmStatusUpdate
first = record {
  position = 1;
  volume = 2;
  muted = false;
  state = 1;
  track_id = 7;
  title = b'a' ∷ b'b' ∷ [];
  artist = b'c' ∷ [];
}

-- An update whose track has no title.
abbrev second : ShmStatusUpdate
second = record first { track_id = 8; title = [] }

-- A reader that begins in the first publish, is disturbed by the second and takes it.
abbrev moves : List Move
moves =
    begin first ∷ write ∷ read ∷ replicate 11 write
    ++ read ∷ read ∷ begin second ∷ replicate 9 write
    ++ duration_set 5 ∷ replicate 1040 read

abbrev copied : ShmStatus
copied = record (snapshot (publish_all (first ∷ second ∷ []) (blank 0))) { duration = 5 }

moves_done : (run moves (opened (blank 0))).reader ≡ done copied
unfolding run opened blank snapshot publish_all
moves_done = refl

run-snapshot_consistent_example :
    (before : List ShmStatusUpdate) × (after : List ShmStatusUpdate) × ((run moves
        (opened (blank 0))).published
      ≡ before ++ after)
    × (copied.seq ≡ (publish_all before (blank 0)).seq)
    × Same copied (snapshot (publish_all before (blank 0)))
unfolding run opened blank
run-snapshot_consistent_example =
    run-snapshot_consistent (blank 0) moves copied (omega arith) moves_done

different : (n : ℕ) → suc n ≢ 0
different n e = omega arith

snapshot-publish_example :
    let out = snapshot (publish second (publish first (blank 0))) in
    (out.position ≡ 1)
    × (out.volume ≡ 2)
    × (out.muted ≡ false)
    × (out.state ≡ 1)
    × (out.track_id ≡ 8)
    × (out.duration ≡ (publish first (blank 0)).duration)
    × (out.queue_size ≡ (publish first (blank 0)).queue_size)
    × (c_text 256 0 out.title ≡ c_text 256 0 (publish first (blank 0)).title)
    × (c_text 256 0 out.artist ≡ b'c' ∷ [])
unfolding shown
snapshot-publish_example =
    snapshot-publish second (publish first (blank 0)) tt ((λ e. different 98 e), tt)

run-read_alone_example :
    run (replicate (suc (suc (length loads))) read) (opened (publish first (blank 0)))
    ≡ record (opened (publish first (blank 0))) {
      reader = done (snapshot (publish first (blank 0)));
    }
unfolding opened publish blank
run-read_alone_example = run-read_alone (opened (publish first (blank 0))) refl refl
