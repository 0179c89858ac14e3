-- ===== src/StatusPage.antt =====
-- The status page of src/ipc/shm_status.cpp and include/caudio/ipc/shm_status.hpp: a writer that
-- publishes under an odd sequence number, a reader that takes a copy and tries again where the
-- number has changed. Every load, every store and every byte of a text is a step of its own.
pub mod Views
pub mod Holds
pub mod Consistent
pub mod Texts
pub mod Publish
pub mod Alone
mod Tests
use native.Mathlib.Decide.{ℕ_discrete}
use mathlib.Core.Logic.{ite}
use caudio.Prelude.{
  ℕ, zero, suc, ◌+◌, ◌%◌, Bool, false, ◌==◌, List, [], ◌∷◌, ◌++◌, if◌then◌else◌, word, length, take,
}

-- A write into an array of bytes.
abbrev pub with_byte : ℕ → ℕ → (ℕ → ℕ) → ℕ → ℕ
with_byte i c bytes j = ite (ℕ_discrete i j) c (bytes j)

-- ShmStatus, and the shared AtomicShmStatus: a double, a float or an integer is its bits, a text an
-- array of 256 bytes.
pub record ShmStatus : Type 0 where
  seq : ℕ
  position : ℕ
  duration : ℕ
  volume : ℕ
  muted : Bool
  state : ℕ
  track_id : ℕ
  queue_size : ℕ
  title : ℕ → ℕ
  artist : ℕ → ℕ

pub record ShmStatusUpdate : Type 0 where
  position : ℕ
  volume : ℕ
  muted : Bool
  state : ℕ
  track_id : ℕ
  title : List ℕ
  artist : List ℕ

-- A store into a field of a page or of a copy, other than the sequence number.
pub data Store : Type 0 where
  set_position set_duration set_volume set_state set_track_id set_queue_size : ℕ → Store
  set_muted : Bool → Store
  set_title set_artist : ℕ → ℕ → Store

unfoldable pub apply : Store → ShmStatus → ShmStatus
apply (set_position n) p = record p { position = n }
apply (set_duration n) p = record p { duration = n }
apply (set_volume n) p = record p { volume = n }
apply (set_state n) p = record p { state = n }
apply (set_track_id n) p = record p { track_id = n }
apply (set_queue_size n) p = record p { queue_size = n }
apply (set_muted b) p = record p { muted = b }
apply (set_title i c) p = record p { title = with_byte i c p.title }
apply (set_artist i c) p = record p { artist = with_byte i c p.artist }

unfoldable pub apply_all : List Store → ShmStatus → ShmStatus
unfolding apply
apply_all [] p = p
apply_all (s ∷ ss) p = apply_all ss (apply s p)

-- The memcpy of the bytes from index `i` on, and the zero behind them.
unfoldable pub copy_text : (ℕ → ℕ → Store) → ℕ → List ℕ → List Store
copy_text put i [] = put i 0 ∷ []
copy_text put i (c ∷ cs) = put i c ∷ copy_text put (i + 1) cs

-- An empty text is not stored.
unfoldable pub text_stores : (ℕ → ℕ → Store) → List ℕ → List Store
unfolding copy_text
text_stores put [] = []
text_stores put (c ∷ cs) = copy_text put 0 (take 255 (c ∷ cs))

-- What publish stores between the two sequence numbers.
unfoldable pub stores : ShmStatusUpdate → List Store
unfolding text_stores
stores u =
    set_position u.position
      ∷ set_volume u.volume
      ∷ set_state u.state
      ∷ set_track_id u.track_id
      ∷ set_muted u.muted
      ∷ text_stores set_title u.title
    ++ text_stores set_artist u.artist

-- `old` of publish, even.
unfoldable pub even_seq : ℕ → ℕ
even_seq seq = if seq % 2 == 1 then (seq + 1) % word else seq

-- publish without a step of anyone else.
unfoldable pub publish : ShmStatusUpdate → ShmStatus → ShmStatus
unfolding apply_all stores even_seq
publish u p =
    let old = even_seq p.seq in
    record (apply_all (stores u) (record p { seq = (old + 1) % word })) { seq = (old + 2) % word }

-- The loads of snapshot, in its order.
pub data Load : Type 0 where
  get_position get_duration get_volume get_muted get_state get_track_id get_queue_size : Load
  get_title get_artist : ℕ → Load

-- The store of what is loaded into the copy.
unfoldable pub loaded : Load → ShmStatus → Store
loaded get_position p = set_position p.position
loaded get_duration p = set_duration p.duration
loaded get_volume p = set_volume p.volume
loaded get_muted p = set_muted p.muted
loaded get_state p = set_state p.state
loaded get_track_id p = set_track_id p.track_id
loaded get_queue_size p = set_queue_size p.queue_size
loaded (get_title i) p = set_title i (p.title i)
loaded (get_artist i) p = set_artist i (p.artist i)

-- `n` bytes of a text, from index `i` on.
unfoldable pub copies : (ℕ → Load) → ℕ → ℕ → List Load
copies get i zero = []
copies get i (suc n) = get i ∷ copies get (i + 1) n

unfoldable pub loads : List Load
unfolding copies
loads =
    get_position
      ∷ get_duration
      ∷ get_volume
      ∷ get_muted
      ∷ get_state
      ∷ get_track_id
      ∷ get_queue_size
      ∷ copies get_title 0 256
    ++ copies get_artist 0 256

-- `ShmStatus out{}` with the sequence number that was read.
unfoldable pub blank : ℕ → ShmStatus
blank seq = record {
  seq = seq;
  position = 0;
  duration = 0;
  volume = 0x3f80_0000;
  muted = false;
  state = 0;
  track_id = 0;
  queue_size = 0;
  title = λ _. 0;
  artist = λ _. 0;
}

-- Where the reader stands in snapshot.
pub data Reader : Type 0 where
  trying : Reader
  copying : List Load → ShmStatus → Reader
  done : ShmStatus → Reader

-- One load of the reader: the sequence number, a field, or the sequence number again.
unfoldable pub read_step : ShmStatus → Reader → Reader
unfolding blank loads loaded apply
read_step p trying = if p.seq % 2 == 1 then trying else copying loads (blank p.seq)
read_step p (copying (l ∷ ls) out) = copying ls (apply (loaded l p) out)
read_step p (copying [] out) = if p.seq == out.seq then done out else trying
read_step p (done out) = done out

-- Where the writer stands in publish.
pub data Writer : Type 0 where
  idle : Writer
  begun : ℕ → ShmStatusUpdate → Writer
  storing : ℕ → ShmStatusUpdate → List Store → Writer

-- The page, its one writer, a reader, and the updates whose publish has ended.
pub record System : Type 0 where
  page : ShmStatus
  writer : Writer
  published : List ShmStatusUpdate
  reader : Reader

pub data Move : Type 0 where
  begin : ShmStatusUpdate → Move
  write read : Move
  duration_set queue_size_set : ℕ → Move

-- One load or store of publish.
unfoldable pub write_step : System → System
unfolding apply stores
write_step s = elim s.writer [
  | idle ↦ s
  | begun old u ↦ record s {
    page = record s.page { seq = (old + 1) % word };
    writer = storing old u (stores u);
  }
  | storing old u [] ↦ record s {
    page = record s.page { seq = (old + 2) % word };
    writer = idle;
    published = s.published ++ u ∷ [];
  }
  | storing old u (x ∷ xs) ↦ record s { page = apply x s.page; writer = storing old u xs }
]

-- publish is called by one thread: a call begins where the one before has ended.
unfoldable pub begin_step : ShmStatusUpdate → System → System
unfolding even_seq
begin_step u s = elim s.writer [
  | idle ↦ record s { writer = begun (even_seq s.page.seq) u }
  | begun old v ↦ s
  | storing old v xs ↦ s
]

unfoldable pub move : Move → System → System
unfolding begin_step write_step read_step
move (begin u) s = begin_step u s
move write s = write_step s
move read s = record s { reader = read_step s.page s.reader }
move (duration_set n) s = record s { page = record s.page { duration = n } }
move (queue_size_set n) s = record s { page = record s.page { queue_size = n } }

unfoldable pub run : List Move → System → System
unfolding move
run [] s = s
run (m ∷ ms) s = run ms (move m s)

-- A page that exists, and a writer and a reader that have just opened it.
unfoldable pub opened : ShmStatus → System
opened p = record { page = p; writer = idle; published = []; reader = trying }

unfoldable pub publish_all : List ShmStatusUpdate → ShmStatus → ShmStatus
unfolding publish
publish_all [] p = p
publish_all (u ∷ us) p = publish_all us (publish u p)
