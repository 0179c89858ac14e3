-- ===== src/StatusPage/Consistent.antt =====
-- Any interleaving of the reader and the writer of src/ipc/shm_status.cpp.
use mathlib.Core.List.{append_assoc, append-nil}
use caudio.Prelude.{
  ℕ, ◌+◌, ◌*◌, ◌%◌, ◌≤◌, ◌<◌, ◌≡◌, ◌≢◌, refl, ap, sym, ◌∙◌, List, [], ◌∷◌, ◌++◌, word, length,
  arith, length-append,
}
use caudio.StatusPage.{
  ShmStatus, ShmStatusUpdate, stores, even_seq, publish, publish_all, Reader, trying, copying, done,
  Writer, idle, begun, storing, System, Move, begin, write, read, duration_set, queue_size_set,
  write_step, begin_step, move, run, opened,
}
use caudio.StatusPage.Views.{Same, same, Same-refl, Same-trans, apply_all-Same, apply-seq, snapshot}
use caudio.StatusPage.Holds.{
  WriterHolds, ReaderHolds, Inv, Fits, with_seq-Same, next_seq, page_when_even,
  read_step-ReaderHolds, publish_all-snoc,
}

-- A sequence number that grows leaves no copy under way that could still be taken.
grown-ReaderHolds :
    (p : ShmStatus) (us us' vs : List ShmStatusUpdate) (seq seq' : ℕ) (r : Reader)
    → us' ≡ us ++ vs
    → seq ≤ seq'
    → ((n : ℕ) → n % 2 ≡ 0 → n ≤ seq → n ≢ seq')
    → ReaderHolds p us seq r
    → ReaderHolds p us' seq' r
unfolding ReaderHolds
grown-ReaderHolds p us us' vs seq seq' trying more le apart h = h
grown-ReaderHolds p us us' vs seq seq' (copying ls out) more le apart (even, below, h) =
    (even, omega (arith, le, below), λ e. absurd (apart out.seq even below e))
grown-ReaderHolds p us us' vs seq seq' (done out) more le apart (before, after, e, q, h) =
    (before, after ++ vs, more ∙ ap (λ t. t ++ vs) e ∙ append_assoc before after vs, q, h)

-- A step of publish, where numbers do not wrap.
write_step-Inv :
    (p page : ShmStatus) (w : Writer) (us : List ShmStatusUpdate) (r : Reader)
    → Fits p us
    → Inv p (record { page = page; writer = w; published = us; reader = r })
    → Inv p (write_step (record { page = page; writer = w; published = us; reader = r }))
unfolding write_step WriterHolds publish
write_step-Inv p page idle us r fits inv = inv
write_step-Inv p page (begun old u) us r fits inv =
    let (o, seq, h) = inv.writer in
    let (even, low, small) = next_seq us p fits in
    record {
      writer = (o, refl, with_seq-Same _ _ (apply_all-Same (stores u) (with_seq-Same _ _ h)));
      reader =
          grown-ReaderHolds p us us [] page.seq _ r (sym (append-nil us)) (omega arith)
            (λ n en le e. omega arith) inv.reader;
    }
write_step-Inv p page (storing old u []) us r fits inv =
    let (o, seq, h) = inv.writer in
    let (even, low, small) = next_seq us p fits in
    record {
      writer = rw (publish_all-snoc us u p) (
        ap (λ k. (k + 2) % word) o,
        with_seq-Same ((old + 2) % word) (publish u (publish_all us p)).seq h,
      );
      reader =
          grown-ReaderHolds p us (us ++ u ∷ []) (u ∷ []) page.seq _ r refl (omega arith)
            (λ n en le e. omega arith) inv.reader;
    }
write_step-Inv p page (storing old u (x ∷ xs)) us r fits inv =
    let (o, seq, h) = inv.writer in
    record { writer = (o, apply-seq x page ∙ seq, h); reader = rw (apply-seq x page) inv.reader }

-- publish begins.
begin_step-Inv :
    (p page : ShmStatus) (u : ShmStatusUpdate) (w : Writer) (us : List ShmStatusUpdate) (r : Reader)
    → Inv p (record { page = page; writer = w; published = us; reader = r })
    → Inv p (begin_step u (record { page = page; writer = w; published = us; reader = r }))
unfolding begin_step WriterHolds
begin_step-Inv p page u idle us r inv =
    let (seq, h) = inv.writer in record { writer = (ap even_seq seq, seq, h); reader = inv.reader }
begin_step-Inv p page u (begun old v) us r inv = inv
begin_step-Inv p page u (storing old v ss) us r inv = inv

-- A store outside of publish.
other_store-WriterHolds :
    (base page page' : ShmStatus) (w : Writer)
    → Same page' page
    → page'.seq ≡ page.seq
    → WriterHolds base page w
    → WriterHolds base page' w
unfolding WriterHolds
other_store-WriterHolds base page page' idle e q (seq, h) = (q ∙ seq, Same-trans e h)
other_store-WriterHolds base page page' (begun old u) e q (o, seq, h) = (o, q ∙ seq, Same-trans e h)
other_store-WriterHolds base page page' (storing old u ss) e q (o, seq, h) =
    (o, q ∙ seq, Same-trans (apply_all-Same ss e) h)

-- Every move, where numbers do not wrap.
move-Inv : (p : ShmStatus) (m : Move) (s : System) → Fits p s.published → Inv p s → Inv p (move m s)
unfolding move
move-Inv p (begin u) s fits inv = begin_step-Inv p s.page u s.writer s.published s.reader inv
move-Inv p write s fits inv = write_step-Inv p s.page s.writer s.published s.reader fits inv
move-Inv p read s fits inv =
    let (even, low, small) = next_seq s.published p fits in
    record {
      writer = inv.writer;
      reader =
          read_step-ReaderHolds p s.page s.published s.reader
            (page_when_even (publish_all s.published p) s.page s.writer even small inv.writer)
            inv.reader;
    }
move-Inv p (duration_set n) s fits inv = record {
  writer =
      other_store-WriterHolds (publish_all s.published p) s.page (record s.page { duration = n })
        s.writer (same refl refl refl refl refl refl refl) refl inv.writer;
  reader = inv.reader;
}
move-Inv p (queue_size_set n) s fits inv = record {
  writer =
      other_store-WriterHolds (publish_all s.published p) s.page (record s.page { queue_size = n })
        s.writer (same refl refl refl refl refl refl refl) refl inv.writer;
  reader = inv.reader;
}

-- No move forgets an update.
move-published : (m : Move) (s : System) → length s.published ≤ length (move m s).published
unfolding move write_step begin_step
move-published (begin u) s =
    elim s.writer
      as (λ w. length s.published ≤ length (begin_step u (record s { writer = w })).published) [
        | idle ↦ omega arith
        | begun old v ↦ omega arith
        | storing old v ss ↦ omega arith
      ]
move-published write s =
    elim s.writer
      as (λ w. length s.published ≤ length (write_step (record s { writer = w })).published) [
        | idle ↦ omega arith
        | begun old v ↦ omega arith
        | storing old v [] ↦ omega (arith, length-append s.published (v ∷ []))
        | storing old v (x ∷ xs) ↦ omega arith
      ]
move-published read s = omega arith
move-published (duration_set n) s = omega arith
move-published (queue_size_set n) s = omega arith

run-published : (ms : List Move) (s : System) → length s.published ≤ length (run ms s).published
unfolding run
run-published [] s = omega arith
run-published (m ∷ ms) s = omega (arith, move-published m s, run-published ms (move m s))

run-Inv :
    (p : ShmStatus) (ms : List Move) (s : System)
    → Fits p (run ms s).published
    → Inv p s
    → Inv p (run ms s)
unfolding run
run-Inv p [] s fits inv = inv
run-Inv p (m ∷ ms) s fits inv =
    run-Inv p ms (move m s) fits
      (move-Inv p m s (omega (arith, fits, run-published ms (move m s), move-published m s)) inv)

opened-Inv : (p : ShmStatus) → Inv p (opened p)
unfolding opened publish_all WriterHolds ReaderHolds
opened-Inv p = record { writer = (refl, Same-refl p); reader = tt }

-- Whatever loads and stores interleave, a copy that snapshot returns is the one that it would make
-- alone after the first of the calls of publish that have ended, with the page's duration and queue
-- size left out, where the sequence numbers do not reach 2^64.
pub run-snapshot_consistent :
    (p : ShmStatus) (ms : List Move) (out : ShmStatus)
    → p.seq + 2 * length (run ms (opened p)).published + 5 < word
    → (run ms (opened p)).reader ≡ done out
    → (before : List ShmStatusUpdate) × (after : List ShmStatusUpdate) × ((run ms
          (opened p)).published
        ≡ before ++ after)
      × (out.seq ≡ (publish_all before p).seq)
      × Same out (snapshot (publish_all before p))
unfolding ReaderHolds
run-snapshot_consistent p ms out fits e =
    rw e at ((run-Inv p ms (opened p) fits (opened-Inv p)).reader)
