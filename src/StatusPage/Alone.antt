-- ===== src/StatusPage/Alone.antt =====
-- A reader of src/ipc/shm_status.cpp that no writer disturbs.
use caudio.Prelude.{
  ℕ, zero, suc, ◌+◌, ◌%◌, ◌≡◌, refl, ap, ◌∙◌, List, [], ◌∷◌, length, replicate, arith,
}
use caudio.StatusPage.{
  ShmStatus, Load, copies, loads, loaded, blank, apply, trying, copying, done, read_step, System,
  Move, read, move, run,
}
use caudio.StatusPage.Views.{apply-seq, copy_all, snapshot}

length-copies : (get : ℕ → Load) (i n : ℕ) → length (copies get i n) ≡ n
unfolding copies
length-copies get i zero = refl
length-copies get i (suc n) = ap suc (length-copies get (i + 1) n)

-- From the first load of a copy on.
run-copying :
    (ls : List Load) (out : ShmStatus) (s : System)
    → s.reader ≡ copying ls out
    → out.seq ≡ s.page.seq
    → run (replicate (suc (length ls)) read) s ≡ record s { reader = done (copy_all ls s.page out) }
unfolding run move read_step copy_all
run-copying [] out s e q = rw (e, q) (ground arith)
run-copying (l ∷ ls) out s e q = rw e (
    run-copying ls (apply (loaded l s.page) out)
      (record s { reader = copying ls (apply (loaded l s.page) out) }) refl
      (apply-seq (loaded l s.page) out ∙ q))

start_copy :
    (s : System)
    → s.page.seq % 2 ≡ 0
    → s.reader ≡ trying
    → move read s ≡ record s { reader = copying loads (blank s.page.seq) }
unfolding move read_step
start_copy s even e = rw e (ground (arith, even))

blank-seq : (n : ℕ) → (blank n).seq ≡ n
unfolding blank
blank-seq n = refl

run-cons : (m : Move) (ms : List Move) (s : System) → run (m ∷ ms) s ≡ run ms (move m s)
unfolding run
run-cons m ms s = refl

-- With an even sequence number on the page and no move of anyone else, a reader is done after the
-- loads of one copy and the two of the sequence number, with a copy of the page.
pub run-read_alone :
    (s : System)
    → s.page.seq % 2 ≡ 0
    → s.reader ≡ trying
    → run (replicate (suc (suc (length loads))) read) s
      ≡ record s { reader = done (snapshot s.page) }
unfolding snapshot
run-read_alone s even e =
    run-cons read (replicate (suc (length loads)) read) s
    ∙ ap (run (replicate (suc (length loads)) read)) (start_copy s even e)
    ∙ run-copying loads (blank s.page.seq) (record s { reader = copying loads (blank s.page.seq) })
        refl (blank-seq s.page.seq)
