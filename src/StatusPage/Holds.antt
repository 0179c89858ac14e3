-- ===== src/StatusPage/Holds.antt =====
-- The reader of src/ipc/shm_status.cpp against its writer, step by step.
use mathlib.Core.List.{append-nil}
use caudio.Prelude.{
  ℕ, ◌+◌, ◌*◌, ◌%◌, ◌≤◌, ◌<◌, ◌≡◌, refl, ap, sym, ◌∙◌, inl, inr, Bool-cases, ◌==◌, List, [], ◌∷◌,
  ◌++◌, word, length, arith,
}
use caudio.StatusPage.{
  ShmStatus, ShmStatusUpdate, apply_all, even_seq, publish, publish_all, loaded, blank, Reader,
  trying, copying, done, read_step, Writer, idle, begun, storing, System,
}
use caudio.StatusPage.Views.{
  Same, same, Same-refl, Same-trans, apply-seq, loaded-Same, copy_all, copy_all-Same, snapshot,
}

pub with_seq-Same :
    {p q : ShmStatus} (m n : ℕ) → Same p q → Same (record p { seq = m }) (record q { seq = n })
with_seq-Same m n (same e1 e2 e3 e4 e5 e6 e7) = same e1 e2 e3 e4 e5 e6 e7

-- The page holds what has been published, or is on the way to the next update.
unfoldable pub WriterHolds : ShmStatus → ShmStatus → Writer → Type 0
WriterHolds base page idle = (page.seq ≡ base.seq) × Same page base
WriterHolds base page (begun old u) =
    (old ≡ even_seq base.seq) × (page.seq ≡ base.seq) × Same page base
WriterHolds base page (storing old u ss) =
    (old ≡ even_seq base.seq)
    × (page.seq ≡ (old + 1) % word)
    × Same (apply_all ss page) (publish u base)

-- A copy is a copy of what some of the calls of publish left.
abbrev pub CopyOf : ShmStatus → List ShmStatusUpdate → ShmStatus → Type 0
CopyOf p us out =
    (before : List ShmStatusUpdate) × (after : List ShmStatusUpdate) × (us ≡ before ++ after)
    × (out.seq ≡ (publish_all before p).seq)
    × Same out (snapshot (publish_all before p))

-- A copy that is under way is right as long as the sequence number stands.
unfoldable pub ReaderHolds : ShmStatus → List ShmStatusUpdate → ℕ → Reader → Type 0
ReaderHolds p us seq trying = Unit {0}
ReaderHolds p us seq (copying ls out) =
    (out.seq % 2 ≡ 0)
    × (out.seq ≤ seq)
    × (out.seq ≡ seq → Same (copy_all ls (publish_all us p) out) (snapshot (publish_all us p)))
ReaderHolds p us seq (done out) = CopyOf p us out

pub record Inv (p : ShmStatus) (s : System) : Type 0 where
  pub writer : WriterHolds (publish_all s.published p) s.page s.writer
  pub reader : ReaderHolds p s.published s.page.seq s.reader

-- Sequence numbers do not wrap.
abbrev pub Fits : ShmStatus → List ShmStatusUpdate → Type 0
Fits p us = p.seq + 2 * length us + 5 < word

even_seq_lem :
    (n : ℕ) → n + 1 < word → (even_seq n % 2 ≡ 0) × (n ≤ even_seq n) × (even_seq n ≤ n + 1)
unfolding even_seq
even_seq_lem n h = elim (Bool-cases (n % 2 == 1)) [ inl e ↦ ground arith | inr e ↦ ground arith ]

even_seq-even : (n : ℕ) → n % 2 ≡ 0 → even_seq n ≡ n
unfolding even_seq
even_seq-even n h = ground arith

pub publish-seq :
    (u : ShmStatusUpdate) (p : ShmStatus) → (publish u p).seq ≡ (even_seq p.seq + 2) % word
unfolding publish
publish-seq u p = refl

publish_all-seq_bound :
    (us : List ShmStatusUpdate) (p : ShmStatus)
    → even_seq p.seq % 2 ≡ 0
    → p.seq ≤ even_seq p.seq
    → even_seq p.seq + 2 * length us + 2 < word
    → (publish_all us p).seq ≤ even_seq p.seq + 2 * length us
unfolding publish_all
publish_all-seq_bound [] p even low h = omega arith
publish_all-seq_bound (u ∷ us) p even low h = omega (
  arith,
  seq,
  again,
  publish_all-seq_bound us (publish u p) (omega (arith, again, even)) (omega (arith, seq, again))
      (omega (arith, again, h)),
)
  where
    seq : (publish u p).seq ≡ even_seq p.seq + 2
    seq = publish-seq u p ∙ omega (arith, h)

    again : even_seq (publish u p).seq ≡ even_seq p.seq + 2
    again =
        ap even_seq {y = even_seq p.seq + 2} seq
        ∙ even_seq-even (even_seq p.seq + 2) (omega (arith, even))

-- What the bound gives for the number that the next publish stores.
pub next_seq :
    (us : List ShmStatusUpdate) (p : ShmStatus)
    → Fits p us
    → (even_seq (publish_all us p).seq % 2 ≡ 0)
      × ((publish_all us p).seq ≤ even_seq (publish_all us p).seq)
      × (even_seq (publish_all us p).seq + 3 < word)
next_seq us p h =
    let start = even_seq_lem p.seq (omega arith) in
    let bound = publish_all-seq_bound us p start.0 start.1 (omega (arith, start)) in
    let next = even_seq_lem (publish_all us p).seq (omega (arith, bound, start)) in
    (next.0, next.1, omega (arith, bound, next, start))

pub publish_all-snoc :
    (us : List ShmStatusUpdate) (u : ShmStatusUpdate) (p : ShmStatus)
    → publish_all (us ++ u ∷ []) p ≡ publish u (publish_all us p)
unfolding publish_all
publish_all-snoc [] u p = refl
publish_all-snoc (v ∷ us) u p = publish_all-snoc us u (publish v p)

-- Where the sequence number is even, the page holds what has been published.
pub page_when_even :
    (base page : ShmStatus) (w : Writer)
    → even_seq base.seq % 2 ≡ 0
    → even_seq base.seq + 3 < word
    → WriterHolds base page w
    → page.seq % 2 ≡ 0
    → (page.seq ≡ base.seq) × Same page base
unfolding WriterHolds
page_when_even base page idle even small h e = h
page_when_even base page (begun old u) even small (o, q, h) e = (q, h)
page_when_even base page (storing old u ss) even small (o, q, h) e = absurd (omega arith)

-- A reader's load.
pub read_step-ReaderHolds :
    (p page : ShmStatus) (us : List ShmStatusUpdate) (r : Reader)
    → (page.seq % 2 ≡ 0 → (page.seq ≡ (publish_all us p).seq) × Same page (publish_all us p))
    → ReaderHolds p us page.seq r
    → ReaderHolds p us page.seq (read_step page r)
unfolding ReaderHolds read_step copy_all snapshot blank
read_step-ReaderHolds p page us trying at_even h = elim (Bool-cases (page.seq % 2 == 1)) [
  | inl odd ↦ rw odd tt
  | inr even ↦
      let e0 : page.seq % 2 ≡ 0 = ground (arith, even) in
      rw even (e0, omega arith, λ e. rw ((at_even e0).0) (Same-refl (snapshot (publish_all us p))))
]
read_step-ReaderHolds p page us (copying [] out) at_even (even, le, h) =
    elim (Bool-cases (page.seq == out.seq)) [
      | inl e ↦
          let same_seq : out.seq ≡ page.seq = ground (arith, e) in
          let here = at_even (omega (arith, even, same_seq)) in
          rw e (us, [], sym (append-nil us), same_seq ∙ here.0, h same_seq)
      | inr e ↦ rw e tt
    ]
read_step-ReaderHolds p page us (copying (l ∷ ls) out) at_even (even, le, h) = (
  omega (arith, even, apply-seq (loaded l page) out),
  omega (arith, le, apply-seq (loaded l page) out),
  λ e.
      let same_seq : out.seq ≡ page.seq = sym (apply-seq (loaded l page) out) ∙ e in
      Same-trans
        (copy_all-Same ls (publish_all us p)
          (loaded-Same l out (at_even (omega (arith, even, same_seq))).1))
        (h same_seq),
)
read_step-ReaderHolds p page us (done out) at_even h = h
