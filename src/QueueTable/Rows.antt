-- ===== src/QueueTable/Rows.antt =====
-- The rows of one queue in the table of src/db/queue.cpp, as a list.
use caudio.Prelude.{
  ℕ, ◌+◌, ◌≤◌, ◌≡◌, refl, ap, ◌∙◌, inl, inr, Bool-cases, Bool, true, false, not, ◌&&◌, List, [],
  ◌∷◌, ◌++◌, map, arith, ltb, if◌then◌else◌,
}
use caudio.QueueTable.{
  QueueItem, where_rows, in_queue, next_id, insert_sorted, by_position, entries,
}
use caudio.QueueTable.Gap.{after, Contiguous, lowered}

-- The tracks of a queue.
unfoldable pub tracks : ℕ → List QueueItem → List ℕ
tracks q [] = []
tracks q (r ∷ rs) = let rest = tracks q rs in if in_queue q r then r.track_id ∷ rest else rest

-- The rows are listed by id, from `b` on.
unfoldable pub Ascending : ℕ → List QueueItem → Type 0
Ascending b [] = Unit {0}
Ascending b (r ∷ rs) = (b ≤ r.id) × Ascending (r.id + 1) rs

Ascending-weaken : (a b : ℕ) (rs : List QueueItem) → a ≤ b → Ascending b rs → Ascending a rs
unfolding Ascending
Ascending-weaken a b [] le h = tt
Ascending-weaken a b (r ∷ rs) le (one, h) = (omega arith, h)

pub where_rows-Ascending :
    (p : QueueItem → Bool) (b : ℕ) (rs : List QueueItem)
    → Ascending b rs
    → Ascending b (where_rows p rs)
unfolding Ascending
where_rows-Ascending p b [] h = tt
where_rows-Ascending p b (r ∷ rs) (one, h) = elim (Bool-cases (p r)) [
  | inl e ↦ rw e (one, where_rows-Ascending p (r.id + 1) rs h)
  | inr e ↦ rw e (
      Ascending-weaken b (r.id + 1) (where_rows p rs) (omega arith)
        (where_rows-Ascending p (r.id + 1) rs h))
]

lowered-id : (q p : ℕ) (r : QueueItem) → (lowered q p r).id ≡ r.id
unfolding lowered
lowered-id q p r = ground arith

pub lowered-Ascending :
    (q p b : ℕ) (rs : List QueueItem) → Ascending b rs → Ascending b (map (lowered q p) rs)
unfolding Ascending
lowered-Ascending q p b [] h = tt
lowered-Ascending q p b (r ∷ rs) (one, h) =
    rw (lowered-id q p r) (one, lowered-Ascending q p (r.id + 1) rs h)

pub append-Ascending :
    (b : ℕ) (rs : List QueueItem) (new : QueueItem)
    → b ≤ new.id
    → next_id rs ≤ new.id
    → Ascending b rs
    → Ascending b (rs ++ new ∷ [])
unfolding Ascending next_id
append-Ascending b [] new low next h = (low, tt)
append-Ascending b (r ∷ rs) new low next (one, h) =
    (one, append-Ascending (r.id + 1) rs new (ground (arith, next)) (ground (arith, next)) h)

pub next_id_pos : (rs : List QueueItem) → 1 ≤ next_id rs
unfolding next_id
next_id_pos [] = omega arith
next_id_pos (r ∷ rs) = ground (arith, next_id_pos rs)

-- ORDER BY position finds the rows in order.
insert_sorted-Contiguous :
    (q m : ℕ) (r : QueueItem) (rs : List QueueItem)
    → r.position ≤ m
    → Contiguous q m rs
    → insert_sorted r (where_rows (in_queue q) rs) ≡ r ∷ where_rows (in_queue q) rs
unfolding insert_sorted Contiguous
insert_sorted-Contiguous q m r [] le h = refl
insert_sorted-Contiguous q m r (s ∷ rs) le (one, h) = elim (Bool-cases (in_queue q s)) [
  | inl e ↦ rw e (ground (arith, one e))
  | inr e ↦ rw e (insert_sorted-Contiguous q m r rs le (rw e at h))
]

pub entries-Contiguous :
    (q m : ℕ) (rs : List QueueItem) → Contiguous q m rs → entries q rs ≡ where_rows (in_queue q) rs
unfolding entries by_position Contiguous
entries-Contiguous q m [] h = refl
entries-Contiguous q m (r ∷ rs) (one, h) = elim (Bool-cases (in_queue q r)) [
  | inl e ↦
      let rest = entries-Contiguous q (m + 1) rs (rw e at h) in
      rw e (
        ap (insert_sorted r) rest
        ∙ insert_sorted-Contiguous q (m + 1) r rs (omega (arith, one e)) (rw e at h))
  | inr e ↦ rw e (entries-Contiguous q m rs (rw e at h))
]

pub map-track_id :
    (q : ℕ) (rs : List QueueItem)
    → map (λ (r : QueueItem). r.track_id) (where_rows (in_queue q) rs) ≡ tracks q rs
unfolding tracks
map-track_id q [] = refl
map-track_id q (r ∷ rs) = elim (Bool-cases (in_queue q r)) [
  | inl e ↦ rw e (ap (λ t. r.track_id ∷ t) (map-track_id q rs))
  | inr e ↦ rw e (map-track_id q rs)
]

pub tracks-append :
    (q : ℕ) (xs ys : List QueueItem) → tracks q (xs ++ ys) ≡ tracks q xs ++ tracks q ys
unfolding tracks
tracks-append q [] ys = refl
tracks-append q (x ∷ xs) ys = elim (Bool-cases (in_queue q x)) [
  | inl e ↦ rw e (ap (λ t. x.track_id ∷ t) (tracks-append q xs ys))
  | inr e ↦ rw e (tracks-append q xs ys)
]

pub tracks-lowered :
    (k q p : ℕ) (rs : List QueueItem) → tracks k (map (lowered q p) rs) ≡ tracks k rs
unfolding tracks lowered
tracks-lowered k q p [] = refl
tracks-lowered k q p (r ∷ rs) = elim (Bool-cases (in_queue q r && ltb p r.position)) [
  | inl e ↦ rw e (ap (λ t. if in_queue k r then r.track_id ∷ t else t) (tracks-lowered k q p rs))
  | inr e ↦ rw e (ap (λ t. if in_queue k r then r.track_id ∷ t else t) (tracks-lowered k q p rs))
]

-- A DELETE that names no row of queue `k`.
pub tracks-where_rows :
    (k : ℕ) (p : QueueItem → Bool) (rs : List QueueItem)
    → ((r : QueueItem) → in_queue k r ≡ true → p r ≡ true)
    → tracks k (where_rows p rs) ≡ tracks k rs
unfolding tracks
tracks-where_rows k p [] keeps = refl
tracks-where_rows k p (r ∷ rs) keeps = elim (Bool-cases (in_queue k r)) [
  | inl e ↦ rw (keeps r e, e) (ap (λ t. r.track_id ∷ t) (tracks-where_rows k p rs keeps))
  | inr e ↦ elim (Bool-cases (p r)) [
    | inl t ↦ rw (t, e) (tracks-where_rows k p rs keeps)
    | inr t ↦ rw (t, e) (tracks-where_rows k p rs keeps)
  ]
]

pub where_rows-Contiguous :
    (k m : ℕ) (p : QueueItem → Bool) (rs : List QueueItem)
    → ((r : QueueItem) → in_queue k r ≡ true → p r ≡ true)
    → Contiguous k m rs
    → Contiguous k m (where_rows p rs)
unfolding Contiguous
where_rows-Contiguous k m p [] keeps h = tt
where_rows-Contiguous k m p (r ∷ rs) keeps (one, h) = elim (Bool-cases (p r)) [
  | inl t ↦ rw t (one, where_rows-Contiguous k (after k r m) p rs keeps h)
  | inr t ↦
      let out : in_queue k r ≡ false = ground (arith, keeps r, t) in
      rw t (where_rows-Contiguous k m p rs keeps (rw out at h))
]

pub tracks-clear :
    (q : ℕ) (rs : List QueueItem)
    → tracks q (where_rows (λ (r : QueueItem). not (in_queue q r)) rs) ≡ []
unfolding tracks
tracks-clear q [] = refl
tracks-clear q (r ∷ rs) = elim (Bool-cases (in_queue q r)) [
  | inl e ↦ rw e (tracks-clear q rs)
  | inr e ↦ rw (e, e) (tracks-clear q rs)
]

pub clear-Contiguous :
    (q m : ℕ) (rs : List QueueItem)
    → Contiguous q m (where_rows (λ (r : QueueItem). not (in_queue q r)) rs)
unfolding Contiguous
clear-Contiguous q m [] = tt
clear-Contiguous q m (r ∷ rs) = elim (Bool-cases (in_queue q r)) [
  | inl e ↦ rw e (clear-Contiguous q m rs)
  | inr e ↦ rw (e, e) (λ t. absurd (ground (arith, t)), clear-Contiguous q m rs)
]
