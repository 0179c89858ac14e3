-- ===== src/QueueTable/Index.antt =====
-- queueIndexOfLocked of src/db/queue.cpp on a queue whose positions have no gap.
use caudio.Prelude.{
  ℕ, zero, suc, ◌+◌, ◌≤◌, ◌<◌, ◌≡◌, refl, ap, sym, ◌∙◌, inl, inr, Bool-cases, Option-cases, Bool,
  true, false, ◌&&◌, List, [], ◌∷◌, Option, none, some, arith, ltb, ◌==◌, if◌then◌else◌, length,
}
use caudio.QueueTable.{
  QueueItem, Sql, or_default, where_rows, in_queue, min_position, queue_index_of,
}
use caudio.QueueTable.Gap.{Contiguous}
use caudio.QueueTable.Rows.{tracks}

abbrev raised : ℕ → Option ℕ → Option ℕ
raised m none = none
raised m (some n) = some (m + n)

-- The first place of a track in a list.
unfoldable pub position_of : ℕ → List ℕ → Option ℕ
position_of t [] = none
position_of t (x ∷ xs) = let rest = position_of t xs in if x == t then some 0 else raised 1 rest

min_position_lem :
    (q t m : ℕ) (rs : List QueueItem)
    → Contiguous q m rs
    → min_position q t rs ≡ raised m (position_of t (tracks q rs))
unfolding min_position position_of tracks Contiguous
min_position_lem q t m [] h = refl
min_position_lem q t m (r ∷ rs) (one, h) = elim (Bool-cases (in_queue q r)) [
  | inr e ↦ rw e (min_position_lem q t m rs (rw e at h))
  | inl e ↦
      let rest = min_position_lem q t (m + 1) rs (rw e at h) in
      elim (Option-cases (position_of t (tracks q rs))) [
        | inl none_behind ↦ elim (Bool-cases (r.track_id == t)) [
          | inl s ↦ rw (e, s, rest, none_behind) (ap some (omega (arith, one e)))
          | inr s ↦ rw (e, s, rest, none_behind) refl
        ]
        | inr (n, behind) ↦ elim (Bool-cases (r.track_id == t)) [
          | inl s ↦ rw (e, s, rest, behind) (ground (arith, one e))
          | inr s ↦ rw (e, s, rest, behind) (ap some (omega arith))
        ]
      ]
]

place_below : (t n : ℕ) (xs : List ℕ) → position_of t xs ≡ some n → n < length xs
unfolding position_of
place_below t n [] e = cc
place_below t n (x ∷ xs) e = elim (Bool-cases (x == t)) [
  | inl s ↦ ground (arith, s, e)
  | inr s ↦ elim (Option-cases (position_of t xs)) [
    | inl none_behind ↦ absurd (ground (arith, s, none_behind, e))
    | inr (k, behind) ↦ ground (arith, s, behind, place_below t k xs behind, e)
  ]
]

abbrev before : ℕ → ℕ → QueueItem → Bool
before q p r = r.queue_id == q && ltb r.position p

count_none :
    (q m p : ℕ) (rs : List QueueItem)
    → p ≤ m
    → Contiguous q m rs
    → length (where_rows (before q p) rs) ≡ 0
unfolding Contiguous
count_none q m p [] le h = refl
count_none q m p (r ∷ rs) le (one, h) = elim (Bool-cases (in_queue q r)) [
  | inr e ↦ rw e (count_none q m p rs le (rw e at h))
  | inl e ↦
      let out : ltb r.position p ≡ false = ground (arith, one e, le) in
      rw (e, out) (count_none q (m + 1) p rs (omega arith) (rw e at h))
]

count_before :
    (q m n p : ℕ) (rs : List QueueItem)
    → p ≡ m + n
    → n ≤ length (tracks q rs)
    → Contiguous q m rs
    → length (where_rows (before q p) rs) ≡ n
unfolding tracks Contiguous
count_before q m n p [] at_p le h = omega arith
count_before q m zero p (r ∷ rs) at_p le h = count_none q m p (r ∷ rs) (omega arith) h
count_before q m (suc n) p (r ∷ rs) at_p le (one, h) = elim (Bool-cases (in_queue q r)) [
  | inr e ↦ rw e (count_before q m (suc n) p rs at_p (rw e at le) (rw e at h))
  | inl e ↦
      let le' = rw e at le in
      let counted : ltb r.position p ≡ true = ground (arith, one e, at_p) in
      rw (e, counted)
        (ap suc
          (count_before q (m + 1) n p rs (omega (arith, at_p)) (omega (arith, le')) (rw e at h)))
]

index_none :
    (w : Sql) (q t : ℕ) (rows : List QueueItem)
    → w.opened ≡ true
    → (t == 0) ≡ false
    → min_position (or_default q) t rows ≡ none
    → queue_index_of w q t rows ≡ none
unfolding queue_index_of
index_none w q t rows opened given e = rw (opened, given, e) refl

index_some :
    (w : Sql) (q t p : ℕ) (rows : List QueueItem)
    → w.opened ≡ true
    → (t == 0) ≡ false
    → min_position (or_default q) t rows ≡ some p
    → queue_index_of w q t rows ≡ some (length (where_rows (before (or_default q) p) rows))
unfolding queue_index_of
index_some w q t p rows opened given e = rw (opened, given, e) refl

pub index_zero :
    (w : Sql) (q t : ℕ) (rows : List QueueItem)
    → w.opened ≡ true
    → (t == 0) ≡ true
    → queue_index_of w q t rows ≡ none
unfolding queue_index_of
index_zero w q t rows opened e = rw (opened, e) refl

pub queue_index_of_lem :
    (w : Sql) (qid t : ℕ) (rows : List QueueItem)
    → w.opened ≡ true
    → (t == 0) ≡ false
    → Contiguous (or_default qid) 0 rows
    → queue_index_of w qid t rows ≡ position_of t (tracks (or_default qid) rows)
queue_index_of_lem w qid t rows opened given h =
    elim (Option-cases (position_of t (tracks q rows))) [
      | inl e ↦ index_none w qid t rows opened given (place ∙ ap (raised 0) e) ∙ sym e
      | inr (n, e) ↦
          index_some w qid t (0 + n) rows opened given (place ∙ ap (raised 0) e)
          ∙ ap some (
              count_before q 0 n (0 + n) rows refl
                (omega (arith, place_below t n (tracks q rows) e)) h)
          ∙ sym e
    ]
  where
    q : ℕ
    q = or_default qid

    place : min_position q t rows ≡ raised 0 (position_of t (tracks q rows))
    place = min_position_lem q t 0 rows h
