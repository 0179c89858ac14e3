-- ===== src/QueueTable/Shift.antt =====
-- Positions without gaps in the table of src/db/queue.cpp, and the shift that closes a gap.
use mathlib.Core.List.{append_assoc, append-nil}
use caudio.Prelude.{
  ℕ, ◌+◌, ◌-◌, ◌≤◌, ◌<◌, ◌≡◌, ◌≢◌, refl, ap, sym, ◌∙◌, inl, inr, Bool-cases, true, false, ◌&&◌,
  List, [], ◌∷◌, ◌++◌, map, some, arith, ltb, ◌==◌,
}
use caudio.QueueTable.{QueueItem, taken_at, in_queue, update_rows, shift_down, delete_at, or_same}
use caudio.QueueTable.Gap.{
  Contiguous, Gap, lowered, lowered_out, lowered_kept, lowered_down, closed-Contiguous,
  other-Contiguous, delete-Gap, delete_other-Contiguous,
}

Below : ℕ → ℕ → List QueueItem → Type 0
Below q m [] = Unit {0}
Below q m (r ∷ rs) = (in_queue q r ≡ true → r.position < m) × Below q m rs

Below-append :
    (q m : ℕ) (xs ys : List QueueItem) → Below q m xs → Below q m ys → Below q m (xs ++ ys)
unfolding Below
Below-append q m [] ys h k = k
Below-append q m (x ∷ xs) ys (one, h) k = (one, Below-append q m xs ys h k)

Below-weaken : (q m n : ℕ) (xs : List QueueItem) → m ≤ n → Below q m xs → Below q n xs
unfolding Below
Below-weaken q m n [] le h = tt
Below-weaken q m n (x ∷ xs) le (one, h) = (λ e. omega (arith, one e), Below-weaken q m n xs le h)

taken_at-Below : (q m : ℕ) (xs : List QueueItem) → Below q m xs → taken_at q m xs ≡ false
unfolding Below taken_at
taken_at-Below q m [] h = refl
taken_at-Below q m (x ∷ xs) (one, h) = elim (Bool-cases (in_queue q x)) [
  | inl e ↦ ground (arith, one e, taken_at-Below q m xs h)
  | inr e ↦ rw e (taken_at-Below q m xs h)
]

-- Behind the gap every position is larger.
taken_at-Gap :
    (q p m n : ℕ) (xs : List QueueItem) → p ≤ m → n ≤ m → Gap q p m xs → taken_at q n xs ≡ false
unfolding Gap taken_at
taken_at-Gap q p m n [] pm nm h = refl
taken_at-Gap q p m n (x ∷ xs) pm nm (one, h) = elim (Bool-cases (in_queue q x)) [
  | inl e ↦
      let rest = taken_at-Gap q p (m + 1) n xs (omega arith) (omega arith) (rw e at h) in
      ground (arith, one e, rest)
  | inr e ↦ rw e (taken_at-Gap q p m n xs pm nm (rw e at h))
]

taken_at-append :
    (q n : ℕ) (xs ys : List QueueItem)
    → taken_at q n xs ≡ false
    → taken_at q n ys ≡ false
    → taken_at q n (xs ++ ys) ≡ false
unfolding taken_at
taken_at-append q n [] ys h k = k
taken_at-append q n (x ∷ xs) ys h k = ground (arith, h, taken_at-append q n xs ys)

-- The shift visits the rows behind the gap in order and meets no position that is taken.
update_rows_lem :
    (q p m : ℕ) (done rs : List QueueItem)
    → Below q m done
    → Gap q p m rs
    → update_rows (λ (r : QueueItem). r.queue_id == q && ltb p r.position) (λ n. n - 1) done rs
      ≡ some (done ++ map (lowered q p) rs)
unfolding update_rows Gap Below
update_rows_lem q p m done [] low h = ap some (sym (append-nil done))
update_rows_lem q p m done (r ∷ rs) low (one, h) = elim (Bool-cases (in_queue q r)) [
  | inr e ↦
      let low' = Below-append q m done (r ∷ []) low (λ t. absurd (ground (arith, e, t)), tt) in
      rw (e, lowered_out q p r e)
        (update_rows_lem q p m (done ++ r ∷ []) rs low' (rw e at h)
          ∙ ap some (append_assoc done (r ∷ []) (map (lowered q p) rs)))
  | inl e ↦ elim (Bool-cases (ltb m p)) [
    | inl before ↦
        let here : r.position ≡ m = ground (arith, one e, before) in
        let stays : ltb p r.position ≡ false = ground (arith, here, before) in
        let low' =
          Below-append q (m + 1) done (r ∷ []) (Below-weaken q m (m + 1) done (omega arith) low)
            (λ _. omega (arith, here), tt) in
        rw (e, stays, lowered_kept q p r stays)
          (update_rows_lem q p (m + 1) (done ++ r ∷ []) rs low' (rw e at h)
            ∙ ap some (append_assoc done (r ∷ []) (map (lowered q p) rs)))
    | inr behind ↦
        let here : r.position ≡ m + 1 = ground (arith, one e, behind) in
        let past : p ≤ m = ground (arith, behind) in
        let goes : ltb p r.position ≡ true = ground (arith, here, past) in
        let down : r.position - 1 ≡ m = omega (arith, here) in
        let same_queue : r.queue_id ≡ q = ground (arith, e) in
        let r' = record r { position = r.position - 1 } in
        let low' =
          Below-append q (m + 1) done (r' ∷ []) (Below-weaken q m (m + 1) done (omega arith) low)
            (λ _. omega (arith, down), tt) in
        let free : taken_at r.queue_id (r.position - 1) (done ++ rs) ≡ false =
          rw (same_queue, down)
            (taken_at-append q m done rs (taken_at-Below q m done low)
              (taken_at-Gap q p (m + 1) m rs (omega arith) (omega arith) (rw e at h))) in
        rw (e, goes, free, lowered_down q p r e goes)
          (update_rows_lem q p (m + 1) (done ++ r' ∷ []) rs low' (rw e at h)
            ∙ ap some (append_assoc done (r' ∷ []) (map (lowered q p) rs)))
  ]
]

-- The shift behind a deleted row.
pub shift_down_lem :
    (q p : ℕ) (rs : List QueueItem)
    → Contiguous q 0 rs
    → shift_down q p (delete_at q p rs) ≡ map (lowered q p) (delete_at q p rs)
unfolding shift_down Below
shift_down_lem q p rs h =
    ap (or_same (delete_at q p rs))
      (update_rows_lem q p 0 [] (delete_at q p rs) tt (delete-Gap q p 0 rs (omega arith) h))

pub removed-Contiguous :
    (q p : ℕ) (rs : List QueueItem)
    → Contiguous q 0 rs
    → Contiguous q 0 (map (lowered q p) (delete_at q p rs))
removed-Contiguous q p rs h =
    closed-Contiguous q p 0 (delete_at q p rs) (delete-Gap q p 0 rs (omega arith) h)

pub removed-Contiguous_other :
    (k q p : ℕ) (rs : List QueueItem)
    → k ≢ q
    → Contiguous k 0 rs
    → Contiguous k 0 (map (lowered q p) (delete_at q p rs))
removed-Contiguous_other k q p rs apart h =
    other-Contiguous k q p 0 (delete_at q p rs) apart (delete_other-Contiguous k q p 0 rs apart h)
