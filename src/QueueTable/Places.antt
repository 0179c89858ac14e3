-- ===== src/QueueTable/Places.antt =====
-- Places in a queue of src/db/queue.cpp whose positions have no gap.
use caudio.Prelude.{
  ℕ, zero, suc, ◌+◌, ◌≤◌, ◌<◌, ◌≡◌, refl, ap, sym, ◌∙◌, inl, inr, Bool-cases, true, false, List, [],
  ◌∷◌, ◌++◌, arith, ltb, ◌==◌, if◌then◌else◌, length,
}
use caudio.QueueTable.{
  QueueItem, taken_at, where_rows, in_queue, next_position, delete_id, delete_at,
}
use caudio.QueueTable.Gap.{Contiguous}
use caudio.QueueTable.Rows.{tracks, Ascending}

-- A list without its element at `n`.
unfoldable pub remove_at : ℕ → List ℕ → List ℕ
remove_at n [] = []
remove_at zero (x ∷ xs) = xs
remove_at (suc n) (x ∷ xs) = x ∷ remove_at n xs

delete_at_behind :
    (q p m : ℕ) (rs : List QueueItem) → p < m → Contiguous q m rs → delete_at q p rs ≡ rs
unfolding Contiguous
delete_at_behind q p m [] lt h = refl
delete_at_behind q p m (r ∷ rs) lt (one, h) = elim (Bool-cases (in_queue q r)) [
  | inl e ↦
      let stays : (r.position == p) ≡ false = ground (arith, one e, lt) in
      rw (e, stays) (ap (λ t. r ∷ t) (delete_at_behind q p (m + 1) rs (omega arith) (rw e at h)))
  | inr e ↦ rw e (ap (λ t. r ∷ t) (delete_at_behind q p m rs lt (rw e at h)))
]

pub tracks-delete_at :
    (q m n p : ℕ) (rs : List QueueItem)
    → p ≡ m + n
    → Contiguous q m rs
    → tracks q (delete_at q p rs) ≡ remove_at n (tracks q rs)
unfolding tracks remove_at Contiguous
tracks-delete_at q m n p [] at_p h = refl
tracks-delete_at q m zero p (r ∷ rs) at_p (one, h) = elim (Bool-cases (in_queue q r)) [
  | inl e ↦
      let goes : (r.position == p) ≡ true = ground (arith, one e, at_p) in
      rw (e, goes) (ap (tracks q) (delete_at_behind q p (m + 1) rs (omega arith) (rw e at h)))
  | inr e ↦ rw (e, e) (tracks-delete_at q m 0 p rs at_p (rw e at h))
]
tracks-delete_at q m (suc n) p (r ∷ rs) at_p (one, h) = elim (Bool-cases (in_queue q r)) [
  | inl e ↦
      let stays : (r.position == p) ≡ false = ground (arith, one e, at_p) in
      rw (e, stays, e)
        (ap (λ t. r.track_id ∷ t)
          (tracks-delete_at q (m + 1) n p rs (omega (arith, at_p)) (rw e at h)))
  | inr e ↦ rw (e, e) (tracks-delete_at q m (suc n) p rs at_p (rw e at h))
]

-- A position is taken where the queue is longer.
pub taken_at_lem :
    (q m n p : ℕ) (rs : List QueueItem)
    → p ≡ m + n
    → Contiguous q m rs
    → taken_at q p rs ≡ ltb n (length (tracks q rs))
unfolding taken_at tracks Contiguous
taken_at_lem q m n p [] at_p h = ground arith
taken_at_lem q m zero p (r ∷ rs) at_p (one, h) = elim (Bool-cases (in_queue q r)) [
  | inl e ↦ rw e (ground (arith, one e, at_p))
  | inr e ↦ rw e (taken_at_lem q m 0 p rs at_p (rw e at h))
]
taken_at_lem q m (suc n) p (r ∷ rs) at_p (one, h) = elim (Bool-cases (in_queue q r)) [
  | inl e ↦
      let rest = taken_at_lem q (m + 1) n p rs (omega arith) (rw e at h) in
      rw e (ground (arith, one e, at_p, rest))
  | inr e ↦ rw e (taken_at_lem q m (suc n) p rs at_p (rw e at h))
]

pub next_position_lem :
    (q m : ℕ) (rs : List QueueItem)
    → Contiguous q m rs
    → next_position q rs ≡ (if length (tracks q rs) == 0 then 0 else m + length (tracks q rs))
unfolding next_position tracks Contiguous
next_position_lem q m [] h = refl
next_position_lem q m (r ∷ rs) (one, h) = elim (Bool-cases (in_queue q r)) [
  | inl e ↦ rw e (ground (arith, one e, next_position_lem q (m + 1) rs (rw e at h)))
  | inr e ↦ rw e (next_position_lem q m rs (rw e at h))
]

pub append-Contiguous :
    (q m : ℕ) (rs : List QueueItem) (new : QueueItem)
    → (in_queue q new ≡ true → new.position ≡ m + length (tracks q rs))
    → Contiguous q m rs
    → Contiguous q m (rs ++ new ∷ [])
unfolding tracks Contiguous
append-Contiguous q m [] new next h = (λ e. omega (arith, next e), tt)
append-Contiguous q m (r ∷ rs) new next (one, h) = elim (Bool-cases (in_queue q r)) [
  | inl e ↦
      let next' = rw e at next in
      (one, rw e (append-Contiguous q (m + 1) rs new (λ t. omega (arith, next' t)) (rw e at h)))
  | inr e ↦ (one, rw e (append-Contiguous q m rs new (rw e at next) (rw e at h)))
]

-- The ids decide: the first row of a queue is the one that its id and its position name.
delete_id_below : (i b : ℕ) (rs : List QueueItem) → i < b → Ascending b rs → delete_id i rs ≡ rs
unfolding Ascending
delete_id_below i b [] lt h = refl
delete_id_below i b (r ∷ rs) lt (one, h) =
    let stays : (r.id == i) ≡ false = ground (arith, one, lt) in
    rw stays (ap (λ t. r ∷ t) (delete_id_below i (r.id + 1) rs (omega arith) h))

first_id :
    (q b : ℕ) (rs : List QueueItem) (it : QueueItem) (rest : List QueueItem)
    → Ascending b rs
    → where_rows (in_queue q) rs ≡ it ∷ rest
    → b ≤ it.id
unfolding Ascending
first_id q b [] it rest h e = cc
first_id q b (r ∷ rs) it rest (one, h) e = elim (Bool-cases (in_queue q r)) [
  | inl t ↦
      let whole = rw t at e in
      let same : r ≡ it = cc whole in omega (arith, ap (λ (x : QueueItem). x.id) same)
  | inr t ↦ omega (arith, first_id q (r.id + 1) rs it rest h (rw t at e))
]

pub delete_id_lem :
    (q b m : ℕ) (rs : List QueueItem) (it : QueueItem) (rest : List QueueItem)
    → Ascending b rs
    → Contiguous q m rs
    → where_rows (in_queue q) rs ≡ it ∷ rest
    → (it.position ≡ m) × (delete_id it.id rs ≡ delete_at q m rs)
unfolding Ascending Contiguous
delete_id_lem q b m [] it rest low h e = cc
delete_id_lem q b m (r ∷ rs) it rest (one, low) (at_m, h) e = elim (Bool-cases (in_queue q r)) [
  | inl t ↦
      let whole = rw t at e in
      let same : it ≡ r = cc whole in
      let here : (r.position == m) ≡ true = ground (arith, at_m t) in
      let its_id : it.id ≡ r.id = ap (λ (x : QueueItem). x.id) same in
      let itself : (r.id == it.id) ≡ true = ground (arith, its_id) in
      let at_it : it.position ≡ m = ap (λ (x : QueueItem). x.position) same ∙ at_m t in
      rw (t, here, itself)
        (
          at_it,
          delete_id_below it.id (r.id + 1) rs (omega (arith, its_id)) low
              ∙ sym (delete_at_behind q m (m + 1) rs (omega arith) (rw t at h)),
        )
  | inr t ↦
      let whole = rw t at e in
      let later = first_id q (r.id + 1) rs it rest low whole in
      let stays : (r.id == it.id) ≡ false = ground (arith, later) in
      let (p, d) = delete_id_lem q (r.id + 1) m rs it rest low (rw t at h) whole in
      (p, rw (stays, t) (ap (λ x. r ∷ x) d))
]
