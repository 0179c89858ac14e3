-- ===== src/QueueTable/Gap.antt =====
-- Positions in the table of src/db/queue.cpp: without gaps, and with one that a shift closes.
use caudio.Prelude.{
  ℕ, ◌+◌, ◌-◌, ◌≤◌, ◌<◌, ◌≡◌, ◌≢◌, refl, inl, inr, Bool-cases, true, false, ◌&&◌, List, [], ◌∷◌,
  map, arith, ltb, ◌==◌, if◌then◌else◌,
}
use caudio.QueueTable.{QueueItem, in_queue, delete_at}

-- The next position of queue `q` behind a row.
abbrev pub after : ℕ → QueueItem → ℕ → ℕ
after q r m = if in_queue q r then m + 1 else m

-- The rows of queue `q` have the positions m, m + 1 and so on, by id.
unfoldable pub Contiguous : ℕ → ℕ → List QueueItem → Type 0
Contiguous q m [] = Unit {0}
Contiguous q m (r ∷ rs) = (in_queue q r ≡ true → r.position ≡ m) × Contiguous q (after q r m) rs

-- The same with position `p` left out.
unfoldable pub Gap : ℕ → ℕ → ℕ → List QueueItem → Type 0
Gap q p m [] = Unit {0}
Gap q p m (r ∷ rs) =
    (in_queue q r ≡ true → r.position ≡ (if ltb m p then m else m + 1)) × Gap q p (after q r m) rs

-- A row once the gap is closed.
unfoldable pub lowered : ℕ → ℕ → QueueItem → QueueItem
lowered q p r =
    if in_queue q r && ltb p r.position then record r { position = r.position - 1 } else r

pub lowered_out : (q p : ℕ) (r : QueueItem) → in_queue q r ≡ false → lowered q p r ≡ r
unfolding lowered
lowered_out q p r e = rw e refl

pub lowered_kept : (q p : ℕ) (r : QueueItem) → ltb p r.position ≡ false → lowered q p r ≡ r
unfolding lowered
lowered_kept q p r e = elim (Bool-cases (in_queue q r)) [
  | inl t ↦ rw (t, e) refl
  | inr t ↦ rw t refl
]

pub lowered_down :
    (q p : ℕ) (r : QueueItem)
    → in_queue q r ≡ true
    → ltb p r.position ≡ true
    → lowered q p r ≡ record r { position = r.position - 1 }
unfolding lowered
lowered_down q p r t e = rw (t, e) refl

pub closed-Contiguous :
    (q p m : ℕ) (rs : List QueueItem) → Gap q p m rs → Contiguous q m (map (lowered q p) rs)
unfolding Gap Contiguous
closed-Contiguous q p m [] h = tt
closed-Contiguous q p m (r ∷ rs) (one, h) = elim (Bool-cases (in_queue q r)) [
  | inr e ↦
      rw (lowered_out q p r e, e)
        (λ t. absurd (ground (arith, t)), closed-Contiguous q p m rs (rw e at h))
  | inl e ↦
      let rest = closed-Contiguous q p (m + 1) rs (rw e at h) in
      elim (Bool-cases (ltb p r.position)) [
        | inl t ↦ rw (lowered_down q p r e t, e) (λ _. ground (arith, one e, t), rest)
        | inr t ↦ rw (lowered_kept q p r t, e) (λ _. ground (arith, one e, t), rest)
      ]
]

-- Another queue's rows stay.
pub other-Contiguous :
    (k q p m : ℕ) (rs : List QueueItem)
    → k ≢ q
    → Contiguous k m rs
    → Contiguous k m (map (lowered q p) rs)
unfolding Contiguous
other-Contiguous k q p m [] apart h = tt
other-Contiguous k q p m (r ∷ rs) apart (one, h) =
    let rest = other-Contiguous k q p (after k r m) rs apart h in
    elim (Bool-cases (in_queue q r)) [
      | inr e ↦ rw (lowered_out q p r e) (one, rest)
      | inl e ↦
          let out : in_queue k r ≡ false = ground (arith, e, apart) in
          elim (Bool-cases (ltb p r.position)) [
            | inl t ↦ rw (lowered_down q p r e t) (λ y. absurd (ground (arith, out, y)), rest)
            | inr t ↦ rw (lowered_kept q p r t) (one, rest)
          ]
    ]

-- Positions behind `p` count as one less once the row at `p` is gone.
delete-Gap_behind :
    (q p m : ℕ) (rs : List QueueItem)
    → p ≤ m
    → Contiguous q (m + 1) rs
    → Gap q p m (delete_at q p rs)
unfolding Gap Contiguous
delete-Gap_behind q p m [] le h = tt
delete-Gap_behind q p m (r ∷ rs) le (one, h) = elim (Bool-cases (in_queue q r)) [
  | inr e ↦
      rw e (λ t. absurd (ground (arith, e, t)), rw e (delete-Gap_behind q p m rs le (rw e at h)))
  | inl e ↦
      let stays : (r.position == p) ≡ false = ground (arith, one e, le) in
      rw (e, stays)
        (
          λ _. ground (arith, one e, le),
          rw e (delete-Gap_behind q p (m + 1) rs (omega arith) (rw e at h)),
        )
]

pub delete-Gap :
    (q p m : ℕ) (rs : List QueueItem) → m ≤ p → Contiguous q m rs → Gap q p m (delete_at q p rs)
unfolding Gap Contiguous
delete-Gap q p m [] le h = tt
delete-Gap q p m (r ∷ rs) le (one, h) = elim (Bool-cases (in_queue q r)) [
  | inr e ↦ rw e (λ t. absurd (ground (arith, e, t)), rw e (delete-Gap q p m rs le (rw e at h)))
  | inl e ↦ elim (Bool-cases (r.position == p)) [
    | inl at_p ↦ rw (e, at_p) (delete-Gap_behind q p m rs (ground (arith, one e, at_p)) (rw e at h))
    | inr t ↦
        let low : m < p = ground (arith, one e, t, le) in
        rw (e, t)
          (
            λ _. ground (arith, one e, low),
            rw e (delete-Gap q p (m + 1) rs (omega arith) (rw e at h)),
          )
  ]
]

pub delete_other-Contiguous :
    (k q p m : ℕ) (rs : List QueueItem)
    → k ≢ q
    → Contiguous k m rs
    → Contiguous k m (delete_at q p rs)
unfolding Contiguous
delete_other-Contiguous k q p m [] apart h = tt
delete_other-Contiguous k q p m (r ∷ rs) apart (one, h) =
    elim (Bool-cases (r.queue_id == q && r.position == p)) [
      | inr e ↦ rw e (one, delete_other-Contiguous k q p (after k r m) rs apart h)
      | inl e ↦
          let out : in_queue k r ≡ false = ground (arith, e, apart) in
          rw e (delete_other-Contiguous k q p m rs apart (rw out at h))
    ]
