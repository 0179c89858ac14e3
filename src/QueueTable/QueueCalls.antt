-- ===== src/QueueTable/QueueCalls.antt =====
-- What the calls on the table of queues of src/db/queue.cpp change.
use Prim.Native.String.{String}
use caudio.Prelude.{
  ℕ, ◌≤◌, ◌≡◌, refl, ap, ◌∙◌, inl, inr, Bool-cases, Bool, true, false, not, ◌&&◌, List, [], ◌∷◌,
  ◌++◌, Option, none, some, arith, ◌==◌, if◌then◌else◌, is_empty_string,
}
use caudio.QueueTable.{QueueItem, Sql, or_default, where_rows, in_queue}
use caudio.QueueTable.Queues.{
  Queue, find_queue, next_queue_id, create_queue, delete_queue_row, update_queue, delete_queue,
  with_repeat, with_temp, set_queue_repeat, set_queue_temp,
}

pub data QueueCall : Type 0 where
  creates : String → ℕ → QueueCall
  deletes : ℕ → QueueCall
  repeats : ℕ → ℕ → QueueCall
  temps : ℕ → Bool → QueueCall

pub record Tables : Type 0 where
  pub queues : List Queue
  pub items : List QueueItem

-- The tables behind a call.
unfoldable pub tables_after : Sql → QueueCall → Tables → Tables
unfolding create_queue delete_queue set_queue_repeat set_queue_temp
tables_after w (creates name library) t = record t {
  queues = (create_queue w name library t.queues).0;
}
tables_after w (deletes q) t =
    let (rows, items) = (delete_queue w q t.queues t.items).0 in
    record { queues = rows; items = items }
tables_after w (repeats q mode) t = record t { queues = (set_queue_repeat w q mode t.queues).0 }
tables_after w (temps q temp) t = record t { queues = (set_queue_temp w q temp t.queues).0 }

abbrev mapped : (Queue → Queue) → Option Queue → Option Queue
mapped f none = none
mapped f (some q) = some (f q)

-- The queue with id `k` behind a call, from the one before it.
unfoldable pub queue_after : Sql → QueueCall → List Queue → ℕ → Option Queue
unfolding or_default next_queue_id find_queue
queue_after w (creates name library) rows k =
    if not (is_empty_string name) && (w.is_library library && k == next_queue_id rows)
    then some (record {
      id = next_queue_id rows;
      name = name;
      repeat_mode = 0;
      temp = false;
      library_id = library;
    })
    else find_queue k rows
queue_after w (deletes q) rows k = if k == or_default q then none else find_queue k rows
queue_after w (repeats q mode) rows k =
    if k == or_default q then mapped (with_repeat mode) (find_queue k rows) else find_queue k rows
queue_after w (temps q temp) rows k =
    if k == or_default q then mapped (with_temp temp) (find_queue k rows) else find_queue k rows

-- The entries of queue `k` behind a call, from all those before it.
unfoldable pub items_after : QueueCall → List QueueItem → ℕ → List QueueItem
unfolding or_default
items_after (deletes q) items k = if k == or_default q then [] else where_rows (in_queue k) items
items_after other items k = where_rows (in_queue k) items

find_above : (k : ℕ) (rows : List Queue) → next_queue_id rows ≤ k → find_queue k rows ≡ none
unfolding find_queue next_queue_id
find_above k [] h = refl
find_above k (r ∷ rs) h =
    let other : (r.id == k) ≡ false = ground (arith, h) in
    rw other (find_above k rs (ground (arith, h)))

find-append :
    (k : ℕ) (rows : List Queue) (new : Queue)
    → next_queue_id rows ≤ new.id
    → find_queue k (rows ++ new ∷ []) ≡ (if k == new.id then some new else find_queue k rows)
unfolding find_queue next_queue_id
find-append k [] new low = ground arith
find-append k (r ∷ rs) new low = elim (Bool-cases (r.id == k)) [
  | inl s ↦ let older : (k == new.id) ≡ false = ground (arith, s, low) in rw (s, older) refl
  | inr s ↦ rw s (find-append k rs new (ground (arith, low)))
]

find-delete :
    (k q : ℕ) (rows : List Queue)
    → find_queue k (delete_queue_row q rows) ≡ (if k == q then none else find_queue k rows)
unfolding find_queue delete_queue_row
find-delete k q [] = ground arith
find-delete k q (r ∷ rs) = elim (Bool-cases (r.id == q)) [
  | inl s ↦ rw s (find-delete k q rs ∙ ground (arith, s))
  | inr s ↦ rw s (ground (arith, s, find-delete k q rs))
]

find-update :
    (k q : ℕ) (f : Queue → Queue) (rows : List Queue)
    → ((r : Queue) → (f r).id ≡ r.id)
    → find_queue k (update_queue q f rows)
      ≡ (if k == q then mapped f (find_queue k rows) else find_queue k rows)
unfolding find_queue update_queue
find-update k q f [] keeps = ground arith
find-update k q f (r ∷ rs) keeps =
    let rest = find-update k q f rs keeps in
    let same : (f r).id ≡ r.id = keeps r in
    elim (Bool-cases (r.id == q)) [
      | inl s ↦ elim (Bool-cases (r.id == k)) [
        | inl t ↦
            let here : (k == q) ≡ true = ground (arith, s, t) in
            let t' : ((f r).id == k) ≡ true = ground (arith, same, t) in rw (s, t', t, here) refl
        | inr t ↦ let t' : ((f r).id == k) ≡ false = ground (arith, same, t) in rw (s, t', t) rest
      ]
      | inr s ↦ elim (Bool-cases (r.id == k)) [
        | inl t ↦ let there : (k == q) ≡ false = ground (arith, s, t) in rw (s, t, there) refl
        | inr t ↦ rw (s, t) rest
      ]
    ]

created :
    (w : Sql) (name : String) (library : ℕ) (rows : List Queue)
    → w.opened ≡ true
    → is_empty_string name ≡ false
    → w.is_library library ≡ true
    → (create_queue w name library rows).0
      ≡ rows
        ++ record {
          id = next_queue_id rows;
          name = name;
          repeat_mode = 0;
          temp = false;
          library_id = library;
        }
          ∷ []
unfolding create_queue
created w name library rows opened given known = rw (given, opened, known) refl

queues_after_creates :
    (w : Sql) (name : String) (library k : ℕ) (rows : List Queue)
    → w.opened ≡ true
    → find_queue k (create_queue w name library rows).0
      ≡ queue_after w (creates name library) rows k
unfolding queue_after create_queue
queues_after_creates w name library k rows opened = elim (Bool-cases (is_empty_string name)) [
  | inl empty ↦ rw empty refl
  | inr given ↦ elim (Bool-cases (w.is_library library)) [
    | inr unknown ↦ rw (given, opened, unknown) refl
    | inl known ↦
        rw (created w name library rows opened given known, given, known)
          (find-append k rows
            (record {
              id = next_queue_id rows;
              name = name;
              repeat_mode = 0;
              temp = false;
              library_id = library;
            })
            (omega arith))
  ]
]

cleared_items :
    (k q : ℕ) (items : List QueueItem)
    → where_rows (in_queue k) (where_rows (λ (r : QueueItem). not (in_queue q r)) items)
      ≡ (if k == q then [] else where_rows (in_queue k) items)
cleared_items k q [] = ground arith
cleared_items k q (r ∷ rs) =
    let rest = cleared_items k q rs in
    elim (Bool-cases (r.queue_id == q)) [
      | inl s ↦ elim (Bool-cases (r.queue_id == k)) [
        | inl t ↦
            let here : (k == q) ≡ true = ground (arith, s, t) in rw s (rest ∙ ground (arith, here))
        | inr t ↦ rw (s, t) rest
      ]
      | inr s ↦ elim (Bool-cases (r.queue_id == k)) [
        | inl t ↦
            let there : (k == q) ≡ false = ground (arith, s, t) in
            rw (s, t, there) (ap (◌∷◌ r) (rest ∙ ground (arith, there)))
        | inr t ↦ rw (s, t) rest
      ]
    ]

-- In an open database, behind creating or deleting a queue or setting its repeat mode or its temp
-- flag, every other queue and its entries, with their ids, tracks and positions, are as before; a
-- new queue has an id that no queue had, a deleted one is gone with its entries, and the mode and
-- the flag are the ones that were set.
pub tables_after_lem :
    (w : Sql) (c : QueueCall) (t : Tables)
    → w.opened ≡ true
    → ((k : ℕ)
        → (find_queue k (tables_after w c t).queues ≡ queue_after w c t.queues k)
          × (where_rows (in_queue k) (tables_after w c t).items ≡ items_after c t.items k))
      × (find_queue (next_queue_id t.queues) t.queues ≡ none)
unfolding tables_after items_after queue_after delete_queue set_queue_repeat set_queue_temp
tables_after_lem w (creates name library) t opened = (
  λ k. (queues_after_creates w name library k t.queues opened, refl),
  find_above (next_queue_id t.queues) t.queues (omega arith),
)
tables_after_lem w (deletes q) t opened = (
  λ k. rw opened (find-delete k (or_default q) t.queues, cleared_items k (or_default q) t.items),
  find_above (next_queue_id t.queues) t.queues (omega arith),
)
tables_after_lem w (repeats q mode) t opened = (
  λ k. rw opened (find-update k (or_default q) (with_repeat mode) t.queues (λ r. refl), refl),
  find_above (next_queue_id t.queues) t.queues (omega arith),
)
tables_after_lem w (temps q temp) t opened = (
  λ k. rw opened (find-update k (or_default q) (with_temp temp) t.queues (λ r. refl), refl),
  find_above (next_queue_id t.queues) t.queues (omega arith),
)
