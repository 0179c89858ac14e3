-- ===== src/QueueTable/Stands.antt =====
-- The table of src/db/queue.cpp and the lists that it stands for, behind each statement.
use native.Mathlib.Decide.{ℕ_discrete}
use mathlib.Core.List.{append-nil}
use caudio.Prelude.{
  ℕ, ◌≡◌, ◌≢◌, refl, ap, sym, ◌∙◌, true, not, ◌&&◌, List, [], ◌∷◌, ◌++◌, map, arith, ◌==◌, length,
}
use caudio.QueueTable.{
  QueueItem, where_rows, in_queue, next_position, next_id, delete_at, shift_down,
}
use caudio.QueueTable.Shift.{shift_down_lem, removed-Contiguous, removed-Contiguous_other}
use caudio.QueueTable.Gap.{Contiguous, lowered}
use caudio.QueueTable.Rows.{
  tracks, Ascending, where_rows-Ascending, lowered-Ascending, append-Ascending, tracks-append,
  tracks-lowered, tracks-where_rows, where_rows-Contiguous, tracks-clear, clear-Contiguous,
}
use caudio.QueueTable.Places.{remove_at, tracks-delete_at, next_position_lem, append-Contiguous}
use caudio.QueueTable.Calls.{with_queue}

-- The table stands for the lists.
pub record Stands (rows : List QueueItem) (queues : ℕ → List ℕ) : Type 0 where
  pub ids : Ascending 0 rows
  pub places : (q : ℕ) → Contiguous q 0 rows
  pub lists_are : (q : ℕ) → tracks q rows ≡ queues q

with_queue_self : (q : ℕ) (ts : List ℕ) (queues : ℕ → List ℕ) → with_queue q ts queues q ≡ ts
with_queue_self q ts queues = ground arith

with_queue_other :
    (q k : ℕ) (ts : List ℕ) (queues : ℕ → List ℕ) → k ≢ q → with_queue q ts queues k ≡ queues k
with_queue_other q k ts queues apart = ground (arith, apart)

lists_of :
    (q : ℕ) (ts : List ℕ) (rows : List QueueItem) (queues : ℕ → List ℕ)
    → tracks q rows ≡ ts
    → ((k : ℕ) → k ≢ q → tracks k rows ≡ queues k)
    → (k : ℕ) → tracks k rows ≡ with_queue q ts queues k
lists_of q ts rows queues here there k = elim (ℕ_discrete q k) [
  | yes e ↦ rw (sym e) at_q
  | no e ↦
      there k (λ same. e (sym same)) ∙ sym (with_queue_other q k ts queues (λ same. e (sym same)))
]
  where
    at_q : tracks q rows ≡ with_queue q ts queues q
    at_q = here ∙ sym (with_queue_self q ts queues)

every_queue :
    (q : ℕ) (rows : List QueueItem)
    → Contiguous q 0 rows
    → ((k : ℕ) → k ≢ q → Contiguous k 0 rows)
    → (k : ℕ) → Contiguous k 0 rows
every_queue q rows here there k = elim (ℕ_discrete q k) [
  | yes e ↦ rw (sym e) here
  | no e ↦ there k (λ same. e (sym same))
]

not_deleted :
    (k q p : ℕ) (r : QueueItem)
    → k ≢ q
    → in_queue k r ≡ true
    → not (r.queue_id == q && r.position == p) ≡ true
not_deleted k q p r apart e = ground (arith, apart, e)

-- A row deleted and the gap closed.
pub removed-Stands :
    (q p : ℕ) (rows : List QueueItem) (queues : ℕ → List ℕ)
    → Stands rows queues
    → Stands (shift_down q p (delete_at q p rows)) (with_queue q (remove_at p (queues q)) queues)
removed-Stands q p rows queues h = rw (shift_down_lem q p rows (h.places q)) record {
  ids = lowered-Ascending q p 0 (delete_at q p rows) (
      where_rows-Ascending (λ (r : QueueItem). not (r.queue_id == q && r.position == p)) 0 rows
        h.ids);
  places =
      every_queue q (map (lowered q p) (delete_at q p rows))
        (removed-Contiguous q p rows (h.places q))
        (λ k apart. removed-Contiguous_other k q p rows apart (h.places k));
  lists_are =
      lists_of q (remove_at p (queues q)) (map (lowered q p) (delete_at q p rows)) queues
        (tracks-lowered q q p (delete_at q p rows)
          ∙ tracks-delete_at q 0 p p rows (omega arith) (h.places q)
          ∙ ap (remove_at p) (h.lists_are q))
        (λ k apart.
          tracks-lowered k q p (delete_at q p rows)
          ∙ tracks-where_rows k (λ (r : QueueItem). not (r.queue_id == q && r.position == p)) rows
              (λ r e. not_deleted k q p r apart e)
          ∙ h.lists_are k);
}

pub place_free :
    (q : ℕ) (rows : List QueueItem)
    → Contiguous q 0 rows
    → next_position q rows ≡ length (tracks q rows)
place_free q rows h = next_position_lem q 0 rows h ∙ ground arith

tracks_new :
    (q : ℕ) (rows : List QueueItem) (new : QueueItem)
    → new.queue_id ≡ q
    → tracks q (rows ++ new ∷ []) ≡ tracks q rows ++ new.track_id ∷ []
unfolding tracks
tracks_new q rows new e =
    tracks-append q rows (new ∷ []) ∙ ap (λ t. tracks q rows ++ t) (ground (arith, e))

tracks_new_other :
    (k : ℕ) (rows : List QueueItem) (new : QueueItem)
    → k ≢ new.queue_id
    → tracks k (rows ++ new ∷ []) ≡ tracks k rows
unfolding tracks
tracks_new_other k rows new apart =
    tracks-append k rows (new ∷ [])
    ∙ ap (λ t. tracks k rows ++ t) {y = []} (ground (arith, apart))
    ∙ append-nil (tracks k rows)

-- A row appended at the next position.
pub appended-Stands :
    (rows : List QueueItem) (queues : ℕ → List ℕ) (new : QueueItem)
    → new.id ≡ next_id rows
    → new.position ≡ next_position new.queue_id rows
    → Stands rows queues
    → Stands
        (rows ++ new ∷ [])
        (with_queue new.queue_id (queues new.queue_id ++ new.track_id ∷ []) queues)
appended-Stands rows queues new id_is at_next h = record {
  ids = append-Ascending 0 rows new (omega arith) (omega (arith, id_is)) h.ids;
  places =
      every_queue new.queue_id (rows ++ new ∷ [])
        (append-Contiguous new.queue_id 0 rows new
          (λ _. omega (arith, at_next, place_free new.queue_id rows (h.places new.queue_id)))
          (h.places new.queue_id))
        (λ k apart.
          append-Contiguous k 0 rows new (λ e. absurd (ground (arith, apart, e))) (h.places k));
  lists_are =
      lists_of new.queue_id (queues new.queue_id ++ new.track_id ∷ []) (rows ++ new ∷ []) queues
        (tracks_new new.queue_id rows new refl
          ∙ ap (λ t. t ++ new.track_id ∷ []) (h.lists_are new.queue_id))
        (λ k apart. tracks_new_other k rows new apart ∙ h.lists_are k);
}

pub cleared-Stands :
    (q : ℕ) (rows : List QueueItem) (queues : ℕ → List ℕ)
    → Stands rows queues
    → Stands (where_rows (λ (r : QueueItem). not (in_queue q r)) rows) (with_queue q [] queues)
cleared-Stands q rows queues h =
    let rows' = where_rows (λ (r : QueueItem). not (in_queue q r)) rows in
    let others : (k : ℕ)
        → k ≢ q
        → (r : QueueItem) → in_queue k r ≡ true
        → not (in_queue q r) ≡ true =
      λ k apart r e. ground (arith, apart, e) in
    record {
      ids = where_rows-Ascending (λ (r : QueueItem). not (in_queue q r)) 0 rows h.ids;
      places = every_queue q rows' (clear-Contiguous q 0 rows) (λ k apart.
          where_rows-Contiguous k 0 (λ (r : QueueItem). not (in_queue q r)) rows (others k apart)
            (h.places k));
      lists_are = lists_of q [] rows' queues (tracks-clear q rows) (λ k apart.
          tracks-where_rows k (λ (r : QueueItem). not (in_queue q r)) rows (others k apart)
          ∙ h.lists_are k);
    }
