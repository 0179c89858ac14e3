-- ===== src/QueueTable/Refine.antt =====
-- Any sequence of calls on the table of src/db/queue.cpp against lists of tracks.
use caudio.Prelude.{
  ℕ, suc, ◌≡◌, ◌⊎◌, refl, ap, ap₂, sym, ◌∙◌, inl, inr, Bool-cases, true, false, List, [], ◌∷◌, map,
  none, arith, ltb, ◌==◌, if◌then◌else◌, length,
}
use caudio.QueueTable.{
  QueueItem, Sql, or_default, taken_at, where_rows, in_queue, next_position, next_id, delete_at,
  shift_down, queue_index_of,
}
use caudio.QueueTable.Gap.{Contiguous}
use caudio.QueueTable.Rows.{tracks, Ascending, entries-Contiguous, map-track_id}
use caudio.QueueTable.Places.{taken_at_lem, delete_id_lem}
use caudio.QueueTable.Index.{position_of, index_zero, queue_index_of_lem}
use caudio.QueueTable.Calls.{
  Call, appends, dequeues, removes, clears, lists, counts, finds, Reply, all_tracks, number, place,
  reply, item_reply, list_reply, call, run, with_queue, promised, promised_run,
}
use caudio.QueueTable.Stands.{Stands, removed-Stands, appended-Stands, cleared-Stands, place_free}
use caudio.QueueTable.Statements.{
  enqueue_at_end, inserted_free, inserted_unknown, zero_refused, dequeue_none, dequeue_first,
  remove_first, promised_none, promised_first, remove_there, remove_not_there, clear_lem, list_lem,
  count_lem,
}

-- A call keeps the table in step with the lists, and replies as they do.
Agrees : Sql → Call → List QueueItem → (ℕ → List ℕ) → Type 0
Agrees w c rows queues =
    Stands (call w c rows).0 (promised w.is_track c queues).0
    × ((call w c rows).1 ≡ (promised w.is_track c queues).1)

append-Agrees :
    (w : Sql) (q t : ℕ) (rows : List QueueItem) (queues : ℕ → List ℕ)
    → w.opened ≡ true
    → Stands rows queues
    → Agrees w (appends q t) rows queues
unfolding Agrees call promised reply
append-Agrees w qid t rows queues opened h = elim (Bool-cases (t == 0)) [
  | inl none_given ↦ rw (zero_refused w qid t rows none_given, none_given) (h, refl)
  | inr given ↦ elim (Bool-cases (w.is_track t)) [
    | inl known ↦
        rw
          (
            enqueue_at_end w qid t rows opened given,
            inserted_free w q t (next_position q rows) rows free known,
            given,
            known,
          )
          (
            appended-Stands rows queues
                (record {
                  id = next_id rows;
                  queue_id = q;
                  track_id = t;
                  position = next_position q rows;
                  added = w.now;
                })
                refl refl h,
            refl,
          )
    | inr unknown ↦
        rw
          (
            enqueue_at_end w qid t rows opened given,
            inserted_unknown w q t (next_position q rows) rows free unknown,
            given,
            unknown,
          )
          (h, refl)
  ]
]
  where
    q : ℕ
    q = or_default qid

    free : taken_at q (next_position q rows) rows ≡ false
    free =
        taken_at_lem q 0 (next_position q rows) (next_position q rows) rows (omega arith)
          (h.places q)
        ∙ ground (arith, place_free q rows (h.places q))

List-cases :
    (xs : List QueueItem) → (xs ≡ []) ⊎ ((x : QueueItem) × (ys : List QueueItem) × (xs ≡ x ∷ ys))
List-cases [] = inl refl
List-cases (x ∷ xs) = inr (x, xs, refl)

dequeue-Agrees :
    (w : Sql) (q : ℕ) (rows : List QueueItem) (queues : ℕ → List ℕ)
    → w.opened ≡ true
    → Stands rows queues
    → Agrees w (dequeues q) rows queues
unfolding Agrees call item_reply
dequeue-Agrees w qid rows queues opened h = elim (List-cases (where_rows (in_queue q) rows)) [
  | inl e ↦
      rw
        (
          dequeue_none w qid rows opened (entries-Contiguous q 0 rows (h.places q) ∙ e),
          promised_none w qid queues (empty e),
        )
        (h, refl)
  | inr (it, rest, e) ↦
      let (at_0, by_id) = delete_id_lem q 0 0 rows it rest h.ids (h.places q) e in
      rw
        (
          dequeue_first w qid rows it rest opened (entries-Contiguous q 0 rows (h.places q) ∙ e),
          at_0,
          by_id,
          promised_first w qid queues it.track_id (map (λ (r : QueueItem). r.track_id) rest)
              (first it rest e),
        )
        (removed it rest e, refl)
]
  where
    q : ℕ
    q = or_default qid

    empty : where_rows (in_queue q) rows ≡ [] → queues q ≡ []
    empty e =
        sym (h.lists_are q) ∙ sym (map-track_id q rows) ∙ ap (map (λ (r : QueueItem). r.track_id)) e

    first :
        (it : QueueItem) (rest : List QueueItem)
        → where_rows (in_queue q) rows ≡ it ∷ rest
        → queues q ≡ it.track_id ∷ map (λ (r : QueueItem). r.track_id) rest
    first it rest e =
        sym (h.lists_are q) ∙ sym (map-track_id q rows) ∙ ap (map (λ (r : QueueItem). r.track_id)) e

    removed :
        (it : QueueItem) (rest : List QueueItem)
        → where_rows (in_queue q) rows ≡ it ∷ rest
        → Stands
            (shift_down q 0 (delete_at q 0 rows))
            (with_queue q (map (λ (r : QueueItem). r.track_id) rest) queues)
    removed it rest e =
        rw (first it rest e, remove_first it.track_id (map (λ (r : QueueItem). r.track_id) rest)) at
          (removed-Stands q 0 rows queues h)

remove-Agrees :
    (w : Sql) (q p : ℕ) (rows : List QueueItem) (queues : ℕ → List ℕ)
    → w.opened ≡ true
    → Stands rows queues
    → Agrees w (removes q p) rows queues
unfolding Agrees call promised reply
remove-Agrees w qid p rows queues opened h = elim (Bool-cases (ltb p (length (queues q)))) [
  | inl e ↦
      rw (remove_there w qid p rows opened (there ∙ e), e) (removed-Stands q p rows queues h, refl)
  | inr e ↦ rw (remove_not_there w qid p rows opened (there ∙ e), e) (h, refl)
]
  where
    q : ℕ
    q = or_default qid

    there : taken_at q p rows ≡ ltb p (length (queues q))
    there =
        taken_at_lem q 0 p p rows (omega arith) (h.places q)
        ∙ ap (λ t. ltb p (length t)) (h.lists_are q)

length-map_track :
    (rows : List QueueItem) → length (map (λ (r : QueueItem). r.track_id) rows) ≡ length rows
length-map_track [] = refl
length-map_track (r ∷ rows) = ap suc (length-map_track rows)

find-Agrees :
    (w : Sql) (q t : ℕ) (rows : List QueueItem) (queues : ℕ → List ℕ)
    → w.opened ≡ true
    → Stands rows queues
    → queue_index_of w q t rows ≡ (if t == 0 then none else position_of t (queues (or_default q)))
find-Agrees w q t rows queues opened h = elim (Bool-cases (t == 0)) [
  | inl e ↦ rw e (index_zero w q t rows opened e)
  | inr e ↦ rw e (
      queue_index_of_lem w q t rows opened e (h.places (or_default q))
      ∙ ap (position_of t) (h.lists_are (or_default q)))
]

call-Agrees :
    (w : Sql) (c : Call) (rows : List QueueItem) (queues : ℕ → List ℕ)
    → w.opened ≡ true
    → Stands rows queues
    → Agrees w c rows queues
unfolding Agrees call promised reply list_reply
call-Agrees w (appends q t) rows queues opened h = append-Agrees w q t rows queues opened h
call-Agrees w (dequeues q) rows queues opened h = dequeue-Agrees w q rows queues opened h
call-Agrees w (removes q p) rows queues opened h = remove-Agrees w q p rows queues opened h
call-Agrees w (clears q) rows queues opened h =
    rw (clear_lem w q rows opened) (cleared-Stands (or_default q) rows queues h, refl)
call-Agrees w (lists q) rows queues opened h = (
  h,
  ap list_reply (list_lem w q rows opened)
      ∙ ap all_tracks (
          ap (map (λ (r : QueueItem). r.track_id))
            (entries-Contiguous (or_default q) 0 rows (h.places (or_default q)))
          ∙ map-track_id (or_default q) rows
          ∙ h.lists_are (or_default q)),
)
call-Agrees w (counts q) rows queues opened h = (
  h,
  ap number (
      count_lem w q rows opened
      ∙ sym (length-map_track (where_rows (in_queue (or_default q)) rows))
      ∙ ap length (map-track_id (or_default q) rows ∙ h.lists_are (or_default q))),
)
call-Agrees w (finds q t) rows queues opened h =
    (h, ap place (find-Agrees w q t rows queues opened h))

run_lem :
    (w : Sql) (cs : List Call) (rows : List QueueItem) (queues : ℕ → List ℕ)
    → w.opened ≡ true
    → Stands rows queues
    → run w cs rows ≡ promised_run w.is_track cs queues
unfolding run promised_run Agrees
run_lem w [] rows queues opened h = refl
run_lem w (c ∷ cs) rows queues opened h =
    let (stands, same) = call-Agrees w c rows queues opened h in
    ap₂ (λ (r : Reply) (rs : List Reply). r ∷ rs) same (run_lem w cs _ _ opened stands)

-- From an empty table of an open database on, every sequence of calls that append, dequeue, remove,
-- clear, list, count and look for a track, on any queues, replies like a list of tracks for each queue: the first one
-- is dequeued, the one at a position removed, and a track that the database does not have refused.
pub run_refines_lists :
    (w : Sql) (cs : List Call)
    → w.opened ≡ true
    → run w cs [] ≡ promised_run w.is_track cs (λ _. [])
unfolding Ascending Contiguous tracks
run_refines_lists w cs opened =
    run_lem w cs [] (λ _. []) opened (record { ids = tt; places = λ _. tt; lists_are = λ _. refl })
