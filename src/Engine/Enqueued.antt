-- ===== src/Engine/Enqueued.antt =====
-- noteEnqueued of src/engine/engine.cpp keeps the shuffle order an order of the whole queue.
use mathlib.Core.List.{Perm}
use mathlib.Core.List.Perm
use caudio.Prelude.{ℕ, zero, suc, ◌+◌, ◌≡◌, ◌≢◌, ap, ◌∙◌, true, false, ◌∷◌, ◌++◌, arith}
use caudio.Engine.{Floats, World, Engine}
use caudio.Engine.Persist.{has_db, persist_shuffle_blob_locked}
use caudio.Engine.Traverse.{is_empty, positions}
use caudio.Engine.Settings.{note_enqueued}

positions-append : (b m n : ℕ) → positions b m ++ positions (b + m) n ≡ positions b (m + n)
positions-append b zero n = ap (λ (c : ℕ). positions c n) no_shift ∙ ap (positions b) none_more
  where
    no_shift : b + 0 ≡ b
    no_shift = omega arith

    none_more : n ≡ 0 + n
    none_more = omega arith
positions-append b (suc m) n =
    ap (◌∷◌ b)
      (ap (λ (c : ℕ). positions (b + 1) m ++ positions c n) shifted ∙ positions-append (b + 1) m n)
    ∙ ap (positions b) counted
  where
    shifted : b + suc m ≡ b + 1 + m
    shifted = omega arith

    counted : suc (m + n) ≡ suc m + n
    counted = omega arith

module _ {F : Type 0} ⦃fl : Floats F⦄ (w : World F) where
  perm-note_enqueued :
      (qid count old : ℕ) (e : Engine F)
      → has_db w e ≡ true
      → w.queue_free ≡ true
      → e.queue.queue_id ≡ qid
      → e.queue.shuffle ≡ true
      → is_empty e.queue.perm ≡ false
      → count ≢ 0
      → w.db.queue_count qid ≡ old + count
      → (note_enqueued w qid count e).queue.perm ≡ e.queue.perm ++ positions old count
  unfolding note_enqueued persist_shuffle_blob_locked
  perm-note_enqueued qid count old e d free q s p c n = ground arith

  -- With shuffle on, the order drawn for the active queue's `old` tracks and `count` more at the end
  -- of the queue, `noteEnqueued` leaves an order of all its tracks, the old part unchanged.
  pub note_enqueued-Perm :
      (qid count old : ℕ) (e : Engine F)
      → has_db w e ≡ true
      → w.queue_free ≡ true
      → e.queue.queue_id ≡ qid
      → e.queue.shuffle ≡ true
      → is_empty e.queue.perm ≡ false
      → count ≢ 0
      → w.db.queue_count qid ≡ old + count
      → Perm e.queue.perm (positions 0 old)
      → ((note_enqueued w qid count e).queue.perm ≡ e.queue.perm ++ positions old count)
        × Perm (note_enqueued w qid count e).queue.perm (positions 0 (old + count))
  note_enqueued-Perm qid count old e d free q s p c n h = (grown, all)
    where
      grown : (note_enqueued w qid count e).queue.perm ≡ e.queue.perm ++ positions old count
      grown = perm-note_enqueued qid count old e d free q s p c n

      shifted : old ≡ 0 + old
      shifted = omega arith

      whole_order : positions 0 old ++ positions old count ≡ positions 0 (old + count)
      whole_order =
          ap (λ (c : ℕ). positions 0 old ++ positions c count) shifted
          ∙ positions-append 0 old count

      all : Perm (note_enqueued w qid count e).queue.perm (positions 0 (old + count))
      all = rw (grown, ← whole_order) (Perm.append_right (positions old count) h)
