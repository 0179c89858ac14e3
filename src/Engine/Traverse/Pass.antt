-- ===== src/Engine/Traverse/Pass.antt =====
-- One pass of the shuffled order that setShuffleLocked of src/engine/engine.cpp draws.
use mathlib.Core.List.{Perm, Permᴰ, Mem, mem-cons, not-mem-nil, mem-cons_self, mem-cons_of_mem}
use mathlib.Core.List.Perm
use mathlib.Core.Logic.{∥∥₁_elim}
use mathlib.Core.Logic.Or
use native.Mathlib.Nat.{mod-eq_of_lt, ℕ_set}
use native.Mathlib.Numerals.{add-one}
use native.Mathlib.Bridge.{le_prop}
use caudio.Prelude.{
  ℕ, zero, suc, ◌+◌, ◌%◌, ◌<◌, ◌≡◌, ◌≢◌, refl, sym, ap, ap₂, ◌∙◌, true, false, List, [], ◌∷◌, map,
  arith, word, length, get_or, Expected, ok,
}
use caudio.Engine.{Floats, Track, QueueState, World, Engine}
use caudio.Engine.Persist.{persist_shuffle_blob_locked, has_db}
use caudio.Engine.Traverse.Cycle.{next_run}
use caudio.Engine.Traverse.Shuffled.{Draws, item, next_run_shuffled}
use caudio.Engine.Traverse.{is_one, positions, set_shuffle_locked}

length-permᴰ : {xs ys : List ℕ} → Permᴰ xs ys → length xs ≡ length ys
length-permᴰ Permᴰ.nil = refl
length-permᴰ (Permᴰ.cons x h) = ap suc (length-permᴰ h)
length-permᴰ (Permᴰ.swap p q) = refl
length-permᴰ (Permᴰ.trans h k) = length-permᴰ h ∙ length-permᴰ k

length-perm : {xs ys : List ℕ} → Perm xs ys → length xs ≡ length ys
length-perm h = ∥∥₁_elim h (ℕ_set _ _) length-permᴰ

length-positions : (b n : ℕ) → length (positions b n) ≡ n
length-positions b zero = refl
length-positions b (suc n) = ap suc (length-positions (b + 1) n)

mem-positions : (b n a : ℕ) → Mem a (positions b n) → a < b + n
mem-positions b zero a m = absurd (not-mem-nil m)
mem-positions b (suc n) a m =
    Or.elim le_prop (mem-cons.0 m) (λ e. omega arith)
      (λ m'. omega (arith, mem-positions (b + 1) n a m'))

mem-get_or : (xs : List ℕ) (i : ℕ) → i < length xs → Mem (get_or xs i 0) xs
mem-get_or [] i lt = absurd (omega arith)
mem-get_or (x ∷ xs) zero lt = mem-cons_self
mem-get_or (x ∷ xs) (suc i) lt = mem-cons_of_mem x (mem-get_or xs i (omega arith))

module _ {B : Type 0} where
  map-positions_ext :
      (f g : ℕ → B) (b n : ℕ)
      → ((i : ℕ) → i < b + n → f i ≡ g i)
      → map f (positions b n) ≡ map g (positions b n)
  map-positions_ext f g b zero h = refl
  map-positions_ext f g b (suc n) h =
      ap₂ ◌∷◌ (h b (omega arith)) (map-positions_ext f g (b + 1) n (λ i lt. h i (omega arith)))

  map-positions_shift :
      (f : ℕ → B) (b n : ℕ) → map f (positions (b + 1) n) ≡ map (λ i. f (i + 1)) (positions b n)
  map-positions_shift f b zero = refl
  map-positions_shift f b (suc n) = ap (◌∷◌ (f (b + 1))) (map-positions_shift f (b + 1) n)

  -- A list read off by its indices.
  map-get_or :
      (f : ℕ → B) (xs : List ℕ) → map (λ i. f (get_or xs i 0)) (positions 0 (length xs)) ≡ map f xs
  map-get_or f [] = refl
  map-get_or f (x ∷ xs) = ap (◌∷◌ (f x)) (
      map-positions_shift (λ i. f (get_or (x ∷ xs) i 0)) 0 (length xs)
      ∙ map-positions_ext _ _ 0 (length xs) (λ i lt. rw add-one)
      ∙ map-get_or f xs)

module _ {F : Type 0} ⦃fl : Floats F⦄ (w : World F) (track_at : ℕ → Track F) (cnt : ℕ) where
  -- A queue of `cnt` tracks, none of which fails to load, with no shuffle order yet.
  pub record Undrawn (e : Engine F) : Type 0 where
    pub open_db : has_db w e ≡ true
    pub no_order : e.queue.perm ≡ []
    pub named : e.queue.queue_id ≢ 0
    pub wraps : is_one e.queue.repeat ≡ false
    pub counted : w.db.queue_count e.queue.queue_id ≡ cnt
    pub loads : (p : ℕ) → p < cnt → w.db.queue_track_at e.queue.queue_id p ≡ ok (track_at p)
    pub nonempty : 0 < cnt
    pub sized : cnt < word
    pub fair : Perm (w.shuffled (positions 0 cnt)) (positions 0 cnt)

  queue-set_shuffle :
      (e : Engine F)
      → Undrawn e
      → (set_shuffle_locked w true e).0.queue
        ≡ record e.queue { perm = w.shuffled (positions 0 cnt); cursor = 0; shuffle = true }
  unfolding set_shuffle_locked persist_shuffle_blob_locked
  queue-set_shuffle e h = ground (arith, h.no_order, h.counted, h.nonempty, h.open_db)

  has_db-set_shuffle : (e : Engine F) → Undrawn e → has_db w (set_shuffle_locked w true e).0 ≡ true
  unfolding set_shuffle_locked persist_shuffle_blob_locked
  has_db-set_shuffle e h = ground (arith, h.no_order, h.counted, h.nonempty, h.open_db)

  set_shuffle-Draws :
      (e : Engine F)
      → Undrawn e
      → Draws w track_at (w.shuffled (positions 0 cnt)) (set_shuffle_locked w true e).0
  set_shuffle-Draws e h = record {
    open_db = has_db-set_shuffle e h;
    shuffled = rw (queue-set_shuffle e h);
    named = rw (queue-set_shuffle e h) h.named;
    wraps = rw (queue-set_shuffle e h) h.wraps;
    order = rw (queue-set_shuffle e h);
    loads = rw (queue-set_shuffle e h) (λ i lt. h.loads _ (inside i lt));
    nonempty = omega (arith, counted, h.nonempty);
    sized = omega (arith, counted, h.sized);
    placed = rw (queue-set_shuffle e h) (omega arith);
  }
    where
      counted : length (w.shuffled (positions 0 cnt)) ≡ cnt
      counted = length-perm h.fair ∙ length-positions 0 cnt

      inside :
          (i : ℕ)
          → i < length (w.shuffled (positions 0 cnt))
          → get_or (w.shuffled (positions 0 cnt)) i 0 < cnt
      inside i lt = omega (
        arith,
        mem-positions 0 cnt (get_or (w.shuffled (positions 0 cnt)) i 0)
            ((Perm.mem_iff h.fair).0 (mem-get_or (w.shuffled (positions 0 cnt)) i lt)),
      )

  -- When shuffle is turned on, the next calls, as many as the queue has tracks, deliver the tracks
  -- in the drawn order: each track of the queue once.
  pub shuffled_pass :
      (e : Engine F)
      → Undrawn e
      → let drawn = (set_shuffle_locked w true e).0 in
        (next_run w cnt drawn ≡ map (λ p. ok (track_at p)) drawn.queue.perm)
        × Perm (next_run w cnt drawn) (map (λ p. ok (track_at p)) (positions 0 cnt))
  shuffled_pass e h = (walked ∙ sym (ap (map played) order), rw walked (Perm.map played h.fair))
    where
      p : List ℕ
      p = w.shuffled (positions 0 cnt)

      played : ℕ → Expected (Track F)
      played q = ok (track_at q)

      drawn : Engine F
      drawn = (set_shuffle_locked w true e).0

      order : drawn.queue.perm ≡ p
      order = rw (queue-set_shuffle e h)

      counted : length p ≡ cnt
      counted = length-perm h.fair ∙ length-positions 0 cnt

      walked : next_run w cnt drawn ≡ map played p
      walked =
          next_run_shuffled w track_at p cnt drawn (set_shuffle-Draws e h)
          ∙ ap (λ (c : ℕ). map (λ i. ok (item w track_at p (i % length p))) (positions c cnt))
              (ap (λ (q : QueueState). q.cursor) (queue-set_shuffle e h))
          ∙ map-positions_ext _ (λ i. played (get_or p i 0)) 0 cnt
              (λ i lt.
                ap (λ (j : ℕ). played (get_or p j 0)) (mod-eq_of_lt (omega (arith, counted))))
          ∙ ap (λ (n : ℕ). map (λ i. played (get_or p i 0)) (positions 0 n)) (sym counted)
          ∙ map-get_or played p
