-- ===== src/Mpsc/Fifo.antt =====
-- The circular storage of mpsc_queue.hpp behaves as a bounded first-in first-out list.
use native.Mathlib.Nat.{mod-add-mod, mod-eq_of_lt, mod-eq-sub-mod, mod-lt}
use mathlib.Core.List.{map-append}
use native.Mathlib.Decide.{dec_lt}
use caudio.Prelude.{
  ℕ, zero, suc, ◌+◌, ◌-◌, ◌%◌, ◌≤◌, ◌<◌, ◌≡◌, ◌≢◌, refl, sym, ap, ap₂, ◌∙◌, List, [], ◌∷◌, ◌++◌,
  map, Option, none, some, arith, word, length, length-append, length-set, length-replicate, get_or,
  get_or-set_self, get_or-set_ne, set, ok, unexpected, make_error, busy, bad_state,
}
use caudio.Mpsc.{MpscQueue, make, size, push, pop}

module _ {ℓ} {A : Type ℓ} where
  -- The `n` slots from counter `c` on.
  abbrev pub slots : List (Option A) → ℕ → ℕ → ℕ → List (Option A)
  slots buf cap c zero = []
  slots buf cap c (suc n) = get_or buf (c % cap) none ∷ slots buf cap (c + 1) n

  -- The queue is in order and holds exactly `xs`, oldest first.
  pub record Holds (q : MpscQueue A) (xs : List A) : Type ℓ where
    pub positive : 0 < q.cap
    pub storage : length q.buf ≡ q.cap
    pub counters : q.wr ≡ q.rd + length xs
    pub bounded : length xs ≤ q.cap
    pub in_word : q.wr < word
    pub items : slots q.buf q.cap q.rd (length xs) ≡ map some xs

-- Two counters less than `cap` apart have different slots.
slot_ne : (cap c k : ℕ) → suc k < cap → (c + suc k) % cap ≢ c % cap
slot_ne cap c k h e = elim (dec_lt (c % cap + suc k) cap) [
  | yes p ↦ omega (arith, shifted, mod-eq_of_lt p)
  | no p ↦ omega (
    arith,
    shifted,
    mod-lt c {m = cap} (omega arith),
    mod-eq-sub-mod {n = c % cap + suc k} {m = cap} (omega arith),
    mod-eq_of_lt {n = c % cap + suc k - cap} {m = cap}
        (omega (arith, mod-lt c {m = cap} (omega arith))),
  )
]
  where
    shifted : (c % cap + suc k) % cap ≡ c % cap
    shifted = mod-add-mod c cap (suc k) ∙ e

module _ {ℓ} {A : Type ℓ} (buf : List (Option A)) (cap : ℕ) where
  length-slots : (c n : ℕ) → length (slots buf cap c n) ≡ n
  length-slots c zero = refl
  length-slots c (suc n) = ap suc (length-slots (c + 1) n)

  -- A write to the slot of counter `i`, met by none of the `n` counters from `c` on, is not seen.
  slots-set_ne :
      (i c n : ℕ) (v : Option A)
      → ((k : ℕ) → k < n → i % cap ≢ (c + k) % cap)
      → slots (set buf (i % cap) v) cap c n ≡ slots buf cap c n
  slots-set_ne i c zero v h = refl
  slots-set_ne i c (suc n) v h =
      ap₂ ◌∷◌
        (get_or-set_ne buf (i % cap) (c % cap) v none
          (λ e. h 0 (omega arith) (e ∙ ap (λ (t : ℕ). t % cap) (omega arith))))
        (slots-set_ne i (c + 1) n v
          (λ k p e. h (suc k) (omega arith) (e ∙ ap (λ (t : ℕ). t % cap) (omega arith))))

  slots_snoc :
      (c n : ℕ)
      → slots buf cap c (suc n) ≡ slots buf cap c n ++ get_or buf ((c + n) % cap) none ∷ []
  slots_snoc c zero = ap (λ (t : ℕ). get_or buf (t % cap) none ∷ []) (omega arith)
  slots_snoc c (suc n) = ap (◌∷◌ (get_or buf (c % cap) none)) (
      slots_snoc (c + 1) n
      ∙ ap (λ (t : ℕ). slots buf cap (c + 1) n ++ get_or buf (t % cap) none ∷ []) (omega arith))

module _ {ℓ} {A : Type ℓ} where
  pub make-Holds : (capacity : ℕ) → Holds {A = A} (make capacity) []
  unfolding make
  make-Holds capacity = record {
    positive = ground arith;
    storage = length-replicate _ none;
    counters = omega arith;
    bounded = omega arith;
    in_word = omega arith;
    items = refl;
  }

  pushed : A → MpscQueue A → MpscQueue A
  pushed v q = record q { buf = set q.buf (q.wr % q.cap) (some v); wr = q.wr + 1 }

  push-eq-pushed :
      (v : A) (q : MpscQueue A) (xs : List A)
      → Holds q xs
      → q.wr + 1 < word
      → length xs < q.cap
      → push v q ≡ (pushed v q, ok tt)
  unfolding push pushed
  push-eq-pushed v q xs h w room = ground (arith, h.counters, h.in_word)

  items-pushed :
      (v : A) (q : MpscQueue A) (xs : List A)
      → Holds q xs
      → length xs < q.cap
      → slots (pushed v q).buf q.cap q.rd (suc (length xs)) ≡ map some (xs ++ v ∷ [])
  unfolding pushed
  items-pushed v q xs h room =
      slots_snoc (set q.buf (q.wr % q.cap) (some v)) q.cap q.rd (length xs)
      ∙ ap₂ ◌++◌ (slots-set_ne q.buf q.cap q.wr q.rd (length xs) (some v) apart ∙ h.items)
          (ap (λ (o : Option A). o ∷ []) written)
      ∙ sym (map-append some xs (v ∷ []))
    where
      apart : (k : ℕ) → k < length xs → q.wr % q.cap ≢ (q.rd + k) % q.cap
      apart k p e =
          slot_ne q.cap (q.rd + k) (length xs - k - 1) (omega arith)
            (ap (λ (t : ℕ). t % q.cap) (omega (arith, h.counters)) ∙ e)

      written :
          get_or (set q.buf (q.wr % q.cap) (some v)) ((q.rd + length xs) % q.cap) none ≡ some v
      written = rw (← h.counters) (
          get_or-set_self q.buf (q.wr % q.cap) (some v) none
            (omega (arith, h.storage, mod-lt q.wr h.positive)))

  -- A push with room left appends its value and succeeds.
  pub push-Holds :
      (v : A) (q : MpscQueue A) (xs : List A)
      → Holds q xs
      → q.wr + 1 < word
      → length xs < q.cap
      → Holds (push v q).0 (xs ++ v ∷ []) × ((push v q).1 ≡ ok tt)
  push-Holds v q xs h w room = rw (push-eq-pushed v q xs h w room) (appended, refl)
    where
      one_more : length (xs ++ v ∷ []) ≡ suc (length xs)
      one_more = omega (arith, length-append xs (v ∷ []))

      appended : Holds (pushed v q) (xs ++ v ∷ [])
      appended =
          unfold pushed in
          record {
            positive = h.positive;
            storage = length-set q.buf (q.wr % q.cap) (some v) ∙ h.storage;
            counters = omega (arith, one_more, h.counters);
            bounded = omega (arith, one_more);
            in_word = w;
            items = rw one_more (items-pushed v q xs h room);
          }

  -- At capacity a push is refused with `busy` and leaves the queue as it was.
  pub size-Holds : (q : MpscQueue A) (xs : List A) → Holds q xs → size q ≡ length xs
  unfolding size
  size-Holds q xs h = ground (arith, h.counters, h.in_word)

  pub push_full :
      (v : A) (q : MpscQueue A) (xs : List A)
      → Holds q xs
      → length xs ≡ q.cap
      → push v q ≡ (q, unexpected (make_error busy "queue full"))
  unfolding push
  push_full v q xs h e = ground (arith, h.counters, h.in_word)

  popped : MpscQueue A → MpscQueue A
  popped q = record q { buf = set q.buf (q.rd % q.cap) none; rd = q.rd + 1 }

  pop-eq-popped :
      (q : MpscQueue A) (x : A) (xs : List A) → Holds q (x ∷ xs) → pop q ≡ (popped q, ok x)
  unfolding pop popped
  pop-eq-popped q x xs h = ground (arith, h.counters, h.in_word, h.items)

  -- A pop returns the oldest value and leaves the rest.
  pub pop-Holds :
      (q : MpscQueue A) (x : A) (xs : List A)
      → Holds q (x ∷ xs)
      → Holds (pop q).0 xs × ((pop q).1 ≡ ok x)
  pop-Holds q x xs h = rw (pop-eq-popped q x xs h) (rest, refl)
    where
      apart : (k : ℕ) → k < length xs → q.rd % q.cap ≢ (q.rd + 1 + k) % q.cap
      apart k p e =
          slot_ne q.cap q.rd k (omega (arith, h.bounded))
            (ap (λ (t : ℕ). t % q.cap) (omega arith) ∙ sym e)

      later : slots q.buf q.cap (q.rd + 1) (length xs) ≡ map some xs
      later = cc h.items

      rest : Holds (popped q) xs
      rest =
          unfold popped in
          record {
            positive = h.positive;
            storage = length-set q.buf (q.rd % q.cap) none ∙ h.storage;
            counters = omega (arith, h.counters);
            bounded = omega (arith, h.bounded);
            in_word = h.in_word;
            items = slots-set_ne q.buf q.cap q.rd (q.rd + 1) (length xs) none apart ∙ later;
          }

  pub pop_empty :
      (q : MpscQueue A) → Holds q [] → pop q ≡ (q, unexpected (make_error bad_state "queue empty"))
  unfolding pop
  pop_empty q h = ground (arith, h.counters)
