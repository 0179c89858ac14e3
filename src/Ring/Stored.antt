-- ===== src/Ring/Stored.antt =====
-- Samples stored in a ring from an offset on, round the end of the storage.
use mathlib.Core.List.{append_assoc, append-nil}
use caudio.Prelude.{
  ℕ, ◌+◌, ◌≤◌, ◌<◌, ◌≡◌, refl, sym, ap, ap₂, ◌∙◌, List, [], ◌∷◌, ◌++◌, arith, length, drop,
  length-append,
}
use caudio.Ring.{blit}
use caudio.Ring.Copies.{drop-append_within, length-drop, blit-append, blit-front}

module _ {ℓ} {T : Type ℓ} where
  -- `buf` stores `xs` from `start` on: in one piece, or in two round its end.
  pub data Stored (buf : List T) (start : ℕ) (xs : List T) : Type ℓ where
    straight :
        (pre post : List T) → length pre ≡ start → buf ≡ pre ++ (xs ++ post) → Stored buf start xs
    wrapped :
        (tail gap head : List T)
        → length tail + length gap ≡ start
        → xs ≡ head ++ tail
        → buf ≡ tail ++ (gap ++ head)
        → Stored buf start xs

  behind :
      (xs ys new : List T)
      → length new ≤ length ys
      → blit (xs ++ ys) (length xs) new ≡ xs ++ (new ++ drop (length new) ys)
  behind xs ys new le = blit-append xs ys new ∙ ap (◌++◌ xs) (blit-front ys new le)

  wrapped_write :
      (tail gap head new : List T)
      → length new ≤ length gap
      → blit (tail ++ (gap ++ head)) (length tail) new
        ≡ (tail ++ new) ++ (drop (length new) gap ++ head)
  wrapped_write tail gap head new le =
      behind tail (gap ++ head) new (omega (arith, length-append gap head))
      ∙ ap (λ (t : List T). tail ++ (new ++ t)) (drop-append_within (length new) gap head le)
      ∙ sym (append_assoc tail new _)

  straight_write :
      (pre xs post new : List T)
      → length new ≤ length post
      → blit (pre ++ (xs ++ post)) (length pre + length xs) new
        ≡ pre ++ ((xs ++ new) ++ drop (length new) post)
  straight_write pre xs post new le =
      ap₂ (λ (t : List T) (k : ℕ). blit t k new) (sym (append_assoc pre xs post))
        (sym (length-append pre xs))
      ∙ behind (pre ++ xs) post new le
      ∙ append_assoc pre xs _
      ∙ ap (◌++◌ pre) (sym (append_assoc xs new _))

  pub length_three :
      (buf a b c : List T) → buf ≡ a ++ (b ++ c) → length buf ≡ length a + (length b + length c)
  length_three buf a b c e =
      ap length e ∙ length-append a (b ++ c) ∙ ap (λ (n : ℕ). length a + n) (length-append b c)

  pub none_left : (xs : List T) → length xs ≡ 0 → xs ≡ []
  none_left [] h = refl
  none_left (x ∷ xs) h = absurd (omega arith)

  round_wrapped :
      (buf : List T) (start q : ℕ) (xs tail gap head new : List T)
      → buf ≡ tail ++ (gap ++ head)
      → q ≡ length tail
      → length new ≤ length gap
      → xs ≡ head ++ tail
      → length tail + length gap ≡ start
      → Stored (blit buf q new) start (xs ++ new)
  round_wrapped buf start q xs tail gap head new e at le x st =
      wrapped (tail ++ new) (drop (length new) gap) head
        (omega (arith, length-append tail new, length-drop (length new) gap))
        (ap (λ (t : List T). t ++ new) x ∙ append_assoc head tail new)
        (ap₂ (λ (t : List T) (k : ℕ). blit t k new) e at ∙ wrapped_write tail gap head new le)

  -- A write behind the stored samples that does not reach past the end.
  pub write_behind :
      (buf : List T) (start : ℕ) (xs new : List T)
      → Stored buf start xs
      → start + length xs < length buf
      → start + length xs + length new ≤ length buf
      → Stored (blit buf (start + length xs) new) start (xs ++ new)
  write_behind buf start xs new (straight pre post at e) lt le =
      straight pre (drop (length new) post) at (
        ap₂ (λ (t : List T) (k : ℕ). blit t (k + length xs) new) e (sym at)
        ∙ straight_write pre xs post new (omega (arith, length_three buf pre xs post e)))
  write_behind buf start xs new (wrapped tail gap head at x e) lt le =
      absurd (omega (arith, length_three buf tail gap head e, ap length x, length-append head tail))

  -- A write from the front of the storage on, or behind samples that go round its end.
  pub write_round :
      (buf : List T) (start q : ℕ) (xs new : List T)
      → Stored buf start xs
      → q + length buf ≡ start + length xs
      → length xs + length new ≤ length buf
      → Stored (blit buf q new) start (xs ++ new)
  write_round buf start q xs new (straight pre post at e) round le =
      round_wrapped buf start q xs [] pre xs new
        (e
          ∙ ap (λ (t : List T). pre ++ (xs ++ t)) (none_left post nothing)
          ∙ ap (◌++◌ pre) (append-nil xs))
        (omega (arith, sizes)) (omega (arith, sizes)) (sym (append-nil xs)) (omega arith)
    where
      sizes : length buf ≡ length pre + (length xs + length post)
      sizes = length_three buf pre xs post e

      nothing : length post ≡ 0
      nothing = omega (arith, sizes)
  write_round buf start q xs new (wrapped tail gap head at x e) round le =
      round_wrapped buf start q xs tail gap head new e (omega (arith, sizes, parts))
        (omega (arith, sizes, parts)) x at
    where
      sizes : length buf ≡ length tail + (length gap + length head)
      sizes = length_three buf tail gap head e

      parts : length xs ≡ length head + length tail
      parts = ap length x ∙ length-append head tail

  -- A write in two pieces, the second from the front of the storage on.
  pub write_split :
      (buf : List T) (start : ℕ) (xs first rest : List T)
      → Stored buf start xs
      → start + length xs < length buf
      → start + length xs + length first ≡ length buf
      → length xs + length first + length rest ≤ length buf
      → Stored (blit (blit buf (start + length xs) first) 0 rest) start (xs ++ (first ++ rest))
  write_split buf start xs first rest (straight pre post at e) lt full le =
      wrapped rest (drop (length rest) pre) (xs ++ first)
        (omega (arith, length-drop (length rest) pre, sizes)) (sym (append_assoc xs first rest))
        (ap (λ (t : List T). blit t 0 rest) laid
          ∙ blit-front (pre ++ (xs ++ first)) rest
              (omega (arith, sizes, length-append pre (xs ++ first)))
          ∙ ap (◌++◌ rest)
              (drop-append_within (length rest) pre (xs ++ first) (omega (arith, sizes))))
    where
      sizes : length buf ≡ length pre + (length xs + length post)
      sizes = length_three buf pre xs post e

      nothing : drop (length first) post ≡ []
      nothing = none_left _ (omega (arith, length-drop (length first) post, sizes))

      laid : blit buf (start + length xs) first ≡ pre ++ (xs ++ first)
      laid =
          ap₂ (λ (t : List T) (k : ℕ). blit t (k + length xs) first) e (sym at)
          ∙ straight_write pre xs post first (omega (arith, sizes))
          ∙ ap (λ (t : List T). pre ++ ((xs ++ first) ++ t)) nothing
          ∙ ap (◌++◌ pre) (append-nil (xs ++ first))
  write_split buf start xs first rest (wrapped tail gap head at x e) lt full le =
      absurd (omega (arith, length_three buf tail gap head e, ap length x, length-append head tail))
