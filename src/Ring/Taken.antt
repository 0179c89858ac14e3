-- ===== src/Ring/Taken.antt =====
-- What a read delivers of the samples stored in a ring, and what it leaves.
use mathlib.Core.List.{append_assoc}
use caudio.Prelude.{
  ℕ, ◌+◌, ◌-◌, ◌≤◌, ◌<◌, ◌≡◌, refl, sym, ap, ap₂, ◌∙◌, List, [], ◌++◌, arith, length, take, drop,
  length-append,
}
use caudio.Ring.Copies.{
  drop-append, take-append, take-append_beyond, drop-append_within, drop-append_beyond, take-drop,
  take-all, length-take, length-drop,
}
use caudio.Ring.Stored.{Stored, straight, wrapped, length_three, none_left}

module _ {ℓ} {T : Type ℓ} where
  from_start :
      (buf pre rest : List T) (start : ℕ)
      → buf ≡ pre ++ rest
      → length pre ≡ start
      → drop start buf ≡ rest
  from_start buf pre rest start e at =
      ap₂ (λ (k : ℕ) (t : List T). drop k t) (sym at) e ∙ drop-append pre rest

  -- A read that does not reach past the end of the storage.
  pub read_within :
      (buf : List T) (start k : ℕ) (xs : List T)
      → Stored buf start xs
      → k ≤ length xs
      → start + k ≤ length buf
      → take k (drop start buf) ≡ take k xs
  read_within buf start k xs (straight pre post at e) le fits =
      ap (take k) (from_start buf pre (xs ++ post) start e at) ∙ take-append k xs post le
  read_within buf start k xs (wrapped tail gap head at x e) le fits =
      ap (take k) (
        from_start buf (tail ++ gap) head start (e ∙ sym (append_assoc tail gap head))
          (length-append tail gap ∙ at))
      ∙ sym (take-append k head tail inside)
      ∙ ap (take k) (sym x)
    where
      inside : k ≤ length head
      inside = omega (arith, length_three buf tail gap head e)

  pub left_within :
      (buf : List T) (start k : ℕ) (xs : List T)
      → Stored buf start xs
      → k ≤ length xs
      → start + k ≤ length buf
      → Stored buf (start + k) (drop k xs)
  left_within buf start k xs (straight pre post at e) le fits =
      straight (pre ++ take k xs) post
        (omega (arith, length-append pre (take k xs), length-take k xs le))
        (e
          ∙ ap (λ (t : List T). pre ++ (t ++ post)) (sym (take-drop k xs))
          ∙ ap (◌++◌ pre) (append_assoc (take k xs) (drop k xs) post)
          ∙ sym (append_assoc pre (take k xs) _))
  left_within buf start k xs (wrapped tail gap head at x e) le fits =
      wrapped tail (gap ++ take k head) (drop k head)
        (omega (arith, length-append gap (take k head), length-take k head inside))
        (ap (drop k) x ∙ drop-append_within k head tail inside)
        (e
          ∙ ap (λ (t : List T). tail ++ (gap ++ t)) (sym (take-drop k head))
          ∙ ap (◌++◌ tail) (sym (append_assoc gap (take k head) (drop k head))))
    where
      inside : k ≤ length head
      inside = omega (arith, length_three buf tail gap head e)

  -- A read up to the end leaves what is stored from the front on.
  pub left_to_end :
      (buf : List T) (start k : ℕ) (xs : List T)
      → Stored buf start xs
      → k ≤ length xs
      → start + k ≡ length buf
      → Stored buf 0 (drop k xs)
  left_to_end buf start k xs (straight pre post at e) le full =
      straight [] buf refl (sym (ap (λ (t : List T). t ++ buf) nothing))
    where
      nothing : drop k xs ≡ []
      nothing = none_left _ (omega (arith, length-drop k xs, length_three buf pre xs post e))
  left_to_end buf start k xs (wrapped tail gap head at x e) le full =
      straight [] (gap ++ head) refl (
        e
        ∙ ap (λ (t : List T). t ++ (gap ++ head))
            (sym (ap (drop k) x ∙ drop-append_beyond k 0 head tail ends)))
    where
      ends : k ≡ length head + 0
      ends = omega (arith, length_three buf tail gap head e)

  -- A read in two pieces, the second from the front of the storage on.
  pub read_split :
      (buf : List T) (start first k : ℕ) (xs : List T)
      → Stored buf start xs
      → k ≤ length xs
      → start + first ≡ length buf
      → first < k
      → (take first (drop start buf) ++ take (k - first) buf ≡ take k xs)
        × Stored buf (k - first) (drop k xs)
  read_split buf start first k xs (straight pre post at e) le full lt =
      absurd (omega (arith, length_three buf pre xs post e))
  read_split buf start first k xs (wrapped tail gap head at x e) le full lt = (
    ap₂ ◌++◌ (ap (take first) from ∙ take-all first head (omega (arith, sizes))) (
          ap (take (k - first)) e
          ∙ take-append (k - first) tail (gap ++ head) (omega (arith, sizes, parts)))
        ∙ sym (ap (take k) x ∙ take-append_beyond k (k - first) head tail (omega (arith, sizes))),
    straight (take (k - first) tail) (gap ++ head)
        (length-take (k - first) tail (omega (arith, sizes, parts)))
        (e
          ∙ ap (λ (t : List T). t ++ (gap ++ head)) (sym (take-drop (k - first) tail))
          ∙ append_assoc (take (k - first) tail) (drop (k - first) tail) _
          ∙ ap (λ (t : List T). take (k - first) tail ++ (t ++ (gap ++ head)))
              (sym (
                ap (drop k) x
                ∙ drop-append_beyond k (k - first) head tail (omega (arith, sizes))))),
  )
    where
      sizes : length buf ≡ length tail + (length gap + length head)
      sizes = length_three buf tail gap head e

      parts : length xs ≡ length head + length tail
      parts = ap length x ∙ length-append head tail

      from : drop start buf ≡ head
      from =
          from_start buf (tail ++ gap) head start (e ∙ sym (append_assoc tail gap head))
            (length-append tail gap ∙ at)
