-- ===== src/Ring/Copies.antt =====
-- Pieces of lists, and the copies that the ring of include/caudio/utils/ring.hpp makes of them.
use caudio.Prelude.{
  ℕ, zero, suc, ◌+◌, ◌-◌, ◌≤◌, ◌≡◌, refl, sym, ap, ◌∙◌, List, [], ◌∷◌, ◌++◌, arith, length, take,
  drop,
}
use caudio.Ring.{blit}

module _ {ℓ} {T : Type ℓ} where
  pub take-nil : (n : ℕ) → take {A = T} n [] ≡ []
  take-nil zero = refl
  take-nil (suc n) = refl

  pub drop-append : (xs ys : List T) → drop (length xs) (xs ++ ys) ≡ ys
  drop-append [] ys = refl
  drop-append (x ∷ xs) ys = drop-append xs ys

  pub take-append : (n : ℕ) (xs ys : List T) → n ≤ length xs → take n (xs ++ ys) ≡ take n xs
  take-append zero xs ys le = refl
  take-append (suc n) [] ys le = absurd (omega arith)
  take-append (suc n) (x ∷ xs) ys le = ap (◌∷◌ x) (take-append n xs ys (omega arith))

  pub take-append_beyond :
      (m n : ℕ) (xs ys : List T) → m ≡ length xs + n → take m (xs ++ ys) ≡ xs ++ take n ys
  take-append_beyond m n [] ys e = ap (λ (k : ℕ). take k ys) (omega arith)
  take-append_beyond zero n (x ∷ xs) ys e = absurd (omega arith)
  take-append_beyond (suc m) n (x ∷ xs) ys e =
      ap (◌∷◌ x) (take-append_beyond m n xs ys (omega arith))

  pub drop-append_within :
      (n : ℕ) (xs ys : List T) → n ≤ length xs → drop n (xs ++ ys) ≡ drop n xs ++ ys
  drop-append_within zero xs ys le = refl
  drop-append_within (suc n) [] ys le = absurd (omega arith)
  drop-append_within (suc n) (x ∷ xs) ys le = drop-append_within n xs ys (omega arith)

  pub drop-append_beyond :
      (m n : ℕ) (xs ys : List T) → m ≡ length xs + n → drop m (xs ++ ys) ≡ drop n ys
  drop-append_beyond m n [] ys e = ap (λ (k : ℕ). drop k ys) (omega arith)
  drop-append_beyond zero n (x ∷ xs) ys e = absurd (omega arith)
  drop-append_beyond (suc m) n (x ∷ xs) ys e = drop-append_beyond m n xs ys (omega arith)

  pub take-all : (n : ℕ) (xs : List T) → length xs ≤ n → take n xs ≡ xs
  take-all zero [] le = refl
  take-all zero (x ∷ xs) le = absurd (omega arith)
  take-all (suc n) [] le = refl
  take-all (suc n) (x ∷ xs) le = ap (◌∷◌ x) (take-all n xs (omega arith))

  pub take-drop : (n : ℕ) (xs : List T) → take n xs ++ drop n xs ≡ xs
  take-drop zero xs = refl
  take-drop (suc n) [] = refl
  take-drop (suc n) (x ∷ xs) = ap (◌∷◌ x) (take-drop n xs)

  pub take-add : (m n k : ℕ) (xs : List T) → m ≡ n + k → take n xs ++ take k (drop n xs) ≡ take m xs
  take-add m zero k xs e = ap (λ (j : ℕ). take j xs) (omega arith)
  take-add m (suc n) k [] e = take-nil k ∙ sym (take-nil m)
  take-add zero (suc n) k (x ∷ xs) e = absurd (omega arith)
  take-add (suc m) (suc n) k (x ∷ xs) e = ap (◌∷◌ x) (take-add m n k xs (omega arith))

  pub length-take : (n : ℕ) (xs : List T) → n ≤ length xs → length (take n xs) ≡ n
  length-take zero xs le = refl
  length-take (suc n) [] le = absurd (omega arith)
  length-take (suc n) (x ∷ xs) le = ap suc (length-take n xs (omega arith))

  pub length-drop : (n : ℕ) (xs : List T) → length (drop n xs) ≡ length xs - n
  length-drop zero xs = omega arith
  length-drop (suc n) [] = omega arith
  length-drop (suc n) (x ∷ xs) = omega (arith, length-drop n xs)

  -- A copy behind `xs`, and one to the front.
  pub blit-append : (xs ys new : List T) → blit (xs ++ ys) (length xs) new ≡ xs ++ blit ys 0 new
  unfolding blit
  blit-append [] ys new = refl
  blit-append (x ∷ xs) ys new = ap (◌∷◌ x) (blit-append xs ys new)

  pub blit-front :
      (old new : List T) → length new ≤ length old → blit old 0 new ≡ new ++ drop (length new) old
  unfolding blit
  blit-front [] [] le = refl
  blit-front [] (y ∷ new) le = absurd (omega arith)
  blit-front (x ∷ old) [] le = refl
  blit-front (x ∷ old) (y ∷ new) le = ap (◌∷◌ y) (blit-front old new (omega arith))

  pub length-blit : (old new : List T) (o : ℕ) → length (blit old o new) ≡ length old
  unfolding blit
  length-blit [] new o = refl
  length-blit (x ∷ old) [] zero = refl
  length-blit (x ∷ old) (y ∷ new) zero = ap suc (length-blit old new zero)
  length-blit (x ∷ old) new (suc o) = ap suc (length-blit old new o)
