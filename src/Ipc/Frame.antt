-- ===== src/Ipc/Frame.antt =====
-- frame and deframe of src/ipc/protocol.cpp: a text behind its length in four bytes.

use caudio.Prelude.{
  ℕ, zero, suc, ◌+◌, ◌*◌, ◌/◌, ◌%◌, ◌^◌, ◌≤◌, ◌<◌, ◌≡◌, inl, inr, false, Bool-cases, refl, ap, ◌∙◌,
  List, [], ◌∷◌, ◌++◌, Option, none, some, arith, Expected, ok, unexpected, make_error, invalid_arg,
  ltb, le→ltb, if◌then◌else◌, length, take, length-append,
}
use caudio.Json.{int_word}

unfoldable pub frame : List ℕ → List ℕ
frame json =
    let len = length json % int_word in
    (len / 2 ^ 24 % 256) ∷ (len / 2 ^ 16 % 256) ∷ (len / 2 ^ 8 % 256) ∷ (len % 256) ∷ json

-- The loop over `buf[4 + i]`; none where it reads behind the end of the buffer.
unfoldable pub payload : ℕ → List ℕ → Option (List ℕ)
payload zero buf = some []
payload (suc n) [] = none
payload (suc n) (b ∷ buf) = elim (payload n buf) [ none ↦ none | some s ↦ some (b ∷ s) ]

-- The bytes of the length, the first one the highest.
unfoldable pub frame_length : ℕ → ℕ → ℕ → ℕ → ℕ
frame_length a b c d = a * 2 ^ 24 + b * 2 ^ 16 + c * 2 ^ 8 + d

-- `4 + len` is a sum of 32-bit words.
unfoldable pub deframe : List ℕ → Option (Expected (List ℕ))
deframe (a ∷ b ∷ c ∷ d ∷ buf) =
    let len = frame_length a b c d in
    if ltb (length (a ∷ b ∷ c ∷ d ∷ buf)) ((4 + len) % int_word)
    then some (unexpected (make_error invalid_arg "frame incomplete"))
    else elim (payload len buf) [ none ↦ none | some s ↦ some (ok s) ]
deframe other = some (unexpected (make_error invalid_arg "frame too short"))

payload-take : (n : ℕ) (buf : List ℕ) → n ≤ length buf → payload n buf ≡ some (take n buf)
unfolding payload
payload-take zero buf h = refl
payload-take (suc n) [] h = absurd (omega arith)
payload-take (suc n) (b ∷ buf) h = rw (payload-take n buf (omega arith)) refl

pub payload_short : (n : ℕ) (buf : List ℕ) → length buf < n → payload n buf ≡ none
unfolding payload
payload_short zero buf h = absurd (omega arith)
payload_short (suc n) [] h = refl
payload_short (suc n) (b ∷ buf) h = rw (payload_short n buf (omega arith)) refl

take-append : (xs ys : List ℕ) → take (length xs) (xs ++ ys) ≡ xs
take-append [] ys = refl
take-append (x ∷ xs) ys = ap (λ (t : List ℕ). x ∷ t) (take-append xs ys)

frame_length-frame :
    (n : ℕ)
    → n < int_word
    → frame_length (n / 2 ^ 24 % 256) (n / 2 ^ 16 % 256) (n / 2 ^ 8 % 256) (n % 256) ≡ n
unfolding frame_length
frame_length-frame n h = omega arith

-- A length below 2^32 - 4: the bytes that it counts, or an error where there are fewer.
pub deframe_lem :
    (a b c d : ℕ) (buf : List ℕ)
    → frame_length a b c d + 4 < int_word
    → deframe (a ∷ b ∷ c ∷ d ∷ buf)
      ≡ some (
          if ltb (length buf) (frame_length a b c d)
          then unexpected (make_error invalid_arg "frame incomplete")
          else ok (take (frame_length a b c d) buf))
unfolding deframe
deframe_lem a b c d buf h =
    let whole : (4 + frame_length a b c d) % int_word ≡ 4 + frame_length a b c d = omega arith in
    elim (Bool-cases (ltb (length buf) (frame_length a b c d))) [
      | inl few ↦ ground (arith, whole)
      | inr enough ↦ ground (arith, whole, payload-take (frame_length a b c d) buf)
    ]

-- A frame that is followed by anything is read back, where the text is shorter than 2^32 - 4 bytes.
pub deframe-frame :
    (json rest : List ℕ)
    → length json + 4 < int_word
    → deframe (frame json ++ rest) ≡ some (ok json)
unfolding frame
deframe-frame json rest h =
    deframe_lem _ _ _ _ (json ++ rest) (omega (arith, len))
    ∙ rw (len, enough) (ap (λ t. some (ok t)) (take-append json rest))
  where
    len :
        frame_length
          (length json % int_word / 2 ^ 24 % 256)
          (length json % int_word / 2 ^ 16 % 256)
          (length json % int_word / 2 ^ 8 % 256)
          (length json % int_word % 256)
        ≡ length json
    len = frame_length-frame (length json % int_word) (omega arith) ∙ (omega arith)

    enough : ltb (length (json ++ rest)) (length json) ≡ false
    enough = le→ltb _ _ (omega (arith, length-append json rest))

-- A length from 2^32 - 4 on wraps, and where the bytes are fewer, the loop reads behind the buffer.
pub deframe_overflow :
    (a b c d : ℕ) (buf : List ℕ)
    → frame_length a b c d < int_word
    → int_word ≤ frame_length a b c d + 4
    → length buf < frame_length a b c d
    → deframe (a ∷ b ∷ c ∷ d ∷ buf) ≡ none
unfolding deframe
deframe_overflow a b c d buf h over few =
    rw
      (
        le→ltb (length (a ∷ b ∷ c ∷ d ∷ buf)) ((4 + frame_length a b c d) % int_word) (omega arith),
        payload_short (frame_length a b c d) buf few,
      )
      refl
