-- ===== src/Record/Hex.antt =====
-- toHex and fromHex of include/caudio/utils/math.hpp.
use Prim.Native.Char.{Char, code}
use Prim.Native.String.{String}
use native.Mathlib.Decide.{ℕ_discrete}
use caudio.Prelude.{
  ℕ, zero, suc, ◌+◌, ◌-◌, ◌*◌, ◌/◌, ◌%◌, ◌<◌, ◌≡◌, refl, ap, ◌∙◌, Bool, ◌&&◌, true, false, List, [],
  ◌∷◌, Option, none, some, arith, leb, ltb, ◌==◌, if◌then◌else◌, length, get_or, bytes, utf8,
}

-- `digits[d]`.
hex_digit : ℕ → Char
hex_digit d =
    get_or
      ("0" ∷ "1" ∷ "2" ∷ "3" ∷ "4" ∷ "5" ∷ "6" ∷ "7" ∷ "8" ∷ "9" ∷ "a" ∷ "b" ∷ "c" ∷ "d" ∷ "e" ∷ "f"
        ∷ [])
      d "f"

unfoldable pub to_hex : List ℕ → String
unfolding hex_digit
to_hex [] = ""
to_hex (b ∷ bytes) =
    String.◌∷◌ (hex_digit (b / 16)) (String.◌∷◌ (hex_digit (b % 16)) (to_hex bytes))

-- The value of a digit; none for the -1 of the source.
digit_value : ℕ → Option ℕ
digit_value c =
    if leb b'0' c && leb c b'9'
    then some (c - b'0')
    else if leb b'a' c && leb c b'f'
    then some (c - b'a' + 10)
    else if leb b'A' c && leb c b'F'
    then some (c - b'A' + 10)
    else none

-- The loop over `n` bytes; none where a character is no digit.
hex_bytes : ℕ → List ℕ → Option (List ℕ)
hex_bytes zero cs = some []
hex_bytes (suc n) (hi ∷ lo ∷ cs) = elim (digit_value hi) [
  | none ↦ none
  | some h ↦ elim (digit_value lo) [
    | none ↦ none
    | some l ↦ elim (hex_bytes n cs) [ none ↦ none | some bs ↦ some ((h * 16 + l) ∷ bs) ]
  ]
]
hex_bytes (suc n) other = none

unfoldable pub from_hex : String → Option (List ℕ)
unfolding hex_bytes digit_value
from_hex s = if length (bytes s) == 64 then hex_bytes 32 (bytes s) else none

-- A list of bytes.
abbrev pub Bytes : List ℕ → Type 0
Bytes [] = Unit {0}
Bytes (b ∷ bs) = (b < 256) × Bytes bs

has_value : ℕ → Option ℕ → Bool
has_value d none = false
has_value d (some v) = v == d

-- A digit takes one byte and has its value, for the sixteen digits.
reads_back : ℕ → Bool
unfolding hex_digit digit_value has_value
reads_back d = ltb (code (hex_digit d)) 0x80 && has_value d (digit_value (code (hex_digit d)))

-- How many of the first `n` digits do not.
misread : ℕ → ℕ
unfolding reads_back
misread zero = 0
misread (suc d) = misread d + (if reads_back d then 0 else 1)

none_misread : (d n : ℕ) → misread n ≡ 0 → d < n → reads_back d ≡ true
unfolding misread
none_misread d zero h below = absurd (omega arith)
none_misread d (suc last) h below = elim (ℕ_discrete d last) [
  | yes at_last ↦ ground (arith, at_last)
  | no earlier ↦ none_misread d last (ground (arith, h)) (omega (arith, earlier, below))
]

digits_read_back : (d : ℕ) → d < 16 → reads_back d ≡ true
unfolding misread reads_back
digits_read_back d h = none_misread d 16 refl h

has_value_lem : (d : ℕ) (o : Option ℕ) → has_value d o ≡ true → o ≡ some d
unfolding has_value
has_value_lem d none h = cc
has_value_lem d (some v) h = ground arith

one_byte : (d : ℕ) → d < 16 → utf8 (code (hex_digit d)) ≡ code (hex_digit d) ∷ []
unfolding reads_back
one_byte d h = ground (arith, digits_read_back d h)

value_lem : (d : ℕ) → d < 16 → digit_value (code (hex_digit d)) ≡ some d
unfolding reads_back
value_lem d h = has_value_lem d _ (ground (arith, digits_read_back d h))

abbrev hex_codes : List ℕ → List ℕ
hex_codes [] = []
hex_codes (b ∷ bs) = code (hex_digit (b / 16)) ∷ code (hex_digit (b % 16)) ∷ hex_codes bs

bytes-to_hex : (bs : List ℕ) → Bytes bs → bytes (to_hex bs) ≡ hex_codes bs
unfolding to_hex
bytes-to_hex [] h = refl
bytes-to_hex (b ∷ bs) (small, h) =
    rw (one_byte (b / 16) (omega arith), one_byte (b % 16) (omega arith), bytes-to_hex bs h) refl

length-hex_codes : (bs : List ℕ) → length (hex_codes bs) ≡ 2 * length bs
length-hex_codes [] = refl
length-hex_codes (b ∷ bs) = omega (arith, length-hex_codes bs)

hex_bytes_step :
    (n hi lo h l : ℕ) (cs bs : List ℕ)
    → digit_value hi ≡ some h
    → digit_value lo ≡ some l
    → hex_bytes n cs ≡ some bs
    → hex_bytes (suc n) (hi ∷ lo ∷ cs) ≡ some ((h * 16 + l) ∷ bs)
unfolding hex_bytes
hex_bytes_step n hi lo h l cs bs p q r = ground (arith, p, q, r)

hex_bytes-hex_codes : (bs : List ℕ) → Bytes bs → hex_bytes (length bs) (hex_codes bs) ≡ some bs
unfolding hex_bytes
hex_bytes-hex_codes [] h = refl
hex_bytes-hex_codes (b ∷ bs) (small, h) =
    hex_bytes_step (length bs) _ _ (b / 16) (b % 16) (hex_codes bs) bs
      (value_lem (b / 16) (omega arith)) (value_lem (b % 16) (omega arith))
      (hex_bytes-hex_codes bs h)
    ∙ ap (λ (v : ℕ). some (v ∷ bs)) (omega arith)

sixty_four : (n : ℕ) → n ≡ 64 → (n == 64) ≡ true
sixty_four n e = ground arith

-- The hex text of 32 bytes has 64 characters and reads back as the bytes.
pub from_hex-to_hex : (bs : List ℕ) → length bs ≡ 32 → Bytes bs → from_hex (to_hex bs) ≡ some bs
unfolding from_hex
from_hex-to_hex bs size h =
    rw
      (
        bytes-to_hex bs h,
        sixty_four (length (hex_codes bs)) (omega (arith, length-hex_codes bs, size)),
      )
      whole
  where
    whole : hex_bytes 32 (hex_codes bs) ≡ some bs
    whole = rw size at (hex_bytes-hex_codes bs h)
