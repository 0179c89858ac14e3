-- ===== src/Json.antt =====
-- Json and JsonRef of include/caudio/utils/json.hpp and src/utils/json.cpp, over the values of the
-- JSON library that they wrap. A JsonError that is thrown is the error that every caller makes of
-- it: Corrupt, with the exception's text.
pub mod Whole
use Prim.Native.String.{String}
use text.Mathlib.Text.{◌==◌ as str_eq}
use caudio.Prelude.{
  ℕ, ◌+◌, ◌-◌, ◌%◌, ◌^◌, Bool, true, false, ◌||◌, Option, none, some, ltb, leb, is_neg,
  if◌then◌else◌, Expected, ok, unexpected, make_error, corrupt, ◌>>=◌,
}
use caudio.Engine.{Floats}

-- `ordered_json`: integers with and without a sign are kept apart, and an object keeps the order
-- of its keys. `F` is `double`; an integer is its 64-bit word.
mutual
  pub data Json (F : Type 0) : Type 0 where
    null : Json F
    boolean : Bool → Json F
    integer : ℕ → Json F
    unsigned : ℕ → Json F
    real : F → Json F
    string : String → Json F
    array : Items F → Json F
    object : Fields F → Json F

  pub data Items (F : Type 0) : Type 0 where
    nil : Items F
    cons : Json F → Items F → Items F

  pub data Fields (F : Type 0) : Type 0 where
    end : Fields F
    field : String → Json F → Fields F → Fields F

-- `float` beside `double`.
pub record Singles (F S : Type 0) : Type 0 where
  pub widen : S → F
  pub narrow : F → S

-- The conversion of a `double` to `uint64_t`.
pub record Unsigned (F : Type 0) : Type 0 where
  pub to_uint : F → ℕ

abbrev pub thrown {ℓ} : {A : Type ℓ} → String → Expected A
thrown what = unexpected (make_error corrupt what)

module _ {F : Type 0} where
  unfoldable pub find : String → Fields F → Option (Json F)
  find k end = none
  find k (field j v fs) = if str_eq j k then some v else find k fs

  -- An assignment to a key: in place, or behind the other keys.
  unfoldable pub insert : String → Json F → Fields F → Fields F
  insert k v end = field k v end
  insert k v (field j w fs) = if str_eq j k then field j v fs else field j w (insert k v fs)

  -- `j[k]` of a `const Json`, where `contains(k)` has been asked: none for a missing key.
  unfoldable pub lookup : Json F → String → Option (Json F)
  unfolding find
  lookup (object fs) k = find k fs
  lookup other k = none

  unfoldable pub contains : Json F → String → Bool
  unfolding lookup
  contains j k = elim (lookup j k) [ none ↦ false | some v ↦ true ]

  -- `j[k] = v`: a null value becomes an object first.
  unfoldable pub put : String → Json F → Json F → Expected (Json F)
  unfolding insert
  put k v null = ok (object (field k v end))
  put k v (object fs) = ok (object (insert k v fs))
  put k v other = thrown "json: key access on non-object"

  unfoldable pub snoc : Items F → Json F → Items F
  snoc nil v = cons v nil
  snoc (cons x xs) v = cons x (snoc xs v)

  -- `push_back` on the value at a key.
  unfoldable pub pushed : Json F → Json F → Expected (Json F)
  unfolding snoc
  pushed v (array xs) = ok (array (snoc xs v))
  pushed v other = thrown "json: push_back on non-array"

  -- `j[k].push_back(v)`; a missing key is made, and is null.
  unfoldable pub push_back : String → Json F → Json F → Expected (Json F)
  unfolding lookup put pushed
  push_back k v j = elim (lookup j k) [
    | none ↦ do j' ← put k null j; w ← pushed v null; put k w j'
    | some old ↦ do w ← pushed v old; put k w j
  ]

  unfoldable pub is_number : Json F → Bool
  is_number (integer n) = true
  is_number (unsigned n) = true
  is_number (real x) = true
  is_number other = false

  unfoldable pub is_array : Json F → Bool
  is_array (array xs) = true
  is_array other = false

  unfoldable pub is_object : Json F → Bool
  is_object (object fs) = true
  is_object other = false

  unfoldable pub is_string : Json F → Bool
  is_string (string s) = true
  is_string other = false

  unfoldable pub is_boolean : Json F → Bool
  is_boolean (boolean b) = true
  is_boolean other = false

  unfoldable pub get_string : Json F → Expected String
  get_string (string s) = ok s
  get_string other = thrown "json: not a string"

  unfoldable pub get_bool : Json F → Expected Bool
  get_bool (boolean b) = ok b
  get_bool other = thrown "json: not a boolean"

-- `int` as a 32-bit word, and the same value as an `int64_t`.
abbrev pub int_word : ℕ
int_word = 2 ^ 32

abbrev pub sign_extend : ℕ → ℕ
sign_extend v = if leb (2 ^ 31) v then v + (2 ^ 64 - 2 ^ 32) else v

module _ {F : Type 0} ⦃fl : Floats F⦄ where
  -- `get<int64_t>()`. `is_number_integer()` of the JSON library holds for integers without a sign
  -- too, so that the range check of the source is not met, and the word is read with a sign.
  unfoldable pub get_int64 : Json F → Expected ℕ
  get_int64 (integer v) = ok v
  get_int64 (unsigned v) = ok v
  get_int64 (real x) = ok (fl.to_int x)
  get_int64 other = thrown "json: not a number"

  -- `get<int>()`.
  unfoldable pub get_int : Json F → Expected ℕ
  unfolding get_int64
  get_int j = do
    v ← get_int64 j
    if ltb v (2 ^ 31) || leb (2 ^ 64 - 2 ^ 31) v
        then ok (v % int_word)
        else thrown "json integer out of range"

  unfoldable pub get_double : Json F → Expected F
  get_double (real x) = ok x
  get_double (integer v) = ok (fl.of_int v)
  get_double (unsigned v) = ok (fl.of_int v)
  get_double other = thrown "json: not a number"

  -- `get<std::size_t>()`.
  unfoldable pub get_size : ⦃un : Unsigned F⦄ → Json F → Expected ℕ
  get_size (unsigned v) = ok v
  get_size (integer v) = if is_neg v then thrown "json: negative out of uint64 range" else ok v
  get_size ⦃un⦄ (real x) =
      if fl.lt x (fl.of_int 0)
      then thrown "json: negative out of uint64 range"
      else ok (un.to_uint x)
  get_size other = thrown "json: not a number"

  unfoldable pub get_float : {S : Type 0} ⦃si : Singles F S⦄ → Json F → Expected S
  unfolding get_double
  get_float ⦃si⦄ j = do x ← get_double j; ok (si.narrow x)

module _ {F : Type 0} where
  -- `if (test(v)) out = v.get<A>();`, with `out` as it was otherwise.
  unfoldable pub taken {ℓ} :
      {A : Type ℓ} → (Json F → Bool) → (Json F → Expected A) → Json F → A → Expected A
  taken test get v default = if test v then get v else ok default

  -- `if (j.contains(k) && test(j[k])) out = j[k].get<A>();`
  unfoldable pub read {ℓ} :
      {A : Type ℓ} → (Json F → Bool) → (Json F → Expected A) → Json F → String → A → Expected A
  unfolding lookup
  read test get j k default = elim (lookup j k) [
    | none ↦ ok default
    | some v ↦ taken test get v default
  ]

  unfoldable pub to_some {ℓ} : {A : Type ℓ} → (Json F → Expected A) → Json F → Expected (Option A)
  to_some get v = do a ← get v; ok (some a)

  -- The same where `out` is a `std::optional`.
  unfoldable pub read_optional {ℓ} :
      {A : Type ℓ} → (Json F → Bool) → (Json F → Expected A) → Json F → String → Expected (Option A)
  unfolding read
  read_optional test get j k = read test (to_some get) j k none

  -- `j[k] = *v` or `j[k] = nullptr`.
  unfoldable pub or_null {ℓ} : {A : Type ℓ} → (A → Json F) → Option A → Json F
  or_null json none = null
  or_null json (some a) = json a
