-- ===== src/Ipc/Reading/Fields.antt =====
-- fields that commandFromJson reads in its own way, of src/ipc/protocol.cpp.
use Prim.Native.String.{String, ◌++◌}
use text.Mathlib.Text.{◌==◌ as str_eq}
use caudio.Prelude.{
  ℕ, zero, suc, ◌-◌, ◌/◌, ◌%◌, ◌^◌, Bool, false, List, [], ◌∷◌, Option, none, some, Expected, ok,
  unexpected, ◌>>=◌, get_or, ltb, is_neg, if◌then◌else◌, make_error, invalid_arg,
}
use caudio.Engine.{RepeatMode, off, all, one, Floats}
use caudio.Json.{
  Json, Items, nil, cons, array, is_number, is_string, is_boolean, get_int64, get_int, get_string,
  get_bool, read, read_optional, thrown,
}

abbrev pub append : String → String → String
append s t = s ++ t

-- `parseRepeatMode` of include/caudio/types/parse.hpp.
unfoldable pub parse_repeat : String → Option RepeatMode
parse_repeat s =
    if str_eq s "Off"
    then some off
    else if str_eq s "All"
    then some all
    else if str_eq s "One"
    then some one
    else none

-- `std::to_string(int64_t)`; a 64-bit word has twenty digits at most.
digits : ℕ → ℕ → String
digits zero n = ""
digits (suc fuel) n =
    let last =
      get_or ("0" ∷ "1" ∷ "2" ∷ "3" ∷ "4" ∷ "5" ∷ "6" ∷ "7" ∷ "8" ∷ "9" ∷ []) (n % 10) "" in
    let front = digits fuel (n / 10) in if ltb n 10 then last else append front last

unfoldable pub to_string : ℕ → String
unfolding digits
to_string v = if is_neg v then append "-" (digits 20 (2 ^ 64 - v)) else digits 20 v

module _ {F : Type 0} where
  -- The loop over the elements of "paths": those that are no texts are left out.
  unfoldable pub strings_in : Items F → Expected (List String)
  unfolding is_string get_string
  strings_in nil = ok []
  strings_in (cons x xs) = do
    rest ← strings_in xs
    if is_string x then (do s ← get_string x; ok (s ∷ rest)) else ok rest

  unfoldable pub strings_of : Json F → Expected (List String)
  unfolding strings_in
  strings_of (array xs) = strings_in xs
  strings_of other = thrown "json: array index out of range"

  unfoldable pub repeat_of : Json F → Expected (Option RepeatMode)
  unfolding get_string parse_repeat
  repeat_of v = do
    s ← get_string v
    elim (parse_repeat s) [
      | none ↦ unexpected (make_error invalid_arg "unknown RepeatMode")
      | some m ↦ ok (some m)
    ]

  -- "full_hash", or else the older "mode".
  unfoldable pub full_hash_of : Json F → Expected Bool
  unfolding read is_boolean get_bool is_string get_string
  full_hash_of j = do
    new ← read_optional is_boolean get_bool j "full_hash"
    elim new [
      | some b ↦ ok b
      | none ↦ read is_string (λ v. do s ← get_string v; ok (str_eq s "full")) j "mode" false
    ]

module _ {F : Type 0} ⦃fl : Floats F⦄ where
  -- "query", or else the older "id", a text or a number.
  unfoldable pub removed_of : Json F → Expected String
  unfolding read is_string get_string is_number get_int64 to_string
  removed_of j = do
    query ← read_optional is_string get_string j "query"
    name ← read_optional is_string get_string j "id"
    elim query [
      | some q ↦ ok q
      | none ↦ elim name [
        | some s ↦ ok s
        | none ↦ read is_number (λ v. do n ← get_int64 v; ok (to_string n)) j "id" ""
      ]
    ]

  unfoldable pub top_n_of : String → Json F → Expected (Option ℕ)
  unfolding read is_number get_int
  top_n_of t j = do
    top_n ← read_optional is_number get_int j "top_n"
    elim top_n [
      | some n ↦ ok (some n)
      | none ↦ ok (if str_eq t "LibraryStatsDetailed" then some 10 else none)
    ]
