-- ===== src/Ipc/Result/Errors.antt =====
-- Status codes and errors on the wire: resultCodeToString, resultCodeFromString, errorToJson and
-- errorFromJson of src/ipc/protocol.cpp, toString of include/caudio/utils/result.hpp.
use Prim.Native.String.{String}
use text.Mathlib.Text.{◌==◌ as str_eq}
use caudio.Prelude.{
  ℕ, ◌≡◌, refl, none, some, StatusCode, ok_code, invalid_arg, not_found, unsupported, io, device,
  bad_state, no_mem, internal, already_exists, busy, corrupt, no_space, Error, make_error, Expected,
  ok, unexpected, ◌>>=◌, if◌then◌else◌, ◌==◌, is_empty_string, List, [], ◌∷◌,
}
use caudio.Engine.{Floats}
use caudio.Json.{
  Json, null, integer, string, put, read, read_optional, taken, to_some, is_number, is_string,
  get_int, get_string,
}

unfoldable pub code_text : StatusCode → String
code_text ok_code = "Ok"
code_text invalid_arg = "InvalidArg"
code_text not_found = "NotFound"
code_text unsupported = "Unsupported"
code_text io = "Io"
code_text device = "Device"
code_text bad_state = "State"
code_text no_mem = "NoMem"
code_text internal = "Internal"
code_text already_exists = "AlreadyExists"
code_text busy = "Busy"
code_text corrupt = "Corrupt"
code_text no_space = "NoSpace"

-- `std::to_underlying`.
unfoldable pub code_value : StatusCode → ℕ
code_value ok_code = 0
code_value invalid_arg = 1
code_value not_found = 2
code_value unsupported = 3
code_value io = 4
code_value device = 5
code_value bad_state = 6
code_value no_mem = 7
code_value internal = 8
code_value already_exists = 9
code_value busy = 10
code_value corrupt = 11
code_value no_space = 12

unfoldable pub code_from_text : String → Expected StatusCode
code_from_text s =
    if str_eq s "Ok"
    then ok ok_code
    else if str_eq s "InvalidArg"
    then ok invalid_arg
    else if str_eq s "NotFound"
    then ok not_found
    else if str_eq s "Unsupported"
    then ok unsupported
    else if str_eq s "Io"
    then ok io
    else if str_eq s "Device"
    then ok device
    else if str_eq s "State"
    then ok bad_state
    else if str_eq s "NoMem"
    then ok no_mem
    else if str_eq s "Internal"
    then ok internal
    else if str_eq s "AlreadyExists"
    then ok already_exists
    else if str_eq s "Busy"
    then ok busy
    else if str_eq s "Corrupt"
    then ok corrupt
    else if str_eq s "NoSpace"
    then ok no_space
    else unexpected (make_error invalid_arg "unknown Result code")

-- The loop over the codes for the one with the value `v`; the empty text where there is none.
text_of_value : ℕ → List StatusCode → String
unfolding code_text code_value
text_of_value v [] = ""
text_of_value v (c ∷ cs) = if code_value c == v then code_text c else text_of_value v cs

module _ {F : Type 0} where
  unfoldable pub error_to_json : Error → Expected (Json F)
  unfolding put code_text code_value
  error_to_json e = do
    j ← put "type" (string "Error") null
    j ← put "code" (string (code_text e.code)) j
    j ← put "code_value" (integer (code_value e.code)) j
    put "message" (string e.message) j

module _ {F : Type 0} ⦃fl : Floats F⦄ where
  -- "code", or else the code with the number at "code_value".
  code_in : Json F → Expected String
  unfolding text_of_value
  code_in j = do
    name ← read_optional is_string get_string j "code"
    elim name [
      | some s ↦ ok s
      | none ↦
          read is_number
            (λ v. do
              n ← get_int v
              ok (
                  text_of_value n (
                    ok_code ∷ invalid_arg ∷ not_found ∷ unsupported ∷ io ∷ device ∷ bad_state
                    ∷ no_mem ∷ internal ∷ already_exists ∷ busy ∷ corrupt ∷ no_space ∷ [])))
            j "code_value" ""
    ]

  unfoldable pub error_from_json : Json F → Expected Error
  unfolding code_in code_from_text
  error_from_json j = do
    name ← code_in j
    message ← read is_string get_string j "message" ""
    code ← code_from_text (if is_empty_string name then "Internal" else name)
    ok (record { code = code; message = message })

module _ (F : Type 0) ⦃fl : Floats F⦄ where
  pub error_from_json-to_json : (e : Error) → (error_to_json {F = F} e >>= error_from_json) ≡ ok e
  unfolding error_to_json error_from_json read read_optional taken to_some is_string get_string
  error_from_json-to_json e = by_code e.code e.message
    where
      by_code :
          (c : StatusCode) (m : String)
          → (error_to_json {F = F} (make_error c m) >>= error_from_json) ≡ ok (make_error c m)
      by_code ok_code m = refl
      by_code c m = refl
