-- ===== src/Prelude/Status.antt =====
-- include/caudio/utils/result.hpp and error.hpp: status codes, errors and `Expected`.
use Prim.Native.String.{String}
use mathlib.Core.Path.{◌≡◌, refl}
use mathlib.Core.Logic.{◌⊎◌, inl, inr}
use mathlib.Core.Bool.{Bool, true, false}

pub data StatusCode : Type 0 where
  ok_code invalid_arg not_found unsupported io device bad_state no_mem internal : StatusCode
  already_exists busy corrupt no_space : StatusCode

pub record Error : Type 0 where
  pub code : StatusCode
  pub message : String

abbrev pub make_error : StatusCode → String → Error
make_error c msg = record { code = c; message = msg }

-- `std::expected<A, Error>`.
pub data Expected {ℓ} (A : Type ℓ) : Type ℓ where
  ok : A → Expected A
  unexpected : Error → Expected A

-- What follows a call that may fail, `abbrev` so that it computes on a result.
infixl 5 ◌>>=◌ ◌>>◌
abbrev pub ◌>>=◌ {ℓ κ} : {A : Type ℓ} {B : Type κ} → Expected A → (A → Expected B) → Expected B
ok a >>= f = f a
unexpected e >>= f = unexpected e

abbrev pub ◌>>◌ {ℓ κ} : {A : Type ℓ} {B : Type κ} → Expected A → Expected B → Expected B
m >> k = m >>= λ _. k

abbrev pub has_value {ℓ} : {A : Type ℓ} → Expected A → Bool
has_value (ok a) = true
has_value (unexpected e) = false

abbrev pub is_empty_string : String → Bool
is_empty_string String.[] = true
is_empty_string (String.◌∷◌ c s) = false

pub Expected-cases {ℓ} :
    {A : Type ℓ} (r : Expected A) → ((a : A) × (r ≡ ok a)) ⊎ ((e : Error) × (r ≡ unexpected e))
Expected-cases (ok a) = inl (a, refl)
Expected-cases (unexpected e) = inr (e, refl)
