-- ===== src/Prelude/Results.antt =====
-- C++ exceptions as values, and the monad that passes them on.
use mathlib.Core.Path.{◌≡◌, refl}
use mathlib.Core.Logic.{◌⊎◌, inl, inr}
use mathlib.Core.Option.{Option, none, some}

-- The exceptions that the program lets arise, by the standard's class or the library's.
pub data Exception : Type 0 where
  invalid_argument : Exception  -- std::stoi found no number
  out_of_range : Exception  -- std::stoi found a number that is no int
  filesystem_error : Exception  -- std::filesystem
  bad_variant_access : Exception  -- std::get at another alternative
  parse_error : Exception  -- nlohmann::json::parse
  json_type_error : Exception  -- nlohmann::json::at or get at another type

pub data Result {ℓ} (A : Type ℓ) : Type ℓ where
  ok : A → Result A
  throw : Exception → Result A

infixl 5 ◌>>=◌ ◌>>◌
abbrev pub ◌>>=◌ {ℓ κ} : {A : Type ℓ} {B : Type κ} → Result A → (A → Result B) → Result B
ok a >>= f = f a
throw x >>= f = throw x

abbrev pub ◌>>◌ {ℓ κ} : {A : Type ℓ} {B : Type κ} → Result A → Result B → Result B
m >> k = m >>= λ _. k

pub Result-cases {ℓ} :
    {A : Type ℓ} (r : Result A) → ((x : Exception) × (r ≡ throw x)) ⊎ ((a : A) × (r ≡ ok a))
Result-cases (throw x) = inl (x, refl)
Result-cases (ok a) = inr (a, refl)

abbrev pub or_throw {ℓ} : {A : Type ℓ} → Exception → Option A → Result A
or_throw x none = throw x
or_throw x (some a) = ok a
