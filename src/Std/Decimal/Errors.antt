-- ===== src/Std/Decimal/Errors.antt =====
-- The exceptions of `std::stoi`.
use opcuatesttool.Prelude.{
  nat_eq, ◌≡◌, ◌≢◌, Bool, true, false, [], ◌∷◌, Bool-cases, inl, inr, arith, ℤ, Exception, Result,
  throw, invalid_argument, out_of_range,
}
use opcuatesttool.Std.Text.{Text}
use opcuatesttool.Std.Decimal.{
  scan_digits, starts_digit, signed, in_range, unsigned_part, sign_part, skip_space, stoi,
}

throw_injective : (a b : Exception) → ◌≡◌ {A = Result ℤ} (throw a) (throw b) → b ≡ a
throw_injective a b p = cc

in_range-ne : (e : Exception) (i : ℤ) → e ≢ out_of_range → in_range i ≢ throw e
unfolding in_range
in_range-ne e i n h = ground arith

unsigned_part-ne :
    (e : Exception) (negative : Bool) (s : Text)
    → e ≢ invalid_argument
    → e ≢ out_of_range
    → unsigned_part negative s ≢ throw e
unfolding unsigned_part
unsigned_part-ne e negative s m n h = elim (Bool-cases (starts_digit s)) [
  | inl p ↦ in_range-ne e (signed negative (scan_digits 0 s)) n (rw (p, unsigned_part) at h)
  | inr p ↦ m (throw_injective _ _ (rw (p, unsigned_part) at h))
]

sign_part-ne :
    (e : Exception) (s : Text) → e ≢ invalid_argument → e ≢ out_of_range → sign_part s ≢ throw e
unfolding sign_part
sign_part-ne e [] m n h = ground arith
sign_part-ne e (c ∷ s) m n h = ground (
  arith,
  unsigned_part-ne e true s m n,
  unsigned_part-ne e false s m n,
  unsigned_part-ne e false (c ∷ s) m n,
)

-- `std::stoi` throws nothing but these two.
pub stoi-ne :
    (e : Exception) (s : Text) → e ≢ invalid_argument → e ≢ out_of_range → stoi s ≢ throw e
unfolding stoi
stoi-ne e s = sign_part-ne e (skip_space s)
