-- ===== src/Std/Decimal/Range.antt =====
-- The range of `std::stoi`.
use opcuatesttool.Prelude.{
  nat_eq, ◌≡◌, Bool, true, false, [], ◌∷◌, Bool-cases, inl, inr, arith, ℤ, ok, fits_int,
}
use opcuatesttool.Std.Text.{Text}
use opcuatesttool.Std.Decimal.{
  scan_digits, starts_digit, signed, in_range, unsigned_part, sign_part, skip_space, stoi,
}

in_range-fits : (i j : ℤ) → in_range i ≡ ok j → fits_int j ≡ true
unfolding in_range
in_range-fits i j h = elim (Bool-cases (fits_int i)) [ inl p ↦ cc | inr p ↦ cc ]

unsigned_part-fits :
    (negative : Bool) (s : Text) (i : ℤ) → unsigned_part negative s ≡ ok i → fits_int i ≡ true
unfolding unsigned_part
unsigned_part-fits negative s i h = elim (Bool-cases (starts_digit s)) [
  | inl p ↦ in_range-fits (signed negative (scan_digits 0 s)) i (rw (p, unsigned_part) at h)
  | inr p ↦ absurd (ground (arith, p, h))
]

sign_part-fits : (s : Text) (i : ℤ) → sign_part s ≡ ok i → fits_int i ≡ true
unfolding sign_part
sign_part-fits [] i h = cc
sign_part-fits (c ∷ s) i h = ground (
  arith,
  unsigned_part-fits true s i,
  unsigned_part-fits false s i,
  unsigned_part-fits false (c ∷ s) i,
)

-- A number that `std::stoi` reads is an `int`.
pub stoi-fits : (s : Text) (i : ℤ) → stoi s ≡ ok i → fits_int i ≡ true
unfolding stoi
stoi-fits s = sign_part-fits (skip_space s)
