-- ===== src/Std/Decimal.antt =====
-- `std::to_string(int)` and `std::stoi`, base ten.
pub mod RoundTrip
pub mod Errors
pub mod Range
use opcuatesttool.Prelude.{
  nat_eq, ℕ, zero, suc, ◌+◌, ◌-◌, ◌*◌, ◌/◌, ◌%◌, ◌≡◌, refl, Bool, true, false, ◌&&◌, ◌||◌, List, [],
  ◌∷◌, ltb, leb, ◌==◌, if◌then◌else◌, ℤ, pos, negsuc, fits_int, Result, ok, throw, invalid_argument,
  out_of_range,
}
use opcuatesttool.Std.Text.{Text, codes}

-- The digits of `n`, in front of `out`; fuel `n` is enough.
digits : ℕ → ℕ → Text → Text
digits zero n out = (b'0' + n % 10) ∷ out
digits (suc f) n out =
    let rest = digits f (n / 10) ((b'0' + n % 10) ∷ out) in
    if ltb n 10 then (b'0' + n) ∷ out else rest

unfoldable pub to_string : ℤ → Text
unfolding digits
to_string (pos n) = digits n n []
to_string (negsuc n) = b'-' ∷ digits (suc n) (suc n) []

abbrev pub is_digit : ℕ → Bool
is_digit c = leb b'0' c && leb c b'9'

-- `isspace` of the C locale.
abbrev is_space : ℕ → Bool
is_space c = c == b' ' || (leb 9 c && leb c 13)

skip_space : Text → Text
skip_space [] = []
skip_space (c ∷ s) = if is_space c then skip_space s else c ∷ s

-- The number that the leading digits denote, after those that made `acc`.
scan_digits : ℕ → Text → ℕ
scan_digits acc [] = acc
scan_digits acc (c ∷ s) =
    let rest = scan_digits (acc * 10 + (c - b'0')) s in if is_digit c then rest else acc

starts_digit : Text → Bool
starts_digit [] = false
starts_digit (c ∷ s) = is_digit c

abbrev signed : Bool → ℕ → ℤ
signed false n = pos n
signed true zero = pos 0
signed true (suc n) = negsuc n

in_range : ℤ → Result ℤ
in_range i = if fits_int i then ok i else throw out_of_range

unsigned_part : Bool → Text → Result ℤ
unfolding scan_digits starts_digit in_range
unsigned_part negative s =
    if starts_digit s then in_range (signed negative (scan_digits 0 s)) else throw invalid_argument

sign_part : Text → Result ℤ
unfolding unsigned_part
sign_part [] = throw invalid_argument
sign_part (c ∷ s) =
    if c == b'-'
    then unsigned_part true s
    else if c == b'+'
    then unsigned_part false s
    else unsigned_part false (c ∷ s)

-- Leading space is skipped, and what follows the digits is ignored.
unfoldable pub stoi : Text → Result ℤ
unfolding skip_space sign_part
stoi s = sign_part (skip_space s)

to_string_samples :
    (to_string (pos 0) ≡ codes "0")
    × (to_string (pos 2147483647) ≡ codes "2147483647")
    × (to_string (negsuc 41) ≡ codes "-42")
unfolding to_string
to_string_samples = (refl, refl, refl)

stoi_samples :
    (stoi (codes " 12ab") ≡ ok (pos 12))
    × (stoi (codes "-7") ≡ ok (negsuc 6))
    × (stoi (codes "result.json") ≡ throw invalid_argument)
    × (stoi (codes "2147483648") ≡ throw out_of_range)
unfolding stoi
stoi_samples = (refl, refl, refl, refl)
