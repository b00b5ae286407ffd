-- ===== src/Std/Decimal/RoundTrip.antt =====
-- `std::stoi` reads back what `std::to_string` printed, so different ids have different names.
use opcuatesttool.Prelude.{
  ℕ, zero, suc, ◌+◌, ◌/◌, ◌%◌, ◌≤◌, ◌<◌, ◌≡◌, refl, sym, ap, ◌∙◌, true, false, [], ◌∷◌, arith, ℤ,
  pos, negsuc, fits_int, Result, ok,
}
use opcuatesttool.Std.Text.{Text, Lacks, is_empty}
use opcuatesttool.Std.Decimal.{digits, to_string, scan_digits, starts_digit, stoi, in_range}

scan-digits : (f n : ℕ) (out : Text) → n ≤ f → scan_digits 0 (digits f n out) ≡ scan_digits n out
unfolding digits scan_digits
scan-digits zero n out h = ground arith
scan-digits (suc f) n out h = ground (arith, scan-digits f (n / 10) ((b'0' + n % 10) ∷ out))

starts_digit-digits : (f n : ℕ) (out : Text) → starts_digit (digits f n out) ≡ true
unfolding digits starts_digit
starts_digit-digits zero n out = ground arith
starts_digit-digits (suc f) n out =
    ground (arith, starts_digit-digits f (n / 10) ((b'0' + n % 10) ∷ out))

stoi_of_digits : (s : Text) → starts_digit s ≡ true → stoi s ≡ in_range (pos (scan_digits 0 s))
unfolding stoi starts_digit
stoi_of_digits [] h = cc
stoi_of_digits (c ∷ s) h = ground arith

stoi_of_minus :
    (s : Text) (n : ℕ)
    → starts_digit s ≡ true
    → scan_digits 0 s ≡ suc n
    → stoi (b'-' ∷ s) ≡ in_range (negsuc n)
unfolding stoi in_range
stoi_of_minus s n h e = rw (h, e)

pub stoi-to_string : (i : ℤ) → fits_int i ≡ true → stoi (to_string i) ≡ ok i
unfolding to_string in_range
stoi-to_string (pos n) h =
    rw (stoi_of_digits _ (starts_digit-digits n n []), scan-digits n n [] (omega arith))
      (unfold scan_digits in rw h)
stoi-to_string (negsuc n) h =
    rw
      (stoi_of_minus (digits (suc n) (suc n) []) n (starts_digit-digits (suc n) (suc n) [])
        (scan-digits (suc n) (suc n) [] (omega arith) ∙ (unfold scan_digits in refl)))
      (rw h)

-- A number in a file name holds no character but digits and the sign.
digits-Lacks : (b f n : ℕ) (out : Text) → b < b'0' → Lacks b out → Lacks b (digits f n out)
unfolding digits
digits-Lacks b zero n out h l = ground arith
digits-Lacks b (suc f) n out h l =
    ground (arith, digits-Lacks b f (n / 10) ((b'0' + n % 10) ∷ out) h)

pub to_string-Lacks_slash : (i : ℤ) → Lacks b'/' (to_string i)
unfolding to_string
to_string-Lacks_slash (pos n) = digits-Lacks b'/' n n [] (omega arith) tt
to_string-Lacks_slash (negsuc n) =
    (omega arith, digits-Lacks b'/' (suc n) (suc n) [] (omega arith) tt)

is_empty-starts_digit : (s : Text) → starts_digit s ≡ true → is_empty s ≡ false
unfolding starts_digit
is_empty-starts_digit [] h = cc
is_empty-starts_digit (c ∷ s) h = refl

pub is_empty-to_string : (i : ℤ) → is_empty (to_string i) ≡ false
unfolding to_string
is_empty-to_string (pos n) = is_empty-starts_digit _ (starts_digit-digits n n [])
is_empty-to_string (negsuc n) = refl

-- Different numbers have different texts.
pub to_string_injective :
    (i j : ℤ) → fits_int i ≡ true → fits_int j ≡ true → to_string i ≡ to_string j → i ≡ j
to_string_injective i j h k e =
    ok_injective (sym (stoi-to_string i h) ∙ ap stoi e ∙ stoi-to_string j k)
  where
    ok_injective : {a b : ℤ} → ◌≡◌ {A = Result ℤ} (ok a) (ok b) → a ≡ b
    ok_injective p = cc
