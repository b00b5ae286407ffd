-- ===== src/DataBase/Newest.antt =====
-- The pages of `getFinishedJobs` that start at the newest result.
use opcuatesttool.Prelude.{
  ℕ, zero, suc, nat_eq, int_eq, ◌+◌, ◌-◌, ◌≤◌, ◌<◌, ◌≡◌, ◌&&◌, none, some, List, [], ◌∷◌, ◌++◌,
  append_assoc, append-nil, leb, ℤ, pos, negsuc, sub_int, arith, int_half, Option-cases, inl, inr,
  ◌∙◌, leb_ℤ, leb_ℤ-pos, leb_ℤ-negative, leb_ℤ-sub_int, sub_int-one, sub_int-zero_one, le→leb,
  lt→leb,
}
use Prim.Native.Nat.{min}
use opcuatesttool.Std.Text.{Text}
use opcuatesttool.Std.Decimal.{to_string}
use opcuatesttool.Std.Files.{FileSystem, ◌/◌, read}
use opcuatesttool.DataBase.Finished.{copy_file, backward}
use opcuatesttool.DataBase.Pages.{following, joined}

abbrev pub before : ℕ → ℕ
before zero = zero
before (suc n) = n

module _ (fs : FileSystem) (dir : Text) where
  -- The entries for the results `n`, `n - 1`, … , at most `r`, up to the first that is missing.
  unfoldable pub descending : ℕ → ℕ → List Text
  descending n zero = []
  descending n (suc r) = elim (read fs (dir / to_string (pos n))) [
    | none ↦ []
    | some content ↦ copy_file content ∷ descending (before n) r
  ]

module _ (fs : FileSystem) (dir : Text) (n r : ℕ) where
  descending-miss : read fs (dir / to_string (pos n)) ≡ none → descending fs dir n (suc r) ≡ []
  unfolding descending
  descending-miss e = rw (e, descending)

  pub descending-hit :
      {content : Text}
      → read fs (dir / to_string (pos n)) ≡ some content
      → descending fs dir n (suc r) ≡ copy_file content ∷ descending fs dir (before n) r
  unfolding descending
  descending-hit e = rw (e, descending)

-- The loop variable when `k` numbers, `k - 1` down to 0, are left.
abbrev countdown : ℕ → ℤ
countdown zero = negsuc 0
countdown (suc n) = pos n

sub_int-countdown : (n : ℕ) → n < int_half → sub_int (pos n) (pos 1) ≡ countdown n
sub_int-countdown zero h = sub_int-zero_one
sub_int-countdown (suc n) h = sub_int-one n (omega arith)

module _ (fs : FileSystem) (dir : Text) (high max : ℕ) (fits : high < int_half)
    (fits_max : max < int_half) where
  -- The test of the loop.
  continues :
      (n : ℕ)
      → (leb_ℤ (pos 0) (pos n) && leb_ℤ (sub_int (pos high) (pos max)) (pos n)) ≡ leb high (n + max)
  continues n =
      rw (leb_ℤ-pos 0 n, le→leb 0 n (omega arith)) (leb_ℤ-sub_int high max n fits fits_max)

  backward_started :
      (fuel r k c : ℕ) (out : Text)
      → r < fuel
      → k ≤ suc high
      → high ≤ k + max
      → r ≡ min k (k + max - high)
      → backward fuel fs dir (sub_int (pos high) (pos max)) (countdown k) (suc c) out
        ≡ some (out ++ following (descending fs dir (before k) r))
  unfolding backward descending
  backward_started zero r k c out f g h e = elim f [ ]
  backward_started (suc fuel) zero zero c out f g h e =
      rw (leb_ℤ-negative 0 0, descending) (simp append-nil)
  backward_started (suc fuel) zero (suc n) c out f g h e =
      rw (continues n, lt→leb high (n + max) (omega arith), descending) (simp append-nil)
  backward_started (suc fuel) (suc r) zero c out f g h e = absurd (omega arith)
  backward_started (suc fuel) (suc r) (suc n) c out f g h e =
      elim (Option-cases (read fs (dir / to_string (pos n)))) [
        | inl miss ↦
            rw
              (
                continues n,
                le→leb high (n + max) (omega arith),
                descending-miss fs dir n r miss,
                miss,
              )
              (simp append-nil)
        | inr (content, hit) ↦
            rw
              (continues n, le→leb high (n + max) (omega arith), descending-hit fs dir n r hit, hit)
              (rw (sub_int-countdown n (omega arith)) (
                backward_started fuel r n (suc c) _ (omega arith) (omega arith) (omega arith)
                  (omega arith)
                ∙ simp append_assoc))
      ]

  pub backward_lem :
      (fuel : ℕ) (out : Text)
      → suc (min high max) < fuel
      → backward fuel fs dir (sub_int (pos high) (pos max)) (pos high) 0 out
        ≡ some (out ++ joined (descending fs dir high (suc (min high max))))
  unfolding backward
  backward_lem zero out f = elim f [ ]
  backward_lem (suc fuel) out f = elim (Option-cases (read fs (dir / to_string (pos high)))) [
    | inl miss ↦
        rw
          (
            continues high,
            le→leb high (high + max) (omega arith),
            descending-miss fs dir high (min high max) miss,
            miss,
          )
          (simp append-nil)
    | inr (content, hit) ↦
        rw
          (
            continues high,
            le→leb high (high + max) (omega arith),
            descending-hit fs dir high (min high max) hit,
            hit,
          )
          (rw (sub_int-countdown high fits) (
            backward_started fuel (min high max) high 0 _ (omega arith) (omega arith) (omega arith)
              (omega arith)
            ∙ simp (append_assoc, append-nil)))
  ]

pub backward_nothing :
    (fs : FileSystem) (dir : Text) (fuel : ℕ) (limit : ℤ) (out : Text)
    → backward (suc fuel) fs dir limit (negsuc 0) 0 out ≡ some out
unfolding backward
backward_nothing fs dir fuel limit out = rw (leb_ℤ-negative 0 0)
