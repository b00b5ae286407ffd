-- ===== src/Prelude/Pigeonhole.antt =====
-- Different values that a list holds are at most as many as the list is long.
use Prim.Native.Nat.{ℕ, zero, suc, ◌≤◌, ◌<◌}
use mathlib.Core.Path.{◌≡◌, sym}
use mathlib.Core.Logic.{◌≢◌}
use mathlib.Core.Bool.{true}
use mathlib.Core.List.{List, [], ◌∷◌}
use native.Mathlib.Omega.{arith}
use opcuatesttool.Prelude.Tests.{if◌then◌else◌}
use opcuatesttool.Prelude.Equality.{Eq, ◌==◌}
use opcuatesttool.Prelude.Lists.{length, contains}

module _ {ℓ} {A : Type ℓ} ⦃e : Eq A⦄ where
  -- The list without the first `a`.
  remove : A → List A → List A
  remove a [] = []
  remove a (x ∷ xs) = if x == a then xs else x ∷ remove a xs

  length-remove :
      (a : A) (xs : List A) → contains a xs ≡ true → suc (length (remove a xs)) ≡ length xs
  unfolding remove
  length-remove a [] h = cc
  length-remove a (x ∷ xs) h = ground (arith, length-remove a xs)

  contains-remove :
      (a b : A) (xs : List A) → a ≢ b → contains b xs ≡ true → contains b (remove a xs) ≡ true
  unfolding remove
  contains-remove a b [] ne h = cc
  contains-remove a b (x ∷ xs) ne h =
      ground (arith, e.beq_iff x a, e.beq_iff x b, contains-remove a b xs)

  pub pigeonhole :
      (f : ℕ → A) (n : ℕ) (xs : List A)
      → ((i j : ℕ) → i < j → j < n → f i ≢ f j)
      → ((i : ℕ) → i < n → contains (f i) xs ≡ true)
      → n ≤ length xs
  pigeonhole f zero xs ne all = omega arith
  pigeonhole f (suc n) xs ne all = omega (
    arith,
    length-remove (f n) xs (all n (omega arith)),
    pigeonhole f n (remove (f n) xs) (λ i j h k. ne i j h (omega arith))
        (λ i h.
          contains-remove (f n) (f i) xs (λ p. ne i n h (omega arith) (sym p))
            (all i (omega arith))),
  )
