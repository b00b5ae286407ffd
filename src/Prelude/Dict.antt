-- ===== src/Prelude/Dict.antt =====
-- Maps as association lists: `std::unordered_map`, and the files of a file system by path.
use Prim.Native.Nat.{suc}
use mathlib.Core.Path.{◌≡◌, refl}
use mathlib.Core.Option.{Option, none, some}
use mathlib.Core.List.{List, [], ◌∷◌}
use native.Mathlib.Omega.{arith}
use opcuatesttool.Prelude.Tests.{if◌then◌else◌}
use opcuatesttool.Prelude.Equality.{Eq, ◌==◌}
use opcuatesttool.Prelude.Lists.{length}

abbrev pub Dict {ℓ κ} : Type ℓ → Type κ → Type (ℓ ⊔ κ)
Dict K V = List (K × V)

module _ {ℓ κ} {K : Type ℓ} {V : Type κ} ⦃e : Eq K⦄ where
  unfoldable pub lookup : K → Dict K V → Option V
  lookup key [] = none
  lookup key ((other, value) ∷ rest) = if other == key then some value else lookup key rest

  -- `m[k] = v`: assigns to the entry of `k`, or makes one.
  unfoldable pub insert : K → V → Dict K V → Dict K V
  insert key value [] = (key, value) ∷ []
  insert key value ((other, old) ∷ rest) =
      if other == key then (key, value) ∷ rest else (other, old) ∷ insert key value rest

  unfoldable pub erase : K → Dict K V → Dict K V
  erase key [] = []
  erase key ((other, value) ∷ rest) = if other == key then rest else (other, value) ∷ erase key rest

  pub lookup-insert :
      (new key : K) (value : V) (dict : Dict K V)
      → lookup key (insert new value dict) ≡ (if new == key then some value else lookup key dict)
  unfolding lookup insert
  lookup-insert new key value [] = refl
  lookup-insert new key value ((j, w) ∷ rest) =
      ground (
        arith,
        lookup-insert new key value rest,
        e.beq_iff j new,
        e.beq_iff j key,
        e.beq_iff new key,
      )

  pub length-insert_new :
      (k : K) (v : V) (m : Dict K V) → lookup k m ≡ none → length (insert k v m) ≡ suc (length m)
  unfolding lookup insert
  length-insert_new k v [] h = refl
  length-insert_new k v ((i, w) ∷ m) h = ground (arith, length-insert_new k v m)

  pub length-erase :
      (k : K) (v : V) (m : Dict K V) → lookup k m ≡ some v → suc (length (erase k m)) ≡ length m
  unfolding lookup erase
  length-erase k v [] h = cc
  length-erase k v ((i, w) ∷ m) h = ground (arith, length-erase k v m)
