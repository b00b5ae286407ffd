-- ===== src/DataBase/Termination.antt =====
-- `getFinishedJobs` of testService/DataBase.cpp: its loops end for all arguments, also where `fromId +
-- max` or `highestId - max` wraps around.
use opcuatesttool.Prelude.{
  ℕ, zero, suc, nat_eq, int_eq, ◌+◌, ◌-◌, ◌<◌, ◌≡◌, ◌≢◌, refl, Bool, true, false, ◌&&◌, Option,
  none, some, List, [], ◌∷◌, ◌==◌, ltb_ℤ, leb_ℤ, if◌then◌else◌, ℤ, pos, negsuc, add_int, sub_int,
  pos_part, neg_part, leb_ℤ-negative, fits_int, arith, Result-cases, Bool-cases, Option-cases, inl,
  inr, ok,
}
use opcuatesttool.Std.Text.{Text}
use opcuatesttool.Std.Decimal.{to_string, stoi}
use opcuatesttool.Std.Decimal.Range.{stoi-fits}
use opcuatesttool.Std.Files.{FileSystem, ◌/◌, read, list_directory}
use opcuatesttool.DataBase.Defs.{DataBase}
use opcuatesttool.DataBase.Finished.{find_from, forward, backward, page, closed, get_finished_jobs}

-- `id++` below a bound.
add_int-below :
    (id limit : ℤ)
    → fits_int id ≡ true
    → fits_int limit ≡ true
    → ltb_ℤ id limit ≡ true
    → (fits_int (add_int id (pos 1)) ≡ true)
      × (pos_part (add_int id (pos 1)) + neg_part id
          ≡ suc (pos_part id + neg_part (add_int id (pos 1))))
unfolding ltb_ℤ add_int
add_int-below (pos n) (pos m) f g h = ground arith
add_int-below (pos n) (negsuc m) f g h = ground arith
add_int-below (negsuc n) (pos m) f g h = ground arith
add_int-below (negsuc n) (negsuc m) f g h = ground arith

-- The rounds of a loop down to 0.
abbrev down_to_zero : ℤ → ℕ
down_to_zero (pos n) = suc n
down_to_zero (negsuc n) = 0

-- `id--` from a number that is not negative.
sub_int-fits :
    (n : ℕ)
    → fits_int (pos n) ≡ true
    → (fits_int (sub_int (pos n) (pos 1)) ≡ true) × (down_to_zero (sub_int (pos n) (pos 1)) ≡ n)
unfolding sub_int
sub_int-fits zero f = (refl, refl)
sub_int-fits (suc n) f = ground arith

-- What is left of the distance after `id++`.
add_int-closer :
    (id limit : ℤ) (fuel : ℕ)
    → fits_int id ≡ true
    → fits_int limit ≡ true
    → ltb_ℤ id limit ≡ true
    → pos_part limit + neg_part id - (pos_part id + neg_part limit) < suc fuel
    → pos_part limit
        + neg_part (add_int id (pos 1))
        - (pos_part (add_int id (pos 1)) + neg_part limit)
      < fuel
unfolding ltb_ℤ
add_int-closer id limit fuel f g h d = ground (arith, (add_int-below id limit f g h).1, h, d)

-- The loop has ended, with what it wrote.
abbrev Ends : Option Text → Type 0
Ends none = ⊥
Ends (some text) = Unit {0}

module _ (fs : FileSystem) (dir : Text) (limit : ℤ) where
  forward-Ends :
      (fuel : ℕ) (id : ℤ) (c : ℕ) (out : Text)
      → fits_int limit ≡ true
      → fits_int id ≡ true
      → pos_part limit + neg_part id - (pos_part id + neg_part limit) < fuel
      → Ends (forward fuel fs dir limit id c out)
  unfolding forward
  forward-Ends zero id c out f g h = elim h [ ]
  forward-Ends (suc fuel) id c out f g h = elim (Bool-cases (ltb_ℤ id limit)) [
    | inr done ↦ rw done tt
    | inl more ↦ elim (Option-cases (read fs (dir / to_string id))) [
      | inl miss ↦ rw (more, miss) tt
      | inr (content, hit) ↦
          rw (more, hit)
            (forward-Ends fuel (add_int id (pos 1)) (suc c) _ f (add_int-below id limit g f more).0
              (add_int-closer id limit fuel g f more h))
    ]
  ]

  backward-Ends :
      (fuel : ℕ) (id : ℤ) (c : ℕ) (out : Text)
      → fits_int id ≡ true
      → down_to_zero id < fuel
      → Ends (backward fuel fs dir limit id c out)
  unfolding backward
  backward-Ends zero id c out f h = elim h [ ]
  backward-Ends (suc fuel) (negsuc n) c out f h = rw (leb_ℤ-negative 0 n) tt
  backward-Ends (suc fuel) (pos n) c out f h =
      elim (Bool-cases (leb_ℤ (pos 0) (pos n) && leb_ℤ limit (pos n))) [
        | inr done ↦ rw done tt
        | inl more ↦ elim (Option-cases (read fs (dir / to_string (pos n)))) [
          | inl miss ↦ rw (more, miss) tt
          | inr (content, hit) ↦
              rw (more, hit)
                (backward-Ends fuel (sub_int (pos n) (pos 1)) (suc c) _ (sub_int-fits n f).0
                  (omega (arith, (sub_int-fits n f).1, h)))
        ]
      ]

larger-fits :
    (a b : ℤ) → fits_int a ≡ true → fits_int b ≡ true → fits_int (if ltb_ℤ a b then b else a) ≡ true
larger-fits a b f g = elim (Bool-cases (ltb_ℤ a b)) [ inl p ↦ rw p g | inr p ↦ rw p f ]

find_from-fits :
    (from highest : ℤ) (names : List Text)
    → fits_int highest ≡ true
    → fits_int (find_from from highest names).0 ≡ true
unfolding find_from
find_from-fits from highest [] f = f
find_from-fits from highest (name ∷ names) f = elim (Result-cases (stoi name)) [
  | inl (x, e) ↦ rw (e, find_from) (find_from-fits from highest names f)
  | inr (i, e) ↦ elim (Bool-cases (i == from)) [
    | inl found ↦ rw (e, find_from) (rw found (larger-fits highest i f (stoi-fits name i e)))
    | inr other ↦
        rw (e, find_from)
          (rw other (
            find_from-fits from (if ltb_ℤ highest i then i else highest) names
              (larger-fits highest i f (stoi-fits name i e))))
  ]
]

add_int-fits : (a b : ℤ) → fits_int a ≡ true → fits_int b ≡ true → fits_int (add_int a b) ≡ true
unfolding add_int
add_int-fits (pos a) (pos b) f g = ground arith
add_int-fits (pos a) (negsuc b) f g = ground arith
add_int-fits (negsuc a) (pos b) f g = ground arith
add_int-fits (negsuc a) (negsuc b) f g = ground arith

down_to_zero-lt : (id : ℤ) → down_to_zero id < suc (suc (pos_part id + 0 - (0 + neg_part id)))
down_to_zero-lt (pos n) = omega arith
down_to_zero-lt (negsuc n) = omega arith

page-Ends :
    (fs : FileSystem) (dir : Text) (from max highest : ℤ) (found : Bool)
    → fits_int from ≡ true
    → fits_int max ≡ true
    → fits_int highest ≡ true
    → Ends (page fs dir from max (highest, found))
unfolding page
page-Ends fs dir from max highest true f m g =
    forward-Ends fs dir (add_int from max) _ from 0 _ (add_int-fits from max f m) f (omega arith)
page-Ends fs dir from max highest false f m g =
    backward-Ends fs dir (sub_int highest max) _ highest 0 _ g (down_to_zero-lt highest)

closed-ne : (o : Option Text) → Ends o → closed o ≢ ok none
closed-ne none h e = h
closed-ne (some text) h e = cc

-- For all two numbers of the type `int` and whatever the directory holds, the loops of
-- `getFinishedJobs` end: the bound that the model gives them is enough.
pub get_finished_jobs-ends :
    (db : DataBase) (fs : FileSystem) (from max : ℤ)
    → fits_int from ≡ true
    → fits_int max ≡ true
    → get_finished_jobs db from max fs ≢ ok none
unfolding get_finished_jobs
get_finished_jobs-ends db fs from max f m =
    elim (Result-cases (list_directory fs db.jobs_finished_dir)) [
      | inl (x, e) ↦ rw (e, get_finished_jobs) (λ h. cc)
      | inr (names, e) ↦
          let found = find_from from (negsuc 0) names in
          rw (e, get_finished_jobs)
            (closed-ne _ (
              page-Ends fs db.jobs_finished_dir from max found.0 found.1 f m
                (find_from-fits from (negsuc 0) names refl)))
    ]
