-- ===== src/DataBase/Listing.antt =====
-- The first loop of `getFinishedJobs`: the search of the result directory for `fromId`.
use opcuatesttool.Prelude.{Result-cases}
use opcuatesttool.Prelude.{
  ℕ, nat_eq, int_eq, text_eq, ◌≡◌, refl, ◌⊎◌, inl, inr, Bool, true, false, ◌||◌, some, List, [],
  ◌∷◌, ◌==◌, contains, ltb_ℤ, if◌then◌else◌, ℤ, pos, negsuc, fits_int, ◌≤ℤ◌, Result, Exception,
  subst, ok, throw, arith, Bool-cases, int_beq_iff, list_beq_iff, beq_self, or-true, or-false, ap,
  ◌∙◌,
}
use opcuatesttool.Std.Text.{Text}
use opcuatesttool.Std.Decimal.{to_string, stoi}
use opcuatesttool.Std.Decimal.RoundTrip.{stoi-to_string, to_string-Lacks_slash}
use opcuatesttool.Std.Files.{FileSystem, ◌/◌, read, list_directory}
use opcuatesttool.Std.Files.Listing.{listed-read}
use opcuatesttool.DataBase.Finished.{find_from}

abbrev reads_as : ℤ → Result ℤ → Bool
reads_as id (throw e) = false
reads_as id (ok file_id) = file_id == id

-- A name of the list is read as the number `id`.
unfoldable pub listed : ℤ → List Text → Bool
listed id [] = false
listed id (name ∷ names) = reads_as id (stoi name) || listed id names

pub find_from-listed :
    (from highest : ℤ) (names : List Text) → (find_from from highest names).1 ≡ listed from names
unfolding find_from listed
find_from-listed from highest [] = refl
find_from-listed from highest (name ∷ names) = elim (Result-cases (stoi name)) [
  | inl (e, h) ↦ rw (h, find_from) (find_from-listed from highest names)
  | inr (i, h) ↦
      rw (h, find_from)
        (ground (arith, find_from-listed from (if ltb_ℤ highest i then i else highest) names))
]

-- Every number in the list is at most `high`.
abbrev pub Bounded : ℤ → List Text → Type 0
Bounded high names = (id : ℤ) → listed id names ≡ true → id ≤ℤ high

listed-contains :
    (id : ℤ) (name : Text) (names : List Text)
    → stoi name ≡ ok id
    → contains name names ≡ true
    → listed id names ≡ true
unfolding listed
listed-contains id name [] e h = cc
listed-contains id name (n ∷ names) e h = elim (Bool-cases (n == name)) [
  | inl same ↦ rw ((list_beq_iff n name).0 same, e, beq_self id)
  | inr other ↦ rw (listed-contains id name names e (rw other at h), or-true)
]

-- A result file whose name is the number `id` is found.
pub listed-finished :
    (fs : FileSystem) (dir : Text) (id : ℤ) (content : Text) (names : List Text)
    → fits_int id ≡ true
    → read fs (dir / to_string id) ≡ some content
    → list_directory fs dir ≡ ok names
    → listed id names ≡ true
listed-finished fs dir id content names f h e =
    listed-contains id (to_string id) names (stoi-to_string id f)
      (listed-read fs dir (to_string id) content names (to_string-Lacks_slash id) h e)

abbrev larger : ℤ → ℤ → ℤ
larger a b = if ltb_ℤ a b then b else a

≤ℤ-larger : (a b : ℤ) → (a ≤ℤ larger a b) × (b ≤ℤ larger a b)
unfolding ltb_ℤ
≤ℤ-larger a b = ground arith

larger-cases : (a b : ℤ) → (larger a b ≡ a) ⊎ (larger a b ≡ b)
larger-cases a b = ground arith

≤ℤ_trans : (a b c : ℤ) → a ≤ℤ b → b ≤ℤ c → a ≤ℤ c
≤ℤ_trans a b c h k = omega arith

record Found (highest : ℤ) (names : List Text) (result : ℤ) : Type 0 where
  from_start : highest ≤ℤ result
  from_names : Bounded result names
  attained : (result ≡ highest) ⊎ (listed result names ≡ true)

module _ (name : Text) (names : List Text) where
  listed-skip :
      (id : ℤ) {e : Exception} → stoi name ≡ throw e → listed id (name ∷ names) ≡ listed id names
  unfolding listed
  listed-skip id p = rw p

  listed-next :
      (id i : ℤ) → stoi name ≡ ok i → listed id (name ∷ names) ≡ (i == id || listed id names)
  unfolding listed
  listed-next id i p = rw p

  find_from-skip :
      (from highest : ℤ) {e : Exception}
      → stoi name ≡ throw e
      → find_from from highest (name ∷ names) ≡ find_from from highest names
  unfolding find_from
  find_from-skip from highest p = rw (p, find_from)

  find_from-next :
      (from highest i : ℤ)
      → stoi name ≡ ok i
      → (i == from) ≡ false
      → find_from from highest (name ∷ names) ≡ find_from from (larger highest i) names
  unfolding find_from
  find_from-next from highest i p q = rw (p, find_from) (rw q)

  Found-skip :
      (highest result : ℤ) {e : Exception}
      → stoi name ≡ throw e
      → Found highest names result
      → Found highest (name ∷ names) result
  Found-skip highest result p f = record {
    from_start = f.from_start;
    from_names = λ id h. f.from_names id (rw (listed-skip id p) at h);
    attained = ground (arith, listed-skip result p, f.attained);
  }

  Found-next :
      (highest result i : ℤ)
      → stoi name ≡ ok i
      → Found (larger highest i) names result
      → Found highest (name ∷ names) result
  Found-next highest result i p f = record {
    from_start = ≤ℤ_trans _ (larger highest i) _ (≤ℤ-larger highest i).0 f.from_start;
    from_names = λ id h. bounded id (rw (listed-next id i p) at h);
    attained = reached f.attained;
  }
    where
      reached :
          (result ≡ larger highest i) ⊎ (listed result names ≡ true)
          → (result ≡ highest) ⊎ (listed result (name ∷ names) ≡ true)
      reached (inl e) = elim (larger-cases highest i) [
        | inl k ↦ inl (e ∙ k)
        | inr k ↦ inr (rw (e ∙ k) (listed-next i i p ∙ ap (λ b. b || listed i names) (beq_self i)))
      ]
      reached (inr l) = inr (rw (listed-next result i p, l, or-true))

      bounded : (id : ℤ) → (i == id || listed id names) ≡ true → id ≤ℤ result
      bounded id h = elim (Bool-cases (i == id)) [
        | inl e ↦
            subst (λ j. j ≤ℤ result) ((int_beq_iff i id).0 e)
              (≤ℤ_trans _ (larger highest i) _ (≤ℤ-larger highest i).1 f.from_start)
        | inr e ↦ f.from_names id (rw e at h)
      ]

find_from-Found :
    (from highest : ℤ) (names : List Text)
    → listed from names ≡ false
    → Found highest names (find_from from highest names).0
find_from-Found from highest [] h = record {
  from_start = unfold find_from in omega arith;
  from_names = λ id e. unfold listed in cc;
  attained = unfold find_from in inl refl;
}
find_from-Found from highest (name ∷ names) h = elim (Result-cases (stoi name)) [
  | inl (e, p) ↦ rw (find_from-skip name names from highest p) (
      Found-skip name names highest _ p
        (find_from-Found from highest names (rw (listed-skip name names from p) at h)))
  | inr (i, p) ↦
      let (new, rest) = or-false (i == from) _ (rw (listed-next name names from i p) at h) in
      rw (find_from-next name names from highest i p new)
        (Found-next name names highest _ i p (find_from-Found from (larger highest i) names rest))
]

≤ℤ_antisymm : (a b : ℤ) → a ≤ℤ b → b ≤ℤ a → a ≡ b
≤ℤ_antisymm a b h k = ground arith

module _ (from : ℤ) (names : List Text) (missing : listed from names ≡ false) where
  -- If `fromId` is not there, the loop ends with the highest number of the directory.
  pub find_from-highest :
      (high : ℕ)
      → listed (pos high) names ≡ true
      → Bounded (pos high) names
      → find_from from (negsuc 0) names ≡ (pos high, false)
  find_from-highest high l b =
      λ i. (reached f.attained i, (find_from-listed from (negsuc 0) names ∙ missing) i)
    where
      result : ℤ
      result = (find_from from (negsuc 0) names).0

      f : Found (negsuc 0) names result
      f = find_from-Found from (negsuc 0) names missing

      reached : (result ≡ negsuc 0) ⊎ (listed result names ≡ true) → result ≡ pos high
      reached (inl e) =
          absurd (omega (arith, subst (λ r. pos high ≤ℤ r) e (f.from_names (pos high) l)))
      reached (inr k) = ≤ℤ_antisymm result (pos high) (b result k) (f.from_names (pos high) l)

  -- With no number in the directory it ends with the -1 that it began with.
  pub find_from-none :
      ((id : ℤ) → listed id names ≡ false) → find_from from (negsuc 0) names ≡ (negsuc 0, false)
  find_from-none empty = λ i. (
    reached (find_from-Found from (negsuc 0) names missing).attained i,
    (find_from-listed from (negsuc 0) names ∙ missing) i,
  )
    where
      result : ℤ
      result = (find_from from (negsuc 0) names).0

      reached : (result ≡ negsuc 0) ⊎ (listed result names ≡ true) → result ≡ negsuc 0
      reached (inl e) = e
      reached (inr k) = cc (empty result)
