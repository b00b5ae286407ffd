-- ===== src/Std/Files/Directories.antt =====
-- What `fs::create_directories` makes.
use opcuatesttool.Prelude.{
  nat_eq, text_eq, ◌≡◌, refl, true, ◌||◌, ◌⊎◌, inl, inr, List, [], ◌∷◌, ◌++◌, ◌==◌, contains, map,
  append_assoc, append-nil, arith, beq_self, list_beq_iff, Bool-cases, ◌∙◌, sym, ap, or-true,
}
use opcuatesttool.Std.Text.{Text}
use opcuatesttool.Std.Files.{FileSystem, prefixes, exists, create_directories}

same_path : (p q : Text) → (p == q) ≡ true → p ≡ q
same_path p q h = (list_beq_iff p q).0 h

-- The first path, or one of the others.
contains-cases :
    (p q : Text) (qs : List Text) → contains p (q ∷ qs) ≡ true → (q ≡ p) ⊎ (contains p qs ≡ true)
contains-cases p q qs h = elim (Bool-cases (q == p)) [
  | inl same ↦ inl (same_path q p same)
  | inr other ↦ inr (rw other at h)
]

-- Only beginnings of the path are made.
pub prefixes-begin :
    (before s p : Text)
    → contains p (prefixes before s) ≡ true
    → (rest : Text) × (p ++ rest ≡ before ++ s)
unfolding prefixes
prefixes-begin before [] p h = elim (contains-cases p before [] h) [
  | inl same ↦ ([], ap (λ q. q ++ []) (sym same))
  | inr none_left ↦ cc
]
prefixes-begin before (c ∷ s) p h =
    let further : contains p (prefixes (before ++ c ∷ []) s) ≡ true
        → (rest : Text) × (p ++ rest ≡ before ++ c ∷ s) =
      λ k.
        let (rest, e) = prefixes-begin (before ++ c ∷ []) s p k in
        (rest, e ∙ append_assoc before (c ∷ []) s) in
    elim (Bool-cases (c == b'/')) [
      | inl slash ↦ elim (contains-cases p before (prefixes (before ++ c ∷ []) s) (rw slash at h)) [
        | inl same ↦ (c ∷ s, ap (λ q. q ++ c ∷ s) (sym same))
        | inr later ↦ further later
      ]
      | inr other ↦ further (rw other at h)
    ]

pub contains-prefixes : (before s : Text) → contains (before ++ s) (prefixes before s) ≡ true
unfolding prefixes
contains-prefixes before [] = rw (append-nil, beq_self before)
contains-prefixes before (c ∷ s) =
    let later : contains (before ++ c ∷ s) (prefixes (before ++ c ∷ []) s) ≡ true =
      rw (append_assoc before (c ∷ []) s) at (contains-prefixes (before ++ c ∷ []) s) in
    elim (Bool-cases (c == b'/')) [
      | inl slash ↦ rw (slash, later, or-true)
      | inr other ↦ rw other later
    ]

contains-append :
    (p : Text) (qs rs : List Text) → contains p (qs ++ rs) ≡ (contains p qs || contains p rs)
contains-append p [] rs = refl
contains-append p (q ∷ qs) rs = ground (arith, contains-append p qs rs)

-- A directory is there.
pub exists-dir : (fs : FileSystem) (p : Text) → contains p fs.dirs ≡ true → exists fs p ≡ true
unfolding exists
exists-dir fs p h = rw (contains-append p (map (λ entry. entry.0) fs.files) fs.dirs, h, or-true)

-- The path before a slash is made.
pub contains-prefixes_above :
    (before p rest : Text) → contains (before ++ p) (prefixes before (p ++ b'/' ∷ rest)) ≡ true
unfolding prefixes
contains-prefixes_above before [] rest = rw (append-nil, beq_self before)
contains-prefixes_above before (c ∷ p) rest =
    let later : contains (before ++ c ∷ p) (prefixes (before ++ c ∷ []) (p ++ b'/' ∷ rest)) ≡ true =
      rw (append_assoc before (c ∷ []) p) at (contains-prefixes_above (before ++ c ∷ []) p rest) in
    elim (Bool-cases (c == b'/')) [
      | inl slash ↦ rw (slash, later, or-true)
      | inr other ↦ rw other later
    ]

pub contains-create_directories :
    (fs : FileSystem) (path p : Text)
    → contains p (create_directories fs path).dirs
      ≡ (contains p (prefixes [] path) || contains p fs.dirs)
unfolding create_directories
contains-create_directories fs path p = contains-append p (prefixes [] path) fs.dirs
