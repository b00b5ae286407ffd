-- ===== src/Std/Files/Listing.antt =====
-- A file that can be read is found by the iterator over its directory.
use opcuatesttool.Prelude.{
  nat_eq, text_eq, ◌≡◌, refl, true, false, false, some, none, Option, List, [], ◌∷◌, ◌++◌, map,
  ◌==◌, contains, arith, Eq, Bool-cases, inl, inr, beq_self, ok, list_beq_iff,
}
use opcuatesttool.Prelude.Dict.{Dict, lookup}
use opcuatesttool.Std.Text.{Text, Lacks}
use opcuatesttool.Std.Files.{
  FileSystem, ◌/◌, split_path, exists, read, list_directory, names_in, paths, keep_name,
}
use opcuatesttool.Std.Files.Laws.{split_path_of_name}

contains-append_left {ℓ} :
    {A : Type ℓ} ⦃e : Eq A⦄ (a : A) (xs ys : List A)
    → contains a xs ≡ true
    → contains a (xs ++ ys) ≡ true
contains-append_left a [] ys h = cc
contains-append_left a (x ∷ xs) ys h = ground (arith, contains-append_left a xs ys)

contains-lookup :
    (p c : Text) (m : Dict Text Text)
    → lookup p m ≡ some c
    → contains p (map (λ entry. entry.0) m) ≡ true
unfolding lookup
contains-lookup p c [] h = cc
contains-lookup p c ((q, d) ∷ m) h = ground (arith, contains-lookup p c m)

pub exists-read : (fs : FileSystem) (p c : Text) → read fs p ≡ some c → exists fs p ≡ true
unfolding read exists
exists-read fs p c h = contains-append_left p _ fs.dirs (contains-lookup p c fs.files h)

contains-keep_name :
    (dir name : Text) (o : Option (Text × Text)) (others : List Text)
    → contains name others ≡ true
    → contains name (keep_name dir o others) ≡ true
contains-keep_name dir name none others h = h
contains-keep_name dir name (some (d, n)) others h = ground arith

contains-names_in :
    (dir name : Text) (ps : List Text)
    → Lacks b'/' name
    → contains (dir / name) ps ≡ true
    → contains name (names_in dir ps) ≡ true
unfolding names_in
contains-names_in dir name [] l h = cc
contains-names_in dir name (p ∷ ps) l h = elim (Bool-cases (p == dir / name)) [
  | inl e ↦ rw (
    (list_beq_iff p (dir / name)).0 e,
    split_path_of_name dir name l,
    beq_self dir,
    beq_self name,
  )
  | inr e ↦
      contains-keep_name dir name (split_path p) _ (contains-names_in dir name ps l (rw e at h))
]

pub listed-read :
    (fs : FileSystem) (dir name content : Text) (names : List Text)
    → Lacks b'/' name
    → read fs (dir / name) ≡ some content
    → list_directory fs dir ≡ ok names
    → contains name names ≡ true
unfolding list_directory
listed-read fs dir name content names l h e =
    let found =
      contains-names_in dir name (paths fs) l (unfold exists in exists-read fs _ content h) in
    ground (arith, found)

contains-append :
    (a : Text) (xs ys : List Text)
    → contains a xs ≡ false
    → contains a ys ≡ false
    → contains a (xs ++ ys) ≡ false
contains-append a [] ys h k = k
contains-append a (x ∷ xs) ys h k = ground (arith, contains-append a xs ys)

contains-lookup-none :
    (p : Text) (m : Dict Text Text)
    → lookup p m ≡ none
    → contains p (map (λ entry. entry.0) m) ≡ false
unfolding lookup
contains-lookup-none p [] h = refl
contains-lookup-none p ((q, d) ∷ m) h = ground (arith, contains-lookup-none p m)

pub exists-read-none :
    (fs : FileSystem) (p : Text)
    → read fs p ≡ none
    → contains p fs.dirs ≡ false
    → exists fs p ≡ false
unfolding read exists
exists-read-none fs p h k = contains-append p _ fs.dirs (contains-lookup-none p fs.files h) k
