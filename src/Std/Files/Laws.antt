-- ===== src/Std/Files/Laws.antt =====
-- What is read after a write.
use opcuatesttool.Prelude.{
  nat_eq, text_eq, ◌≡◌, refl, true, false, some, none, ◌≢◌, ◌⊎◌, [], ◌∷◌, ◌==◌, contains, arith,
  Bool-cases, inl, inr, beq_self, beq_ne, if◌then◌else◌,
}
use opcuatesttool.Prelude.Dict.{lookup-insert}
use opcuatesttool.Std.Text.{Text, Lacks, is_empty}
use opcuatesttool.Std.Files.{FileSystem, ◌/◌, split_path, read, can_write, write}

pub split_path-Lacks : (name : Text) → Lacks b'/' name → split_path name ≡ none
unfolding split_path
split_path-Lacks [] l = refl
split_path-Lacks (c ∷ s) l = rw (split_path-Lacks s l.1, beq_ne c b'/' l.0)

pub split_path-cases :
    (path : Text)
    → Lacks b'/' path ⊎ ((dir : Text) × (name : Text) × (split_path path ≡ some (dir, name)))
unfolding split_path
split_path-cases [] = inl tt
split_path-cases (c ∷ s) = elim (split_path-cases s) [
  | inr (dir, name, e) ↦ inr (c ∷ dir, name, rw e refl)
  | inl l ↦ elim (Bool-cases (c == b'/')) [
    | inl slash ↦ inr ([], s, rw (split_path-Lacks s l, slash) refl)
    | inr other ↦ inl (λ e. cc (e, other, beq_self c), l)
  ]
]

pub split_path_of_name :
    (dir name : Text) → Lacks b'/' name → split_path (dir / name) ≡ some (dir, name)
unfolding split_path
split_path_of_name [] name l = rw (split_path-Lacks name l)
split_path_of_name (c ∷ dir) name l = rw (split_path_of_name dir name l)

-- Under one directory, different names are different paths.
pub name_injective : (dir a b : Text) → dir / a ≡ dir / b → a ≡ b
name_injective [] a b h = cc
name_injective (c ∷ dir) a b h = name_injective dir a b (cc)

read-write :
    (fs : FileSystem) (p q content : Text)
    → can_write fs p ≡ true
    → read (write fs p content) q ≡ (if p == q then some content else read fs q)
unfolding read write
read-write fs p q content h = rw h (lookup-insert p q content fs.files)

pub read-write_self :
    (fs : FileSystem) (p content : Text)
    → can_write fs p ≡ true
    → read (write fs p content) p ≡ some content
read-write_self fs p content h = rw (read-write fs p p content h, beq_self p)

-- Other files stay as they were, whether the write succeeds or not.
pub read-write_ne :
    (fs : FileSystem) (p q content : Text) → p ≢ q → read (write fs p content) q ≡ read fs q
unfolding write
read-write_ne fs p q content ne = elim (Bool-cases (can_write fs p)) [
  | inl h ↦ rw (read-write fs p q content h, beq_ne p q ne)
  | inr h ↦ rw h
]

pub dirs-write : (fs : FileSystem) (p content : Text) → (write fs p content).dirs ≡ fs.dirs
unfolding write
dirs-write fs p content = ground arith

-- Directories stay, so what could be written can be written later.
pub can_write-write :
    (fs : FileSystem) (p q content : Text) → can_write (write fs p content) q ≡ can_write fs q
unfolding can_write
can_write-write fs p q content = rw (dirs-write fs p content)

-- A file can be made under any name but that of a directory.
pub can_write_of_name :
    (fs : FileSystem) (dir name : Text)
    → contains dir fs.dirs ≡ true
    → Lacks b'/' name
    → is_empty name ≡ false
    → contains (dir / name) fs.dirs ≡ false
    → can_write fs (dir / name) ≡ true
unfolding can_write
can_write_of_name fs dir name h l n d = rw (split_path_of_name dir name l, h, n, d)
