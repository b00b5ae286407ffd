-- ===== src/Std/Text.antt =====
-- `std::string` as a list of bytes, its literals, and line-wise reading.
use Prim.Native.Char.{code}
use Prim.Native.String.{String}
use opcuatesttool.Prelude.{
  ℕ, nat_eq, ◌≡◌, refl, ◌≢◌, Bool, true, false, List, [], ◌∷◌, ◌++◌, All, ◌==◌, if◌then◌else◌,
  append_assoc, append-nil, beq_ne, ◌∙◌, ap, All-append,
}

abbrev pub Text : Type 0
Text = List ℕ

-- The bytes of an ASCII literal.
abbrev pub codes : String → Text
codes String.[] = []
codes (String.◌∷◌ c s) = code c ∷ codes s

abbrev pub is_empty : Text → Bool
is_empty [] = true
is_empty (c ∷ s) = false

abbrev pub newline : ℕ
newline = 10

abbrev pub Lacks : ℕ → Text → Type 0
Lacks b = All (λ c. c ≢ b)

-- Up to the first NUL, as `c_str()` is written to a stream.
abbrev pub c_str : Text → Text
c_str [] = []
c_str (c ∷ s) = let rest = c_str s in if c == 0 then [] else c ∷ rest

-- `std::getline` until the end of the file. What follows the last newline is a line if it is not
-- empty. `line` is what has been read of the current one.
abbrev last_line : Text → List Text
last_line [] = []
last_line (c ∷ line) = (c ∷ line) ∷ []

lines_from : Text → Text → List Text
lines_from line [] = last_line line
lines_from line (c ∷ s) =
    let done = line ∷ lines_from [] s in
    let more = lines_from (line ++ c ∷ []) s in if c == newline then done else more

unfoldable pub lines : Text → List Text
unfolding lines_from
lines s = lines_from [] s

pub lines-nil : lines [] ≡ []
unfolding lines
lines-nil = refl

lines_from-append :
    (line s rest : Text)
    → Lacks newline s
    → lines_from line (s ++ newline ∷ rest) ≡ (line ++ s) ∷ lines_from [] rest
unfolding lines_from
lines_from-append line [] rest l = rw append-nil
lines_from-append line (c ∷ s) rest l =
    rw (beq_ne c newline l.0) (lines_from-append (line ++ c ∷ []) s rest l.1 ∙ rw append_assoc)

-- A newline ends a line.
pub lines-append : (s rest : Text) → Lacks newline s → lines (s ++ newline ∷ rest) ≡ s ∷ lines rest
unfolding lines
lines-append s rest l = lines_from-append [] s rest l

last_line-ne-nil : (s : Text) → is_empty s ≡ false → last_line s ≡ s ∷ []
last_line-ne-nil [] h = cc
last_line-ne-nil (c ∷ s) h = refl

is_empty-append : (line : Text) (c : ℕ) → is_empty (line ++ c ∷ []) ≡ false
is_empty-append [] c = refl
is_empty-append (d ∷ line) c = refl

lines_from-Lacks :
    (line s : Text) → Lacks newline s → is_empty line ≡ false → lines_from line s ≡ (line ++ s) ∷ []
unfolding lines_from
lines_from-Lacks line [] l h = rw append-nil (last_line-ne-nil line h)
lines_from-Lacks line (c ∷ s) l h =
    rw (beq_ne c newline l.0)
      (lines_from-Lacks (line ++ c ∷ []) s l.1 (is_empty-append line c) ∙ rw append_assoc)

-- A text with no newline is one line.
pub lines-Lacks : (s : Text) → Lacks newline s → is_empty s ≡ false → lines s ≡ s ∷ []
unfolding lines lines_from
lines-Lacks [] l h = cc
lines-Lacks (c ∷ s) l h = rw (beq_ne c newline l.0) (lines_from-Lacks (c ∷ []) s l.1 refl)

pub c_str-Lacks : (s : Text) → Lacks 0 s → c_str s ≡ s
c_str-Lacks [] l = refl
c_str-Lacks (c ∷ s) l = rw (beq_ne c 0 l.0) (ap (◌∷◌ c) (c_str-Lacks s l.1))

pub c_str-terminated : (s rest : Text) → Lacks 0 s → c_str (s ++ 0 ∷ rest) ≡ s
c_str-terminated [] rest l = refl
c_str-terminated (c ∷ s) rest l = rw (beq_ne c 0 l.0) (ap (◌∷◌ c) (c_str-terminated s rest l.1))

pub append_cancel : (s a b : Text) → s ++ a ≡ s ++ b → a ≡ b
append_cancel [] a b e = e
append_cancel (c ∷ s) a b e = append_cancel s a b (cc)

pub Lacks-append : (b : ℕ) (s t : Text) → Lacks b s → Lacks b t → Lacks b (s ++ t)
Lacks-append b = All-append (λ c. c ≢ b)
