-- ===== src/Importer/Buffer.antt =====
-- The buffer of persistence/InfluxDBImporter.cpp: `curl_fetch_st` and `curl_callback`. A block of the
-- heap is the list of its bytes; a write outside of it is a fault, `none`.
use opcuatesttool.Prelude.{
  ℕ, zero, suc, nat_eq, ◌+◌, ◌%◌, ◌≤◌, ◌≡◌, refl, Option, none, some, [], ◌∷◌, ◌++◌, length, arith,
  ap,
}
use opcuatesttool.Std.Text.{Text}

abbrev pub size_max : ℕ
size_max = 18446744073709551616

-- `realloc`; `none` is the null pointer.
abbrev pub Realloc : Type 0
Realloc = Option Text → ℕ → Option Text

-- A block of the size asked for, that begins with the bytes of the old one as far as it reaches.
pub record IsRealloc (realloc : Realloc) : Type 0 where
  pub has_size :
      (p : Option Text) (n : ℕ) (block : Text) → realloc p n ≡ some block → length block ≡ n
  pub keeps :
      (kept lost : Text) (n : ℕ) (block : Text)
      → realloc (some (kept ++ lost)) n ≡ some block
      → length kept ≤ n
      → (rest : Text) × (block ≡ kept ++ rest)

pub record Fetch : Type 0 where
  pub payload : Option Text
  pub size : ℕ

abbrev pub prepend : ℕ → Option Text → Option Text
prepend c none = none
prepend c (some block) = some (c ∷ block)

-- `memcpy(&block[offset], bytes, …)`.
unfoldable pub copy_at : Text → ℕ → Text → Option Text
copy_at block zero [] = some block
copy_at [] zero (b ∷ bytes) = none
copy_at (c ∷ block) zero (b ∷ bytes) = prepend b (copy_at block zero bytes)
copy_at [] (suc offset) bytes = none
copy_at (c ∷ block) (suc offset) bytes = prepend c (copy_at block offset bytes)

abbrev pub then_copy : Option Text → ℕ → Text → Option Text
then_copy none offset bytes = none
then_copy (some block) offset bytes = copy_at block offset bytes

-- The result of a call that has filled the block.
abbrev pub wrote : ℕ → ℕ → Option Text → Option (ℕ × Fetch)
wrote n size none = none
wrote n size (some block) = some (n, record { payload = some block; size = size })

-- After `realloc`. The null pointer is stored before it is tested, so that the old block is lost.
unfoldable pub store : Text → Fetch → Option Text → Option (ℕ × Fetch)
store contents p none = some (1, record p { payload = none })
store contents p (some block) =
    let size = p.size + length contents in
    wrote (length contents) size (then_copy (copy_at block p.size contents) size (0 ∷ []))

-- `curl_callback`: what it returns, and the buffer; `contents` has `size * nmemb` bytes.
unfoldable pub curl_callback : Realloc → Text → Fetch → Option (ℕ × Fetch)
unfolding store
curl_callback realloc contents p =
    store contents p (realloc p.payload ((p.size + length contents + 1) % size_max))

-- The buffer holds `text` and a NUL after it.
pub record Holds (text : Text) (p : Fetch) : Type 0 where
  pub rest : Text
  pub payload : p.payload ≡ some (text ++ 0 ∷ rest)
  pub size : p.size ≡ length text

pub copy_at-append :
    (before old after bytes : Text)
    → length old ≡ length bytes
    → copy_at (before ++ old ++ after) (length before) bytes ≡ some (before ++ bytes ++ after)
unfolding copy_at
copy_at-append [] [] after [] e = refl
copy_at-append [] (o ∷ old) after [] e = absurd (omega arith)
copy_at-append [] [] after (b ∷ bytes) e = absurd (omega arith)
copy_at-append [] (o ∷ old) after (b ∷ bytes) e =
    rw (copy_at-append [] old after bytes (omega arith))
copy_at-append (c ∷ before) old after bytes e = rw (copy_at-append before old after bytes e)

-- A block of `k + 1` bytes.
pub split_last :
    (k : ℕ) (block : Text)
    → length block ≡ suc k
    → (front : Text) × (last : ℕ) × (block ≡ front ++ last ∷ []) × (length front ≡ k)
split_last k [] e = absurd (omega arith)
split_last zero (c ∷ []) e = ([], c, refl, refl)
split_last zero (c ∷ d ∷ block) e = absurd (omega arith)
split_last (suc k) (c ∷ block) e =
    let (front, last, p, q) = split_last k block (omega arith) in
    (c ∷ front, last, ap (◌∷◌ c) p, omega (arith, q))
