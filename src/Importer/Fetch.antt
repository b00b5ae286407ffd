-- ===== src/Importer/Fetch.antt =====
-- `curl_fetch_url` of persistence/InfluxDBImporter.cpp. libcurl calls `curl_callback` for each part of
-- the body in turn, and gives up with `CURLE_WRITE_ERROR` if it does not return the part's size.
use opcuatesttool.Prelude.{
  ℕ, suc, nat_eq, ◌+◌, ◌%◌, ◌<◌, ◌≡◌, refl, Bool, true, false, Option, none, some, List, [], ◌∷◌,
  ◌++◌, append_assoc, append-nil, ◌==◌, beq_self, if◌then◌else◌, length, length-append, arith, ◌∙◌,
  sym, ap, subst, All,
}
use opcuatesttool.Std.Text.{Text}
use opcuatesttool.Importer.Buffer.{
  size_max, Realloc, IsRealloc, Fetch, Holds, copy_at, wrote, then_copy, store, curl_callback,
  copy_at-append, split_last,
}

-- A part of the body, and what the heap does when it is stored.
pub record Part : Type 0 where
  pub realloc : Realloc
  pub contents : Text

-- The codes of libcurl that occur: `CURLE_OK` is 0.
abbrev pub curle_failed_init : ℕ
curle_failed_init = 2

abbrev pub curle_write_error : ℕ
curle_write_error = 23

next_part : (Fetch → Option (ℕ × Fetch)) → Text → Option (ℕ × Fetch) → Option (ℕ × Fetch)
next_part continue contents none = none
next_part continue contents (some (n, p)) =
    if n == length contents then continue p else some (curle_write_error, p)

-- `curl_easy_perform`, where the transfer itself ends with `code`.
unfoldable pub perform : List Part → ℕ → Fetch → Option (ℕ × Fetch)
unfolding next_part
perform [] code p = some (code, p)
perform (part ∷ parts) code p =
    next_part (perform parts code) part.contents (curl_callback part.realloc part.contents p)

-- What `calloc(1, sizeof(char*))` gives.
abbrev pub zeros : Text
zeros = 0 ∷ 0 ∷ 0 ∷ 0 ∷ 0 ∷ 0 ∷ 0 ∷ 0 ∷ []

-- The flag says that `calloc` succeeds. The code and the buffer; `none` is a write outside of a block. The old buffer is overwritten.
unfoldable pub curl_fetch_url : Bool → List Part → ℕ → Fetch → Option (ℕ × Fetch)
curl_fetch_url false parts code p = some (curle_failed_init, record p { payload = none })
curl_fetch_url true parts code p = perform parts code (record { payload = some zeros; size = 0 })

copy_last :
    (text : Text) (last : ℕ)
    → copy_at (text ++ last ∷ []) (length text) (0 ∷ []) ≡ some (text ++ 0 ∷ [])
copy_last text last =
    ap (λ block. copy_at block (length text) (0 ∷ [])) (sym (append-nil (text ++ last ∷ [])))
    ∙ copy_at-append text (last ∷ []) [] (0 ∷ []) refl
    ∙ ap some (append-nil (text ++ 0 ∷ []))

store-Holds :
    (contents text tail : Text) (p : Fetch)
    → p.size ≡ length text
    → length tail ≡ suc (length contents)
    → (p' : Fetch) × (store contents p (some (text ++ tail)) ≡ some (length contents, p'))
      × Holds (text ++ contents) p'
unfolding store
store-Holds contents text tail p size l =
    let (old, last, e, l') = split_last (length contents) tail l in
    (
      record { payload = some ((text ++ contents) ++ 0 ∷ []); size = p.size + length contents },
      ap
            (λ o.
              wrote (length contents) (p.size + length contents)
                (then_copy o (p.size + length contents) (0 ∷ [])))
            (first old last e l')
          ∙ ap (wrote (length contents) (p.size + length contents)) (second old last),
      record { rest = []; payload = refl; size = end },
    )
  where
    end : p.size + length contents ≡ length (text ++ contents)
    end = omega (arith, size, length-append text contents)

    first :
        (old : Text) (last : ℕ)
        → tail ≡ old ++ last ∷ []
        → length old ≡ length contents
        → copy_at (text ++ tail) p.size contents ≡ some ((text ++ contents) ++ last ∷ [])
    first old last e l' =
        rw (e, size)
          (ap (λ block. copy_at block (length text) contents)
              (sym (append_assoc text old (last ∷ [])))
            ∙ copy_at-append text old (last ∷ []) contents l')

    second :
        (old : Text) (last : ℕ)
        → copy_at ((text ++ contents) ++ last ∷ []) (p.size + length contents) (0 ∷ [])
          ≡ some ((text ++ contents) ++ 0 ∷ [])
    second old last = rw end (copy_last (text ++ contents) last)

-- A part that is stored.
curl_callback-Holds :
    (realloc : Realloc) (contents text block : Text) (p : Fetch)
    → IsRealloc realloc
    → Holds text p
    → length text + length contents + 1 < size_max
    → realloc p.payload (length text + length contents + 1) ≡ some block
    → (p' : Fetch) × (curl_callback realloc contents p ≡ some (length contents, p'))
      × Holds (text ++ contents) p'
unfolding curl_callback
curl_callback-Holds realloc contents text block p lawful v fits e =
    let (tail, block_parts) =
      lawful.keeps text (0 ∷ v.rest) (length text + length contents + 1) block
        (ap (λ q. realloc q (length text + length contents + 1)) (sym v.payload) ∙ e)
        (omega arith) in
    let (p', stored, v') = store-Holds contents text tail p v.size (
      omega (
        arith,
        ap length block_parts,
        length-append text tail,
        lawful.has_size p.payload (length text + length contents + 1) block e,
      )) in
    (p', ap (store contents p) (called ∙ ap some block_parts) ∙ stored, v')
  where
    needed : (p.size + length contents + 1) % size_max ≡ length text + length contents + 1
    needed = omega (arith, v.size)

    called : realloc p.payload ((p.size + length contents + 1) % size_max) ≡ some block
    called = ap (realloc p.payload) needed ∙ e

abbrev pub body : List Part → Text
body [] = []
body (part ∷ parts) = part.contents ++ body parts

-- The heap has room for every part.
abbrev pub HasRoom : List Part → Type 0
HasRoom = All (λ part.
    IsRealloc part.realloc
    × ((p : Option Text) (n : ℕ) → (block : Text) × (part.realloc p n ≡ some block)))

perform-Holds :
    (parts : List Part) (code : ℕ) (text : Text) (p : Fetch)
    → HasRoom parts
    → Holds text p
    → length text + length (body parts) + 1 < size_max
    → (p' : Fetch) × (perform parts code p ≡ some (code, p')) × Holds (text ++ body parts) p'
unfolding perform
perform-Holds [] code text p room v fits =
    (p, refl, subst (λ t. Holds t p) (sym (append-nil text)) v)
perform-Holds (part ∷ parts) code text p ((lawful, has), room) v fits =
    let (block, e) = has p.payload (length text + length part.contents + 1) in
    let (p', called, v') =
      curl_callback-Holds part.realloc part.contents text block p lawful v
        (omega (arith, length-append part.contents (body parts))) e in
    let (p'', rest, v'') =
      perform-Holds parts code (text ++ part.contents) p' room v' (
        omega
          (arith, length-append part.contents (body parts), length-append text part.contents)) in
    (
      p'',
      ap (next_part (perform parts code) part.contents) called
          ∙ rw (beq_self (length part.contents)) rest,
      subst (λ t. Holds t p'') (append_assoc text part.contents (body parts)) v'',
    )

-- If `calloc` succeeds, the heap has room for each part of the answer, and the whole answer and a
-- NUL are fewer than 2^64 bytes, the fetch writes to no byte outside of its blocks, ends with the
-- code of the transfer, and the buffer holds the parts in order with a NUL after them.
pub curl_fetch_url-Holds :
    (parts : List Part) (code : ℕ) (p : Fetch)
    → HasRoom parts
    → length (body parts) + 1 < size_max
    → (p' : Fetch) × (curl_fetch_url true parts code p ≡ some (code, p')) × Holds (body parts) p'
unfolding curl_fetch_url
curl_fetch_url-Holds parts code p room fits =
    perform-Holds parts code [] (record { payload = some zeros; size = 0 }) room
      (record { rest = 0 ∷ 0 ∷ 0 ∷ 0 ∷ 0 ∷ 0 ∷ 0 ∷ []; payload = refl; size = refl }) (omega arith)
