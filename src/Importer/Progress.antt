-- ===== src/Importer/Progress.antt =====
-- A page of jobs, and what a round does with it.
use opcuatesttool.Prelude.{
  ℕ, suc, nat_eq, int_eq, ◌+◌, ◌≤◌, ◌<◌, ◌≡◌, refl, ◌⊎◌, All, true, some, List, [], ◌∷◌, ◌++◌,
  append_assoc, append-nil, ℤ, pos, add_int, add_int-one, leb_ℤ, leb_ℤ-pos, if◌then◌else◌, ok,
  length, int_half, le→leb, arith, ◌∙◌, sym, ap, inl, inr,
}
use opcuatesttool.Std.Text.{Text, Lacks, c_str-terminated}
use opcuatesttool.Importer.Buffer.{Fetch, Holds, size_max}
use opcuatesttool.Importer.Fetch.{HasRoom, body, curl_fetch_url, curl_fetch_url-Holds}
use opcuatesttool.Importer.Import.{
  ImportJson, goes_on, Post, returned, thrown, Answer, Entry, entry_of, points, Point, Importer,
  advance, uri, import_items, import_fetched, round,
}

module _ (json : ImportJson) where
  -- The numbers of the entries are at least `n`, rise, and are below `m`.
  abbrev pub Ascending : ℕ → List (Entry json) → ℕ → Type 0
  Ascending n [] m = n ≤ m
  Ascending n (e ∷ es) m = (k : ℕ) × (e.id ≡ pos k) × (n ≤ k) × Ascending (suc k) es m

  -- The JSON values are read as the entries.
  abbrev pub Reads : List json.Value → List (Entry json) → Type 0
  Reads [] [] = Unit {0}
  Reads (job ∷ jobs) (e ∷ es) = (entry_of json job ≡ ok e) × Reads jobs es
  Reads _ _ = ⊥

  pub Ascending-append :
      (n m k : ℕ) (es fs : List (Entry json))
      → Ascending n es m
      → Ascending m fs k
      → Ascending n (es ++ fs) k
  Ascending-append n m k [] [] a b = omega arith
  Ascending-append n m k [] (f ∷ fs) a (i, e, l, r) = (i, e, omega arith, r)
  Ascending-append n m k (e ∷ es) fs (i, p, l, r) b =
      (i, p, l, Ascending-append (suc i) m k es fs r b)

  pub Ascending-le : (n m : ℕ) (es : List (Entry json)) → Ascending n es m → n ≤ m
  Ascending-le n m [] a = a
  Ascending-le n m (e ∷ es) (i, p, l, r) = omega (arith, Ascending-le (suc i) m es r)

  pub pos_injective : (a b : ℕ) → pos a ≡ pos b → a ≡ b
  pos_injective a b p = cc

  next_from :
      (from id : ℤ) (n k : ℕ)
      → from ≡ pos n
      → id ≡ pos k
      → n ≤ k
      → suc k < int_half
      → (if leb_ℤ from id then add_int id (pos 1) else from) ≡ pos (suc k)
  next_from from id n k f p l fits =
      rw (f, p, leb_ℤ-pos n k, le→leb n k l, add_int-one k fits) (ap pos (omega arith))

  advance_lem :
      (e : Entry json) (i : Importer json) (n k : ℕ)
      → i.from_id ≡ pos n
      → e.id ≡ pos k
      → n ≤ k
      → suc k < int_half
      → advance json e i ≡ record { from_id = pos (suc k); sent = i.sent ++ e ∷ [] }
  unfolding advance
  advance_lem e i n k f p l fits =
      ap (λ from. record { from_id = from; sent = i.sent ++ e ∷ [] })
        (next_from i.from_id e.id n k f p l fits)

  nothing_sent :
      (i : Importer json) (n : ℕ)
      → i.from_id ≡ pos n
      → i ≡ record { from_id = pos n; sent = i.sent ++ [] }
  nothing_sent i n f =
      ap (λ from. record { from_id = from; sent = i.sent }) f
      ∙ ap (λ es. record { from_id = pos n; sent = es }) (sym (append-nil i.sent))

  Post-cases : (r : Post) → ((code : ℤ) × (r ≡ returned code)) ⊎ (r ≡ thrown)
  Post-cases (returned code) = inl (code, refl)
  Post-cases thrown = inr refl

  module _ (post_http : List (Point json) → Post) where
    stops :
        (job : json.Value) (jobs : List json.Value) (e : Entry json) (i : Importer json)
        → entry_of json job ≡ ok e
        → post_http (points json e) ≡ thrown
        → import_items json post_http (job ∷ jobs) i ≡ (goes_on, i)
    unfolding import_items
    stops job jobs e i q b = rw (q, import_items) (rw (b, import_items))

    pub sends :
        (job : json.Value) (jobs : List json.Value) (e : Entry json) (i : Importer json) (code : ℤ)
        → entry_of json job ≡ ok e
        → post_http (points json e) ≡ returned code
        → import_items json post_http (job ∷ jobs) i
          ≡ import_items json post_http jobs (advance json e i)
    unfolding import_items
    sends job jobs e i code q b = rw (q, import_items) (rw (b, import_items))

    -- The loop over the jobs of an answer that are read as entries whose numbers rise from
    -- `fromId` on and fit in an `int`, whichever posts return, with whatever number, or throw: it
    -- posts a first part of the entries, each once and in order, and ends without an exception;
    -- the post of each of these has returned; and `fromId` is then after all of them and not after
    -- any of the rest.
    pub import_items-Ascending :
        (jobs : List json.Value) (es : List (Entry json)) (i : Importer json) (n top : ℕ)
        → i.from_id ≡ pos n
        → Reads jobs es
        → Ascending n es top
        → top < int_half
        → (sent left : List (Entry json)) × (m : ℕ) × (import_items json post_http jobs i
            ≡ (goes_on, record { from_id = pos m; sent = i.sent ++ sent }))
          × All (λ e. (code : ℤ) × (post_http (points json e) ≡ returned code)) sent
          × (es ≡ sent ++ left)
          × Ascending n sent m
          × Ascending m left top
    unfolding import_items
    import_items-Ascending [] [] i n top f r a fits =
        ([], [], n, ap (λ i'. (goes_on, i')) (nothing_sent i n f), tt, refl, omega arith, a)
    import_items-Ascending (job ∷ jobs) [] i n top f r a fits = elim r [ ]
    import_items-Ascending [] (e ∷ es) i n top f r a fits = elim r [ ]
    import_items-Ascending (job ∷ jobs) (e ∷ es) i n top f (q, r) (k, p, l, a) fits =
        elim (Post-cases (post_http (points json e))) [
          | inl (code, sent) ↦
              let (done, left, m, run, returns, parts, a', b) =
                import_items-Ascending jobs es
                  (record { from_id = pos (suc k); sent = i.sent ++ e ∷ [] }) (suc k) top refl r a
                  fits in
              (
                e ∷ done,
                left,
                m,
                sends job jobs e i code q sent
                    ∙ ap (import_items json post_http jobs)
                        (advance_lem e i n k f p l (omega (arith, Ascending-le (suc k) top es a)))
                    ∙ run
                    ∙ ap (λ es. (goes_on, record { from_id = pos m; sent = es }))
                        (append_assoc i.sent (e ∷ []) done),
                ((code, sent), returns),
                ap (◌∷◌ e) parts,
                (k, p, l, a'),
                b,
              )
          | inr refused ↦ (
            [],
            e ∷ es,
            n,
            stops job jobs e i q refused ∙ ap (λ i'. (goes_on, i')) (nothing_sent i n f),
            tt,
            refl,
            omega arith,
            (k, p, l, a),
          )
        ]

    -- An answer that arrives whole, is shorter than the memory, has no NUL and is JSON.
    pub record IsWhole (a : Answer) (value : json.Value) : Type 0 where
      pub allocates : a.allocates ≡ true
      pub room : HasRoom a.parts
      pub fits : length (body a.parts) + 1 < size_max
      pub no_nul : Lacks 0 (body a.parts)
      pub ok_code : a.code ≡ 0
      pub parses : json.parse (body a.parts) ≡ some value

    pub round_whole :
        (answer : Text → Answer) (p : Fetch) (i : Importer json) (value : json.Value)
        (page : IsWhole (answer (uri json i.from_id)) value)
        → round json post_http answer p i ≡ import_items json post_http (json.items value) i
    unfolding round
    round_whole answer p i value page =
        let (p', run, v) = curl_fetch_url-Holds a.parts 0 p page.room page.fits in
        ap (λ o. import_fetched json post_http o i) (fetched p' run) ∙ parsed p' v
      where
        a : Answer
        a = answer (uri json i.from_id)

        fetched :
            (p' : Fetch)
            → curl_fetch_url true a.parts 0 p ≡ some (0, p')
            → curl_fetch_url a.allocates a.parts a.code p ≡ some (0, p')
        fetched p' run =
            ap (λ b. curl_fetch_url b a.parts a.code p) page.allocates
            ∙ ap (λ c. curl_fetch_url true a.parts c p) page.ok_code
            ∙ run

        parsed :
            (p' : Fetch)
            → Holds (body a.parts) p'
            → import_fetched json post_http (some (0, p')) i
              ≡ import_items json post_http (json.items value) i
        parsed p' v =
            rw (v.payload, c_str-terminated (body a.parts) v.rest page.no_nul, page.parses)
