-- ===== src/DataBase/Pages.antt =====
-- What `getFinishedJobs` puts on a page, against a description of the page.
use opcuatesttool.Prelude.{
  ℕ, zero, suc, nat_eq, int_eq, ◌+◌, ◌<◌, ◌≡◌, refl, Bool, true, false, none, some, List, [], ◌∷◌,
  ◌++◌, append_assoc, append-nil, ltb, pos, length, arith, int_half, Option-cases, inl, inr,
  add_int-one, ltb_ℤ-pos, lt→ltb, le→ltb, ltb-suc, ap, sym, ◌∙◌, ◌&&◌, le→ltb,
}
use opcuatesttool.Std.Text.{Text, codes}
use opcuatesttool.Std.Decimal.{to_string}
use opcuatesttool.Std.Files.{FileSystem, ◌/◌, read}
use opcuatesttool.DataBase.Finished.{copy_file, forward}

module _ (fs : FileSystem) (dir : Text) where
  -- The entries for the results `n`, `n + 1`, … below `n + r`, up to the first that is missing.
  unfoldable pub ascending : ℕ → ℕ → List Text
  ascending n zero = []
  ascending n (suc r) = elim (read fs (dir / to_string (pos n))) [
    | none ↦ []
    | some content ↦ copy_file content ∷ ascending (suc n) r
  ]

module _ (fs : FileSystem) (dir : Text) (n r : ℕ) where
  ascending-miss : read fs (dir / to_string (pos n)) ≡ none → ascending fs dir n (suc r) ≡ []
  unfolding ascending
  ascending-miss e = rw (e, ascending)

  ascending-hit :
      {content : Text}
      → read fs (dir / to_string (pos n)) ≡ some content
      → ascending fs dir n (suc r) ≡ copy_file content ∷ ascending fs dir (suc n) r
  unfolding ascending
  ascending-hit e = rw (e, ascending)

-- Entries that follow others.
abbrev pub following : List Text → Text
following [] = []
following (c ∷ cs) = codes ",\n" ++ c ++ following cs

-- The elements of a JSON array.
abbrev pub joined : List Text → Text
joined [] = []
joined (c ∷ cs) = c ++ following cs

abbrev pub dangling : Bool → Text
dangling true = codes ",\n"
dangling false = []

-- What follows the first entry of a page for `r` more results.
page_end : List Text → ℕ → Text
page_end cs r = following cs ++ dangling (ltb (length cs) r)

page_end-cons :
    (c : Text) (cs : List Text) (r : ℕ)
    → page_end (c ∷ cs) (suc r) ≡ codes ",\n" ++ c ++ page_end cs r
unfolding page_end
page_end-cons c cs r =
    ap (λ b. codes ",\n" ++ c ++ following cs ++ dangling b) (ltb-suc (length cs) r)
    ∙ simp append_assoc

-- The entries of a page for `r` results, with a separator too many if there are some, but fewer.
abbrev pub ascending_page : List Text → ℕ → Text
ascending_page cs r = joined cs ++ dangling (ltb 0 (length cs) && ltb (length cs) r)

some_but_fewer : (a r : ℕ) → ltb a r ≡ (ltb 0 (suc a) && ltb (suc a) (suc r))
some_but_fewer a r = ground arith

page_end_first :
    (c : Text) (cs : List Text) (r : ℕ) → c ++ page_end cs r ≡ ascending_page (c ∷ cs) (suc r)
unfolding page_end
page_end_first c cs r =
    sym (append_assoc c (following cs) _)
    ∙ ap (λ b. c ++ following cs ++ dangling b) (some_but_fewer (length cs) r)

module _ (fs : FileSystem) (dir : Text) where
  forward_started :
      (fuel r n c limit : ℕ) (out : Text)
      → r < fuel
      → n + r ≡ limit
      → limit < int_half
      → forward fuel fs dir (pos limit) (pos n) (suc c) out
        ≡ some (out ++ page_end (ascending fs dir n r) r)
  unfolding forward
  forward_started zero r n c limit out f e h = elim f [ ]
  forward_started (suc fuel) zero n c limit out f e h =
      rw (ltb_ℤ-pos n limit, le→ltb n limit (omega arith))
        (unfold ascending page_end in simp append-nil)
  forward_started (suc fuel) (suc r) n c limit out f e h =
      elim (Option-cases (read fs (dir / to_string (pos n)))) [
        | inl miss ↦
            rw
              (
                ltb_ℤ-pos n limit,
                lt→ltb n limit (omega arith),
                ascending-miss fs dir n r miss,
                miss,
              )
              (unfold page_end in rw (lt→ltb 0 (suc r) (omega arith)))
        | inr (content, hit) ↦
            rw (ltb_ℤ-pos n limit, lt→ltb n limit (omega arith), ascending-hit fs dir n r hit, hit)
              (rw (add_int-one n (omega arith), page_end-cons)
                (forward_started fuel r (suc n) (suc c) limit _ (omega arith) (omega arith) h
                  ∙ simp append_assoc))
      ]

  -- The whole loop: the entries, and a separator too many if the range was not exhausted.
  pub forward_lem :
      (fuel r n limit : ℕ) (out : Text)
      → r < fuel
      → n + r ≡ limit
      → limit < int_half
      → forward fuel fs dir (pos limit) (pos n) 0 out
        ≡ some (out ++ ascending_page (ascending fs dir n r) r)
  unfolding forward
  forward_lem zero r n limit out f e h = elim f [ ]
  forward_lem (suc fuel) zero n limit out f e h =
      rw (ltb_ℤ-pos n limit, le→ltb n limit (omega arith)) (unfold ascending in simp append-nil)
  forward_lem (suc fuel) (suc r) n limit out f e h =
      elim (Option-cases (read fs (dir / to_string (pos n)))) [
        | inl miss ↦
            rw
              (
                ltb_ℤ-pos n limit,
                lt→ltb n limit (omega arith),
                ascending-miss fs dir n r miss,
                miss,
              )
              refl
        | inr (content, hit) ↦
            rw (ltb_ℤ-pos n limit, lt→ltb n limit (omega arith), ascending-hit fs dir n r hit, hit)
              (rw (add_int-one n (omega arith)) (
                forward_started fuel r (suc n) 0 limit _ (omega arith) (omega arith) h
                ∙ rw (append-nil, append_assoc)
                    (ap (λ s. some (out ++ s)) (page_end_first (copy_file content) _ r))))
      ]

  pub length-ascending_pos :
      (n r : ℕ) {content : Text}
      → read fs (dir / to_string (pos n)) ≡ some content
      → 0 < r
      → 0 < length (ascending fs dir n r)
  length-ascending_pos n zero e h = elim h [ ]
  length-ascending_pos n (suc r) e h = rw (ascending-hit fs dir n r e) (omega arith)

-- A page with fewer entries than asked for ends in a comma before the bracket.
pub incomplete_page :
    (cs : List Text) (r : ℕ)
    → 0 < length cs
    → length cs < r
    → codes "[\n" ++ ascending_page cs r ++ codes "]\n"
      ≡ (codes "[\n" ++ joined cs) ++ codes ",\n]\n"
incomplete_page cs r some_entry short =
    rw (lt→ltb 0 (length cs) some_entry, lt→ltb (length cs) r short)
      (ap (λ t. codes "[\n" ++ t) (append_assoc (joined cs) (codes ",\n") (codes "]\n")))

pub complete_page : (cs : List Text) (r : ℕ) → length cs ≡ r → ascending_page cs r ≡ joined cs
complete_page cs r full =
    ap (λ b. joined cs ++ dangling b) (not_short (length cs) r full) ∙ append-nil (joined cs)
  where
    not_short : (a b : ℕ) → a ≡ b → (ltb 0 a && ltb a b) ≡ false
    not_short a b e = ground arith
