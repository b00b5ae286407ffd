-- ===== src/Tests/Importing.antt =====
-- A transfer of the importer, and a page of three jobs, of which the third is refused.
use opcuatesttool.Prelude.{
  ℕ, zero, suc, nat_eq, int_eq, text_eq, ◌≤◌, ◌≡◌, refl, true, Option, none, some, List, [], ◌∷◌,
  ◌++◌, map, ◌==◌, if◌then◌else◌, ℤ, All, pos, negsuc, Result, ok, length, arith, ◌∙◌, ap, sym,
}
use opcuatesttool.Std.Text.{Text, codes}
use opcuatesttool.Importer.Buffer.{Realloc, IsRealloc, Fetch, Holds}
use opcuatesttool.Importer.Fetch.{Part, HasRoom, curl_fetch_url, curl_fetch_url-Holds}
use opcuatesttool.Importer.Import.{
  ImportJson, goes_on, Post, returned, thrown, Entry, Point, points, Importer, entry_of,
  import_items,
}
use opcuatesttool.Importer.Progress.{Ascending, import_items-Ascending}

pub resize : Text → ℕ → Text
resize p zero = []
resize [] (suc n) = 0 ∷ resize [] n
resize (c ∷ p) (suc n) = c ∷ resize p n

pub block_of : Option Text → Text
block_of none = []
block_of (some p) = p

abbrev pub realloc : Realloc
realloc p n = some (resize (block_of p) n)

length-resize : (p : Text) (n : ℕ) → length (resize p n) ≡ n
unfolding resize
length-resize p zero = refl
length-resize [] (suc n) = ap suc (length-resize [] n)
length-resize (c ∷ p) (suc n) = ap suc (length-resize p n)

resize-append :
    (kept lost : Text) (n : ℕ)
    → length kept ≤ n
    → (rest : Text) × (resize (kept ++ lost) n ≡ kept ++ rest)
unfolding resize
resize-append [] lost n h = (resize lost n, refl)
resize-append (c ∷ kept) lost zero h = absurd (omega arith)
resize-append (c ∷ kept) lost (suc n) h =
    let (rest, e) = resize-append kept lost n (omega arith) in (rest, ap (◌∷◌ c) e)

some_injective : (a b : Text) → ◌≡◌ {A = Option Text} (some a) (some b) → a ≡ b
some_injective a b e = cc

pub realloc-IsRealloc : IsRealloc realloc
unfolding block_of
realloc-IsRealloc = record {
  has_size = λ p n block e.
      ap length (sym (some_injective (resize (block_of p) n) block e))
      ∙ length-resize (block_of p) n;
  keeps = λ kept lost n block e h.
      let (rest, r) = resize-append kept lost n h in
      (rest, sym (some_injective (resize (kept ++ lost) n) block e) ∙ r);
}

abbrev pub part : Text → Part
part contents = record { realloc = realloc; contents = contents }

abbrev parts : List Part
parts = part (codes "ab") ∷ part (codes "c") ∷ []

-- There is room for one part of any contents.
pub part-HasRoom : (contents : Text) → HasRoom (part contents ∷ [])
part-HasRoom contents = ((realloc-IsRealloc, λ p n. (resize (block_of p) n, refl)), tt)

parts-HasRoom : HasRoom parts
parts-HasRoom = (
  (realloc-IsRealloc, λ p n. (resize (block_of p) n, refl)),
  ((realloc-IsRealloc, λ p n. (resize (block_of p) n, refl)), tt),
)

abbrev buffer : Fetch
buffer = record { payload = none; size = 0 }

curl_fetch_url-Holds_example :
    (p : Fetch) × (curl_fetch_url true parts 0 buffer ≡ some (0, p)) × Holds (codes "abc") p
curl_fetch_url-Holds_example = curl_fetch_url-Holds parts 0 buffer parts-HasRoom (omega arith)

first_code : Text → Result ℤ
first_code [] = ok (pos 0)
first_code (c ∷ v) = ok (pos c)

first_number : Text → Result ℕ
first_number [] = ok 0
first_number (c ∷ v) = ok c

-- A page is the text of the numbers of its jobs.
abbrev json : ImportJson
json = record {
  Value = Text;
  Double = ℕ;
  parse = λ t. some t;
  items = map (λ c. c ∷ []);
  int_at = λ a b v. if b == codes "id" then first_code v else ok (pos 9);
  text_at = λ a b v. ok a;
  double_at = λ a b v. first_number v;
}

abbrev entry : ℕ → Entry json
entry n = record {
  id = pos n;
  name = codes "request";
  total_runtime_ms = n;
  ts_start = pos 9;
  ts_stop = pos 9;
}

abbrev start : Importer json
start = record { from_id = pos 0; sent = [] }

-- The points of job 98 are refused with a number, those of job 99 with an exception.
post_http : List (Point json) → Post
post_http [] = returned (pos 0)
post_http ((duration, time) ∷ points) =
    if duration == 99
    then thrown
    else if duration == 98
    then returned (negsuc 0)
    else returned (pos 0)

abbrev first_page : List (Entry json)
first_page = entry 97 ∷ entry 98 ∷ entry 99 ∷ []

import_items-Ascending_example :
    (sent left : List (Entry json)) × (m : ℕ) × (import_items json post_http
        (codes "a" ∷ codes "b" ∷ codes "c" ∷ [])
        start
      ≡ (goes_on, record { from_id = pos m; sent = [] ++ sent }))
    × All (λ e. (code : ℤ) × (post_http (points json e) ≡ returned code)) sent
    × (first_page ≡ sent ++ left)
    × Ascending json 0 sent m
    × Ascending json m left 100
unfolding entry_of first_code first_number
import_items-Ascending_example =
    import_items-Ascending json post_http (codes "a" ∷ codes "b" ∷ codes "c" ∷ []) first_page start
      0 100 refl (refl, (refl, (refl, tt)))
      (97, refl, omega arith, (98, refl, omega arith, (99, refl, omega arith, omega arith)))
      (omega arith)
