-- ===== src/DataBase/FinishedJobs.antt =====
-- `getFinishedJobs` of testService/DataBase.cpp as a whole, against the description of its pages.
use Prim.Native.Nat.{min}
use opcuatesttool.Prelude.{
  ℕ, zero, suc, nat_eq, int_eq, text_eq, ◌+◌, ◌≤◌, ◌<◌, ◌≡◌, refl, true, false, Option, some, List,
  [], ◌++◌, lt→ltb, ℤ, pos, negsuc, add_int-pos, length, arith, int_half, contains, Result, ok,
  throw, filesystem_error, ◌∙◌, ap, Bool,
}
use opcuatesttool.Std.Text.{Text, codes}
use opcuatesttool.Std.Decimal.{to_string}
use opcuatesttool.Std.Files.{FileSystem, ◌/◌, read, list_directory}
use opcuatesttool.DataBase.Defs.{DataBase, finished_file_path}
use opcuatesttool.DataBase.Finished.{find_from, page, closed, get_finished_jobs}
use opcuatesttool.DataBase.Pages.{ascending, ascending_page, joined, forward_lem}
use opcuatesttool.DataBase.Newest.{descending, descending-hit, backward_lem, backward_nothing}
use opcuatesttool.DataBase.Listing.{
  listed, Bounded, find_from-listed, find_from-highest, find_from-none, listed-finished,
}

abbrev pub bracketed : Text → Result (Option Text)
bracketed entries = ok (some (codes "[\n" ++ entries ++ codes "]\n"))

module _ (db : DataBase) (fs : FileSystem) (names : List Text) where
  get_finished_jobs-find_from :
      (from max : ℤ) (found : ℤ × Bool)
      → list_directory fs db.jobs_finished_dir ≡ ok names
      → find_from from (negsuc 0) names ≡ found
      → get_finished_jobs db from max fs ≡ closed (page fs db.jobs_finished_dir from max found)
  unfolding get_finished_jobs
  get_finished_jobs-find_from from max found h e = rw (h, e)

  -- If the directory of the results can be listed, the result of job `from` is there, and `from +
  -- max` fits in an `int`, the page is returned and holds the results from that job on, up to the
  -- first that is missing and at most `max` of them; if it holds fewer than `max`, a separator
  -- follows the last.
  pub get_finished_jobs-from :
      (from max : ℕ) (content : Text)
      → list_directory fs db.jobs_finished_dir ≡ ok names
      → read fs (finished_file_path db (pos from)) ≡ some content
      → from + max < int_half
      → get_finished_jobs db (pos from) (pos max) fs
        ≡ bracketed (ascending_page (ascending fs db.jobs_finished_dir from max) max)
  unfolding page
  get_finished_jobs-from from max content h r fits =
      get_finished_jobs-find_from (pos from) (pos max) (_, true) h (λ i. (found.0, flag i))
      ∙ rw (add_int-pos from max fits) (
          ap closed (
            forward_lem fs db.jobs_finished_dir _ max from (from + max) (codes "[\n") (omega arith)
              (omega arith) fits))
    where
      found : ℤ × Bool
      found = find_from (pos from) (negsuc 0) names

      flag : found.1 ≡ true
      flag =
          find_from-listed (pos from) (negsuc 0) names
          ∙ listed-finished fs db.jobs_finished_dir (pos from) content names
              (lt→ltb from int_half (omega arith)) r h

  -- If the directory can be listed, no file in it has the number `from`, `high` is the highest
  -- number of a file in it, and the numbers fit in an `int`, the page is returned and holds the
  -- newest results, from `high` downwards, up to the first that is missing and at most `max + 1`
  -- of them, separated by commas.
  pub get_finished_jobs-newest :
      (from : ℤ) (high max : ℕ)
      → list_directory fs db.jobs_finished_dir ≡ ok names
      → listed from names ≡ false
      → listed (pos high) names ≡ true
      → Bounded (pos high) names
      → high < int_half
      → max < int_half
      → get_finished_jobs db from (pos max) fs
        ≡ bracketed (joined (descending fs db.jobs_finished_dir high (suc (min high max))))
  unfolding page
  get_finished_jobs-newest from high max h missing l b fits fits_max =
      get_finished_jobs-find_from from (pos max) (pos high, false) h
        (find_from-highest from names missing high l b)
      ∙ ap closed (
          backward_lem fs db.jobs_finished_dir high max fits fits_max _ (codes "[\n") (omega arith))

  -- If the directory can be listed and no name in it is a number, the page is the empty array.
  get_finished_jobs-empty :
      (from : ℤ) (max : ℤ)
      → list_directory fs db.jobs_finished_dir ≡ ok names
      → ((id : ℤ) → listed id names ≡ false)
      → get_finished_jobs db from max fs ≡ bracketed []
  unfolding page
  get_finished_jobs-empty from max h empty =
      get_finished_jobs-find_from from max (negsuc 0, false) h
        (find_from-none from names (empty from) empty)
      ∙ ap closed (backward_nothing fs db.jobs_finished_dir _ _ (codes "[\n"))

-- All results up to `n` are there.
abbrev pub Complete : FileSystem → Text → ℕ → Type 0
Complete fs dir n =
    (i : ℕ) → i ≤ n → (content : Text) × (read fs (dir / to_string (pos i)) ≡ some content)

length-descending :
    (fs : FileSystem) (dir : Text) (r n : ℕ)
    → Complete fs dir n
    → r ≤ suc n
    → length (descending fs dir n r) ≡ r
length-descending fs dir zero n all h = unfold descending in refl
length-descending fs dir (suc r) zero all h =
    rw (descending-hit fs dir zero r (all zero (omega arith)).1)
      (ap suc (length-descending fs dir r zero all (omega arith)))
length-descending fs dir (suc r) (suc n) all h =
    rw (descending-hit fs dir (suc n) r (all (suc n) (omega arith)).1)
      (ap suc (length-descending fs dir r n (λ i k. all i (omega arith)) (omega arith)))

-- If the directory can be listed, no file in it has the number `from`, `high` is the highest
-- number of a file in it and fits in an `int`, all results up to `high` are there, and `max` is at
-- most `high`, the page is returned and holds `max + 1` entries: one more than the limit.
pub newest_page_exceeds_max :
    (db : DataBase) (fs : FileSystem) (names : List Text) (from : ℤ) (high max : ℕ)
    → list_directory fs db.jobs_finished_dir ≡ ok names
    → listed from names ≡ false
    → listed (pos high) names ≡ true
    → Bounded (pos high) names
    → Complete fs db.jobs_finished_dir high
    → high < int_half
    → max ≤ high
    → (cs : List Text) × (get_finished_jobs db from (pos max) fs ≡ bracketed (joined cs))
      × (length cs ≡ suc max)
newest_page_exceeds_max db fs names from high max h missing l b all fits enough = (
  descending fs db.jobs_finished_dir high (suc (min high max)),
  get_finished_jobs-newest db fs names from high max h missing l b fits (omega arith),
  length-descending fs db.jobs_finished_dir (suc (min high max)) high all (omega arith)
      ∙ omega arith,
)

-- Without the directory of the results the exception of the iterator passes to the caller.
get_finished_jobs-throws :
    (db : DataBase) (fs : FileSystem) (from max : ℤ)
    → contains db.jobs_finished_dir fs.dirs ≡ false
    → get_finished_jobs db from max fs ≡ throw filesystem_error
unfolding get_finished_jobs list_directory
get_finished_jobs-throws db fs from max h = rw h
