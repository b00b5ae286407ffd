-- ===== src/DataBase/Finished.antt =====
-- `getFinishedJobs` of testService/DataBase.cpp: a page of the finished jobs as a JSON array.
use opcuatesttool.Prelude.{
  ℕ, zero, suc, nat_eq, int_eq, ◌+◌, ◌-◌, Bool, true, false, ◌&&◌, Option, none, some, List, [],
  ◌∷◌, ◌++◌, ◌==◌, ltb_ℤ, leb_ℤ, if◌then◌else◌, ℤ, pos, negsuc, add_int, sub_int, pos_part,
  neg_part, Result, ok, throw, ◌>>=◌,
}
use opcuatesttool.Std.Text.{Text, codes, c_str, lines}
use opcuatesttool.Std.Decimal.{to_string, stoi}
use opcuatesttool.Std.Files.{FileSystem, ◌/◌, read, list_directory}
use opcuatesttool.DataBase.Defs.{DataBase}

-- `highestId` and `fromFound` after the loop over the directory. A name that is no number is
-- caught and reported; the loop stops at `fromId`.
unfoldable pub find_from : ℤ → ℤ → List Text → ℤ × Bool
find_from from_id highest_id [] = (highest_id, false)
find_from from_id highest_id (name ∷ names) = elim (stoi name) [
  | throw e ↦ find_from from_id highest_id names
  | ok file_id ↦
      let highest = if ltb_ℤ highest_id file_id then file_id else highest_id in
      let rest = find_from from_id highest names in
      if file_id == from_id then (highest, true) else rest
]

-- `while (getline(resultFile, line)) stream << line.c_str() << '\n'`.
unfoldable pub copy_lines : List Text → Text
copy_lines [] = []
copy_lines (line ∷ rest) = c_str line ++ b'\n' ∷ copy_lines rest

unfoldable pub copy_file : Text → Text
unfolding copy_lines
copy_file content = copy_lines (lines content)

-- `if (cnt > 0) stream << ",\n"`.
abbrev separator : ℕ → Text
separator zero = []
separator (suc cnt) = codes ",\n"

-- The loop from `fromId` upwards, on fuel. The separator is written before the file is opened.
unfoldable pub forward : ℕ → FileSystem → Text → ℤ → ℤ → ℕ → Text → Option Text
forward zero fs dir limit id cnt stream = none
forward (suc fuel) fs dir limit id cnt stream =
    let next : Option Text = elim (read fs (dir / to_string id)) [
      | none ↦ some (stream ++ separator cnt)
      | some content ↦
          forward fuel fs dir limit (add_int id (pos 1)) (suc cnt)
            (stream ++ separator cnt ++ copy_file content)
    ] in
    if ltb_ℤ id limit then next else some stream

-- The loop from the highest id downwards, on fuel. The separator is written once the file is open.
unfoldable pub backward : ℕ → FileSystem → Text → ℤ → ℤ → ℕ → Text → Option Text
backward zero fs dir limit id cnt stream = none
backward (suc fuel) fs dir limit id cnt stream =
    let next : Option Text = elim (read fs (dir / to_string id)) [
      | none ↦ some stream
      | some content ↦
          backward fuel fs dir limit (sub_int id (pos 1)) (suc cnt)
            (stream ++ separator cnt ++ copy_file content)
    ] in
    if leb_ℤ (pos 0) id && leb_ℤ limit id then next else some stream

-- As many rounds as there are numbers from `a` up to `b`, and one to see the end.
abbrev rounds : ℤ → ℤ → ℕ
rounds a b = suc (suc (pos_part b + neg_part a - (pos_part a + neg_part b)))

unfoldable pub page : FileSystem → Text → ℤ → ℤ → ℤ × Bool → Option Text
page fs dir from_id max (highest_id, from_found) =
    let limit = add_int from_id max in
    let lowest = sub_int highest_id max in
    if from_found
    then forward (rounds from_id limit) fs dir limit from_id 0 (codes "[\n")
    else backward (rounds (pos 0) highest_id) fs dir lowest highest_id 0 (codes "[\n")

abbrev pub closed : Option Text → Result (Option Text)
closed none = ok none
closed (some stream) = ok (some (stream ++ codes "]\n"))

-- An exception if the directory is missing; `none` would be a lack of fuel.
unfoldable pub get_finished_jobs : DataBase → ℤ → ℤ → FileSystem → Result (Option Text)
unfolding page
get_finished_jobs db from_id max fs = do
  names ← list_directory fs db.jobs_finished_dir
  closed (page fs db.jobs_finished_dir from_id max (find_from from_id (negsuc 0) names))
