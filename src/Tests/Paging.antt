-- ===== src/Tests/Paging.antt =====
-- Pages of a directory with the results 0 and 1 and a file that is no result.
use opcuatesttool.Prelude.{
  zero, suc, nat_eq, int_eq, text_eq, ◌≡◌, refl, some, List, pos, negsuc, ok, length, arith,
}
use opcuatesttool.Prelude.Dict.{lookup}
use opcuatesttool.Std.Text.{Text, codes}
use opcuatesttool.Std.Files.{list_directory, read}
use opcuatesttool.Std.Text.{lines}
use opcuatesttool.Std.Decimal.{to_string, stoi}
use opcuatesttool.DataBase.Finished.{get_finished_jobs, copy_file}
use opcuatesttool.DataBase.Pages.{ascending, joined}
use opcuatesttool.DataBase.Newest.{descending}
use opcuatesttool.DataBase.Listing.{listed, Bounded}
use opcuatesttool.DataBase.FinishedJobs.{
  bracketed, Complete, get_finished_jobs-from, get_finished_jobs-newest, newest_page_exceeds_max,
}
use opcuatesttool.Tests.Data.{data_base, two_results, names}

abbrev dir : Text
dir = codes "w/jobs/finished"

-- Three results are asked for, and two are there: a comma follows the second.
get_finished_jobs-from_example :
    get_finished_jobs data_base (pos 0) (pos 3) two_results
    ≡ ok (some (codes "[\n{0}\n,\n{1}\n,\n]\n"))
unfolding list_directory read lookup ascending to_string copy_file lines
get_finished_jobs-from_example =
    get_finished_jobs-from data_base two_results names 0 3 (codes "{0}") refl refl (omega arith)

names-Bounded : Bounded (pos 1) names
unfolding listed stoi
names-Bounded (pos n) h = ground arith
names-Bounded (negsuc n) h = omega arith

two_results-Complete : Complete two_results dir 1
unfolding read lookup to_string
two_results-Complete zero h = (codes "{0}", refl)
two_results-Complete (suc zero) h = (codes "{1}", refl)
two_results-Complete (suc (suc i)) h = absurd (omega arith)

get_finished_jobs-newest_example :
    get_finished_jobs data_base (pos 5) (pos 1) two_results
    ≡ ok (some (codes "[\n{1}\n,\n{0}\n]\n"))
unfolding list_directory listed read lookup descending stoi to_string copy_file lines
get_finished_jobs-newest_example =
    get_finished_jobs-newest data_base two_results names (pos 5) 1 1 refl refl refl names-Bounded
      (omega arith) (omega arith)

newest_page_exceeds_max_example :
    (cs : List Text) × (get_finished_jobs data_base (pos 5) (pos 1) two_results
      ≡ bracketed (joined cs))
    × (length cs ≡ 2)
unfolding list_directory listed stoi
newest_page_exceeds_max_example =
    newest_page_exceeds_max data_base two_results names (pos 5) 1 1 refl refl refl names-Bounded
      two_results-Complete (omega arith) (omega arith)
