-- ===== src/JobScheduler/Queries.antt =====
-- The methods of testService/JobScheduler.cpp that hand a call on to the data base. They take no
-- lock.
use opcuatesttool.Prelude.{ℤ, Option, Result}
use opcuatesttool.Std.Text.{Text}
use opcuatesttool.DataBase.Defs
use opcuatesttool.DataBase.Defs.{Shell}
use opcuatesttool.DataBase.Finished
use opcuatesttool.JobScheduler.Defs.{Host}

unfoldable pub get_finished_jobs : ℤ → ℤ → Host → Result (Option Text)
get_finished_jobs from max h = Finished.get_finished_jobs h.db from max h.files

unfoldable pub get_finished_job : ℤ → Host → Text
get_finished_job id h = Defs.get_finished_job h.db id h.files

unfoldable pub get_scripts : Host → Result Text
get_scripts h = Defs.get_scripts h.db h.files

unfoldable pub get_script : Text → Host → Text
get_script name h = Defs.get_script h.db name h.files

unfoldable pub update_script : Text → Text → Host → Host
update_script name content h = record h { files = Defs.update_script h.db name content h.files }

unfoldable pub get_job_log : ℤ → Host → Text
get_job_log id h = Defs.get_job_log h.db id h.files

unfoldable pub get_targets : Host → Text
get_targets h = Defs.get_targets h.db h.files

unfoldable pub clone_script_repo : Shell → Host → Host
clone_script_repo shell h = record h { files = Defs.clone_script_repo shell h.db h.files }
