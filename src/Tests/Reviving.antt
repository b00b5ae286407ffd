-- ===== src/Tests/Reviving.antt =====
-- A service that starts in an empty directory, takes a job, is stopped, starts again and takes another.
use opcuatesttool.Prelude.{nat_eq, int_eq, text_eq, ◌≡◌, refl, [], ◌∷◌, pos, length, arith, add_int}
use opcuatesttool.Prelude.Dict.{lookup, insert}
use opcuatesttool.Std.Text.{Text, codes}
use opcuatesttool.Std.Decimal.{to_string}
use opcuatesttool.Std.Files.{
  FileSystem, read, exists, write, can_write, split_path, create_directories, prefixes,
}
use opcuatesttool.DataBase.Defs.{new_job, construct, initialize, recover_id, members}
use opcuatesttool.DataBase.Requests.{Represents}
use opcuatesttool.JobScheduler.Defs.{
  create, enqueue, schedule, schedule_front, launch, open_scheduler,
}
use opcuatesttool.JobScheduler.Storage.{numbers}
use opcuatesttool.Repl.Process.{Started, start_repl}
use opcuatesttool.TestService.Monad.{Service}
use opcuatesttool.TestService.Defs
use opcuatesttool.TestService.Defs.{api_callback}
use opcuatesttool.TestService.Main
use opcuatesttool.TestService.Main.{start, serving, binary_path, repo_url}
use opcuatesttool.TestService.Durable.{IsSparing}
use opcuatesttool.TestService.Reopen.{IsFresh}
use opcuatesttool.TestService.Lives.{started, requested, started_again, Lives-Represents}
use opcuatesttool.Api.Handlers.{handle, handle_post_jobs}
use opcuatesttool.Api.Request.{as_new_job_response}
use opcuatesttool.Api.Routes.{routes, match, all_in_line, all_digits, span_digits, matching, strip}
use opcuatesttool.Api.Server.{serve}
use opcuatesttool.Tests.Data.{data_base, host, service, shell, environment}
use opcuatesttool.Tests.Starting.{system, fresh}
use opcuatesttool.Tests.Living.{web_json, library, first_of, incoming, done_ne}

abbrev made : FileSystem
made =
    create_directories (create_directories fresh (codes "w/jobs/requests"))
      (codes "w/jobs/finished")

shell-IsSparing : IsSparing (codes "w") shell
shell-IsSparing command fs = record {
  same_file = λ name. refl;
  same_dir = refl;
  same_dirs = λ name. refl;
  same_jobs = refl;
}

fresh-IsFresh : IsFresh (codes "w") fresh
unfolding exists read lookup
fresh-IsFresh = record { no_jobs = refl; no_file = λ i. refl; no_dir = λ i. refl }

first_starts :
    (repl : Started) × (web : Text) × (start system (codes "w/testService") (codes "git" ∷ []) fresh
      ≡ serving (service made) repl web)
unfolding start binary_path split_path Main.construct start_repl open_scheduler construct initialize
    exists recover_id members repo_url
first_starts = (_, _, refl)

abbrev after_post : Text → Service → Service
after_post body s =
    (serve library web_json (api_callback environment) (incoming (codes "/api/jobs") body) s).1

abbrev stopped : Service
stopped = after_post (codes "first") (service made)

abbrev revived : Service
revived = record {
  host = record (host stopped.host.files) {
    scheduler = record ((host stopped.host.files).scheduler) {
      db = record data_base { job_id = pos 1 };
    };
  };
  terminal = [];
}

starts_again :
    (repl : Started) × (web : Text) × (start system
        (codes "w/testService")
        (codes "git" ∷ [])
        stopped.host.files
      ≡ serving revived repl web)
unfolding start binary_path split_path Main.construct start_repl open_scheduler construct initialize
    exists recover_id members repo_url serve first_of strip all_in_line all_digits span_digits match
    routes matching handle handle_post_jobs api_callback Defs.new_job as_new_job_response create
    enqueue new_job add_int schedule schedule_front launch lookup insert write can_write to_string
    create_directories prefixes
starts_again = (_, _, refl)

Lives-Represents_example :
    let s = after_post (codes "second") revived in
    let bodies = codes "first" ∷ codes "second" ∷ [] in
    ((pos 0 ∷ pos 1 ∷ []) ≡ numbers 0 (length bodies)) × Represents s.host.db s.host.files bodies
unfolding serve first_of strip all_in_line all_digits span_digits match routes matching handle
    handle_post_jobs api_callback Defs.new_job as_new_job_response create enqueue new_job add_int
    schedule schedule_front launch lookup insert
Lives-Represents_example =
    Lives-Represents library web_json (codes "w")
      (requested environment (incoming (codes "/api/jobs") (codes "second"))
        (started_again system (codes "testService") (codes "git" ∷ []) starts_again.0 starts_again.1
          (requested environment (incoming (codes "/api/jobs") (codes "first"))
            (started system (codes "testService") (codes "git" ∷ []) fresh first_starts.0
              first_starts.1 (omega arith) fresh-IsFresh shell-IsSparing first_starts.2)
            shell-IsSparing tt (done_ne _))
          (omega arith) shell-IsSparing starts_again.2)
        shell-IsSparing tt (done_ne _))
      (omega arith)
