-- ===== src/TestService/Reopen.antt =====
-- The requests that the service has after a start, the first one or a later one.
use opcuatesttool.Prelude.{
  nat_eq, int_eq, text_eq, ◌≡◌, refl, true, false, none, some, List, [], ◌++◌, append_assoc, ℤ,
  length, ◌<◌, int_half, pos, contains, ap, sym, ◌∙◌, some_elim, or-true,
}
use opcuatesttool.Std.Text.{Text, codes}
use opcuatesttool.Std.Decimal.{to_string}
use opcuatesttool.Std.Files.{FileSystem, ◌/◌, read, exists, prefixes, create_directories}
use opcuatesttool.Std.Files.Directories.{
  contains-create_directories, contains-prefixes_above, exists-dir,
}
use opcuatesttool.DataBase.Defs.{DataBase, Shell, members, construct, clone_script_repo}
use opcuatesttool.DataBase.Requests.{Holds}
use opcuatesttool.DataBase.Startup.{restarted, construct-Holds, restarted-Represents}
use opcuatesttool.DataBase.FirstStart.{made, dir, made-Ready, initialize-made}
use opcuatesttool.JobScheduler.Defs.{Host, open_scheduler}
use opcuatesttool.TestService.Durable.{
  requests_dir, Keeps, IsSparing, IsSparing-Spares, Keeps-files_changed,
}

abbrev opened : Text → DataBase → FileSystem → Host
opened home db fs = record {
  scheduler = record {
    working_dir = home;
    active_jobs = [];
    wait_queue = [];
    db = db;
    job_finished_callback = true;
  };
  files = fs;
  started = [];
  events = [];
}

-- There are no jobs yet.
pub record IsFresh (home : Text) (fs : FileSystem) : Type 0 where
  pub no_jobs : exists fs (home ++ codes "/jobs") ≡ false
  pub no_file : (i : ℤ) → read fs (requests_dir home / to_string i) ≡ none
  pub no_dir : (i : ℤ) → contains (requests_dir home / to_string i) fs.dirs ≡ false

module _ (shell : Shell) (home repo : Text) (fs : FileSystem) (sparing : IsSparing home shell) where
  -- What the constructor of the scheduler makes of the members and files of the data base.
  open_scheduler-Keeps :
      (db : DataBase) (fs' : FileSystem) (h : Host) (requests : List Text)
      → construct shell home repo fs ≡ some (db, fs')
      → Keeps home (opened home db fs') requests
      → open_scheduler shell home repo fs ≡ some h
      → Keeps home h requests
  unfolding open_scheduler
  open_scheduler-Keeps db fs' h requests c keeps e =
      some_elim (λ g. Keeps home g requests) (rw (c, open_scheduler) at e) keeps

  pub reopened :
      (h : Host) (requests : List Text)
      → contains (home ++ codes "/jobs") fs.dirs ≡ true
      → Holds (requests_dir home) fs requests
      → length requests < int_half
      → open_scheduler shell home repo fs ≡ some h
      → Keeps home h requests
  unfolding restarted members clone_script_repo
  reopened h requests jobs holds fits e =
      open_scheduler-Keeps _ _ h requests
        (construct-Holds shell home repo fs requests (exists-dir fs _ jobs) holds fits)
        (
          (refl, refl, refl, (sparing _ fs).same_jobs ∙ jobs),
          (
            refl,
            restarted-Represents shell home repo fs requests (IsSparing-Spares home shell sparing)
                holds,
          ),
        )
        e

  jobs_made : contains (home ++ codes "/jobs") (made home fs).dirs ≡ true
  unfolding made dir
  jobs_made =
      let above : contains (home ++ codes "/jobs") (prefixes [] (home ++ codes "/jobs/requests"))
          ≡ true =
        ap (λ path. contains (home ++ codes "/jobs") (prefixes [] path))
          (sym (append_assoc home (codes "/jobs") (codes "/requests")))
        ∙ contains-prefixes_above [] (home ++ codes "/jobs") (codes "requests") in
      rw (
        contains-create_directories (create_directories fs (dir home fs))
            (home ++ codes "/jobs/finished") (home ++ codes "/jobs"),
        contains-create_directories fs (dir home fs) (home ++ codes "/jobs"),
        above,
        or-true,
      )

  made-Holds : IsFresh home fs → Holds (requests_dir home) (made home fs) []
  unfolding made dir read create_directories
  made-Holds new = record {
    ready = made-Ready home fs new.no_dir;
    file = λ i h. new.no_file (pos i);
  }

  construct-made :
      IsFresh home fs
      → construct shell home repo fs
        ≡ some (members home repo, clone_script_repo shell (members home repo) (made home fs))
  unfolding construct
  construct-made new = rw (initialize-made home repo fs new.no_jobs, construct)

  pub opened_first :
      (h : Host) → IsFresh home fs → open_scheduler shell home repo fs ≡ some h → Keeps home h []
  unfolding members clone_script_repo
  opened_first h new e =
      open_scheduler-Keeps _ _ h [] (construct-made new)
        (Keeps-files_changed home (opened home (members home repo) (made home fs)) _ []
          (sparing _ (made home fs))
          (
            (refl, refl, refl, jobs_made),
            (refl, record { next_id = refl; holds = made-Holds new }),
          ))
        e
