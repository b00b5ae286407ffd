-- ===== src/TestService/Durable.antt =====
-- What the service keeps of the requests over its calls, its files and its starts.
use opcuatesttool.Prelude.{
  suc, nat_eq, int_eq, text_eq, ◌≡◌, ◌≢◌, true, some, List, [], ◌∷◌, ◌++◌, ℤ, pos, length, ◌<◌,
  int_half, contains, ap, sym, subst, ◌∙◌, arith, append_assoc,
}
use opcuatesttool.Std.Text.{Text, codes, append_cancel}
use opcuatesttool.Std.Decimal.{to_string}
use opcuatesttool.Std.Files.{FileSystem, ◌/◌, read}
use opcuatesttool.Std.Files.Laws.{dirs-write}
use opcuatesttool.DataBase.Defs
use opcuatesttool.DataBase.Defs.{Shell}
use opcuatesttool.DataBase.Requests.{Holds, Holds-write_other}
use opcuatesttool.DataBase.Startup.{Spares}
use opcuatesttool.JobScheduler.Defs.{Host, Fork, create, job_finished}
use opcuatesttool.JobScheduler.Frame.{frame, frame-create, frame-job_finished}
use opcuatesttool.JobScheduler.Queries
use opcuatesttool.JobScheduler.Storage.{Stores, create-Stores, Stores-job_finished}

module _ (home : Text) where
  abbrev pub requests_dir : Text
  requests_dir = home ++ codes "/jobs/requests"

  -- The directories have their names, and the one of the jobs is there.
  abbrev pub IsHome : Text × Text × Text × List Text → Type 0
  IsHome (working_dir, requests, scripts, dirs) =
      (working_dir ≡ home)
      × (requests ≡ requests_dir)
      × (scripts ≡ home ++ codes "/repo/scripts")
      × (contains (home ++ codes "/jobs") dirs ≡ true)

  abbrev pub Keeps : Host → List Text → Type 0
  Keeps h requests = IsHome (frame h) × Stores h requests

  -- A change of files that leaves the requests alone.
  pub record SameRequests (fs fs' : FileSystem) : Type 0 where
    pub same_file : (name : Text) → read fs' (requests_dir / name) ≡ read fs (requests_dir / name)
    pub same_dir : contains requests_dir fs'.dirs ≡ contains requests_dir fs.dirs
    pub same_dirs :
        (name : Text)
        → contains (requests_dir / name) fs'.dirs ≡ contains (requests_dir / name) fs.dirs
    pub same_jobs :
        contains (home ++ codes "/jobs") fs'.dirs ≡ contains (home ++ codes "/jobs") fs.dirs

  -- The script that clones the repository makes no other change.
  abbrev pub IsSparing : Shell → Type 0
  IsSparing shell = (command : Text) (fs : FileSystem) → SameRequests fs (shell command fs).1

  pub IsSparing-Spares : (shell : Shell) → IsSparing shell → Spares shell requests_dir
  IsSparing-Spares shell sparing = record {
    same_file = λ command fs. (sparing command fs).same_file;
    same_dir = λ command fs. (sparing command fs).same_dir;
    same_dirs = λ command fs. (sparing command fs).same_dirs;
  }

  Holds-SameRequests :
      (fs fs' : FileSystem) (requests : List Text)
      → SameRequests fs fs'
      → Holds requests_dir fs requests
      → Holds requests_dir fs' requests
  Holds-SameRequests fs fs' requests same v = record {
    ready = record {
      there = same.same_dir ∙ v.ready.there;
      numbers_free = λ i. same.same_dirs (to_string i) ∙ v.ready.numbers_free i;
    };
    file = λ i h. same.same_file (to_string (pos i)) ∙ v.file i h;
  }

  pub Keeps-files_changed :
      (h : Host) (fs : FileSystem) (requests : List Text)
      → SameRequests h.files fs
      → Keeps h requests
      → Keeps (record h { files = fs }) requests
  Keeps-files_changed h fs requests same ((w, r, s, jobs), (placed, v)) = (
    (w, r, s, same.same_jobs ∙ jobs),
    (
      placed,
      record {
        next_id = v.next_id;
        holds =
            subst (λ d. Holds d fs requests) (sym r)
              (Holds-SameRequests h.files fs requests same
                (subst (λ d. Holds d h.files requests) r v.holds));
      },
    ),
  )

  -- No script lies in the request directory.
  script_ne : (a name : Text) → (home ++ codes "/repo/scripts") / a ≢ requests_dir / name
  script_ne a name e = different (
      append_cancel home (codes "/repo/scripts" / a) (codes "/jobs/requests" / name)
        (simp append_assoc at e))
    where
      different : codes "/repo/scripts" / a ≢ codes "/jobs/requests" / name
      different p = ground arith

  pub Keeps-update_script :
      (name content : Text) (h : Host) (requests : List Text)
      → Keeps h requests
      → Keeps (Queries.update_script name content h) requests
  unfolding Queries.update_script Defs.update_script
  Keeps-update_script name content h requests ((w, r, s, jobs), (placed, v)) = (
    (w, r, s, ap (contains (home ++ codes "/jobs")) (dirs-write h.files _ content) ∙ jobs),
    (
      placed,
      record {
        next_id = v.next_id;
        holds =
            Holds-write_other h.db.jobs_requests_dir h.files requests _ content
              (λ other e.
                script_ne name other (ap (λ d. d / name) (sym s) ∙ e ∙ ap (λ d. d / other) r))
              v.holds;
      },
    ),
  )

  pub Keeps-clone :
      (shell : Shell) (h : Host) (requests : List Text)
      → IsSparing shell
      → Keeps h requests
      → Keeps (Queries.clone_script_repo shell h) requests
  unfolding Queries.clone_script_repo Defs.clone_script_repo
  Keeps-clone shell h requests sparing v = Keeps-files_changed h _ requests (sparing _ h.files) v

  pub Keeps-create :
      (fork : Fork) (request : Text) (h h' : Host) (id : ℤ) (requests : List Text)
      → Keeps h requests
      → suc (length requests) < int_half
      → create fork request h ≡ some (id, h')
      → (id ≡ pos (length requests)) × Keeps h' (requests ++ request ∷ [])
  Keeps-create fork request h h' id requests (at_home, stores) fits e =
      let (number, stores') = create-Stores fork request h h' id requests stores fits e in
      (number, (subst IsHome (sym (frame-create fork request h h' id e)) at_home, stores'))

  pub Keeps-job_finished :
      (fork : Fork) (pid : ℤ) (h h' : Host) (requests : List Text)
      → Keeps h requests
      → job_finished fork pid h ≡ some h'
      → Keeps h' requests
  Keeps-job_finished fork pid h h' requests (at_home, stores) e = (
    subst IsHome (sym (frame-job_finished fork pid h h' e)) at_home,
    Stores-job_finished fork pid h h' requests stores e,
  )
