-- ===== src/DataBase/Requests.antt =====
-- The request directory as a list: `newJob` of testService/DataBase.cpp appends to it.
use opcuatesttool.Prelude.{
  ℕ, suc, nat_eq, int_eq, text_eq, ◌<◌, ◌≡◌, ◌≢◌, true, false, List, [], ◌∷◌, ◌++◌, lt→ltb, ℤ, pos,
  add_int, add_int-one, length, length-append, get_elem?, get_elem?-append_last,
  get_elem?-append_ne, arith, int_half, contains, ap, sym, subst, ◌∙◌,
}
use native.Mathlib.Decide.{ℕ_discrete}
use opcuatesttool.Std.Text.{Text}
use opcuatesttool.Std.Decimal.{to_string}
use opcuatesttool.Std.Decimal.RoundTrip.{
  to_string_injective, to_string-Lacks_slash, is_empty-to_string,
}
use opcuatesttool.Std.Files.{FileSystem, ◌/◌, read, write, can_write}
use opcuatesttool.Std.Files.Laws.{
  name_injective, read-write_self, read-write_ne, dirs-write, can_write_of_name,
}
use opcuatesttool.DataBase.Defs.{DataBase, new_job}

-- The directory `dir` is there, and no directory has a number's name in it.
pub record Ready (dir : Text) (fs : FileSystem) : Type 0 where
  pub there : contains dir fs.dirs ≡ true
  pub numbers_free : (i : ℤ) → contains (dir / to_string i) fs.dirs ≡ false

-- The files named by numbers are those of the list, in order.
pub record Holds (dir : Text) (fs : FileSystem) (requests : List Text) : Type 0 where
  pub ready : Ready dir fs
  pub file : (i : ℕ) → i < int_half → read fs (dir / to_string (pos i)) ≡ get_elem? requests i

pub record Represents (db : DataBase) (fs : FileSystem) (requests : List Text) : Type 0 where
  pub next_id : db.job_id ≡ pos (length requests)
  pub holds : Holds db.jobs_requests_dir fs requests

can_write-Ready :
    (dir : Text) (fs : FileSystem) (i : ℤ) → Ready dir fs → can_write fs (dir / to_string i) ≡ true
can_write-Ready dir fs i r =
    can_write_of_name fs dir (to_string i) r.there (to_string-Lacks_slash i) (is_empty-to_string i)
      (r.numbers_free i)

-- The paths of different numbers differ.
pub path_ne :
    (dir : Text) (i j : ℕ)
    → i < int_half
    → j < int_half
    → i ≢ j
    → dir / to_string (pos i) ≢ dir / to_string (pos j)
path_ne dir i j h k ne e = ne (
    pos_injective (
      to_string_injective (pos i) (pos j) (lt→ltb i int_half h) (lt→ltb j int_half k)
        (name_injective dir _ _ e)))
  where
    pos_injective : {a b : ℕ} → pos a ≡ pos b → a ≡ b
    pos_injective p = cc

Ready-write :
    (dir : Text) (fs : FileSystem) (p content : Text)
    → Ready dir fs
    → Ready dir (write fs p content)
Ready-write dir fs p content r = record {
  there = rw (dirs-write fs p content) r.there;
  numbers_free = λ i. rw (dirs-write fs p content) (r.numbers_free i);
}

Holds-write :
    (dir : Text) (fs : FileSystem) (requests : List Text) (request : Text)
    → suc (length requests) < int_half
    → Holds dir fs requests
    → Holds dir
        (write fs (dir / to_string (pos (length requests))) request)
        (requests ++ request ∷ [])
Holds-write dir fs requests request fits v = record {
  ready = Ready-write dir fs _ request v.ready;
  file = λ i h. elim (ℕ_discrete i (length requests)) [
    | yes e ↦ rw e (
        read-write_self fs _ request (can_write-Ready dir fs _ v.ready)
        ∙ sym (get_elem?-append_last requests request))
    | no ne ↦
        read-write_ne fs _ _ request
          (path_ne dir (length requests) i (omega arith) h (λ e. ne (sym e)))
        ∙ v.file i h
        ∙ sym (get_elem?-append_ne requests request i ne)
  ];
}

-- A file written elsewhere changes no request.
pub Holds-write_other :
    (dir : Text) (fs : FileSystem) (requests : List Text) (p content : Text)
    → ((name : Text) → p ≢ dir / name)
    → Holds dir fs requests
    → Holds dir (write fs p content) requests
Holds-write_other dir fs requests p content other v = record {
  ready = Ready-write dir fs p content v.ready;
  file = λ i h. read-write_ne fs p _ content (other (to_string (pos i))) ∙ v.file i h;
}

-- If the request directory holds the list `requests` and the next number fits in an `int`,
-- `newJob` returns the length of the list, and then the data base represents the list with the new
-- request at its end.
pub new_job-Represents :
    (db : DataBase) (fs : FileSystem) (requests : List Text) (request : Text)
    → Represents db fs requests
    → suc (length requests) < int_half
    → let (id, db', fs') = new_job db request fs in
      (id ≡ pos (length requests)) × Represents db' fs' (requests ++ request ∷ [])
unfolding new_job
new_job-Represents db fs requests request v fits = (
  v.next_id,
  record {
    next_id =
        ap (λ id. add_int id (pos 1)) v.next_id
        ∙ add_int-one (length requests) fits
        ∙ ap pos (omega (arith, length-append requests (request ∷ [])));
    holds =
        subst (λ id. Holds dir (write fs (dir / to_string id) request) (requests ++ request ∷ []))
          (sym v.next_id) (Holds-write dir fs requests request fits v.holds);
  },
)
  where
    dir : Text
    dir = db.jobs_requests_dir
