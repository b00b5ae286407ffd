-- ===== src/Config.antt =====
-- testService/Config.h and testService/Config.cpp. The conversions are those that the macro
-- `NLOHMANN_DEFINE_TYPE_NON_INTRUSIVE` makes of the members; the JSON library is a parameter.
use opcuatesttool.Prelude.{
  nat_eq, text_eq, ◌≡◌, refl, true, Option, none, some, List, [], ◌∷◌, ℤ, fits_int, Result, ok,
  parse_error, or_throw, ◌>>=◌,
}
use opcuatesttool.Prelude.Dict.{lookup}
use opcuatesttool.Std.Text.{Text, codes}
use opcuatesttool.Std.Files.{FileSystem, read, write, can_write}
use opcuatesttool.Std.Files.Laws.{read-write_self}

pub record Config : Type 0 where
  pub major_version : ℤ
  pub minor_version : ℤ
  pub git_repository : Text
  pub max_parallel_jobs : ℤ

pub record ConfigPersistence : Type 0 where
  pub path : Text
  pub current_config : Config

-- `int_at key` is `at(key).get<int>()`; an object is given by its members.
pub record ConfigJson : Type 1 where
  pub Value : Type 0
  pub parse : Text → Option Value
  pub dump : Value → Text
  pub int_at : Text → Value → Result ℤ
  pub text_at : Text → Value → Result Text
  pub of_int : ℤ → Value
  pub of_text : Text → Value
  pub of_object : List (Text × Value) → Value

-- A value is read as it was written, and so is a member of an object.
pub record IsJson (json : ConfigJson) : Type 0 where
  pub parse-dump : (v : json.Value) → json.parse (json.dump v) ≡ some v
  pub int_at-of_object :
      (key : Text) (members : List (Text × json.Value)) (i : ℤ)
      → lookup key members ≡ some (json.of_int i)
      → fits_int i ≡ true
      → json.int_at key (json.of_object members) ≡ ok i
  pub text_at-of_object :
      (key : Text) (members : List (Text × json.Value)) (text : Text)
      → lookup key members ≡ some (json.of_text text)
      → json.text_at key (json.of_object members) ≡ ok text

module _ (json : ConfigJson) where
  open json use {Value, parse, dump, int_at, text_at, of_int, of_text, of_object}

  unfoldable pub from_json : Value → Result Config
  from_json j = do
    major_version ← int_at (codes "majorVersion") j
    minor_version ← int_at (codes "minorVersion") j
    git_repository ← text_at (codes "gitRepository") j
    max_parallel_jobs ← int_at (codes "maxParallelJobs") j
    ok (record {
      major_version = major_version;
      minor_version = minor_version;
      git_repository = git_repository;
      max_parallel_jobs = max_parallel_jobs;
    })

  unfoldable pub to_json : Config → Value
  to_json c = of_object (
      (codes "majorVersion", of_int c.major_version)
      ∷ (codes "minorVersion", of_int c.minor_version)
      ∷ (codes "gitRepository", of_text c.git_repository)
      ∷ (codes "maxParallelJobs", of_int c.max_parallel_jobs)
      ∷ [])

  -- A stream that could not be opened has no text.
  abbrev text_of : Option Text → Text
  text_of none = []
  text_of (some text) = text

  -- `loadConfig`, with the new value of `currentConfig`.
  unfoldable load_config : Text → FileSystem → Result Config
  unfolding from_json
  load_config path fs = do j ← or_throw parse_error (parse (text_of (read fs path))); from_json j

  -- The constructor of `ConfigPersistence`.
  unfoldable pub open_config : Text → FileSystem → Result ConfigPersistence
  unfolding load_config
  open_config path fs = do
    current_config ← load_config path fs
    ok (record { path = path; current_config = current_config })

  unfoldable pub persist : ConfigPersistence → FileSystem → FileSystem
  persist p fs = write fs p.path (dump (to_json p.current_config))

  from_json-to_json :
      (c : Config)
      → IsJson json
      → fits_int c.major_version ≡ true
      → fits_int c.minor_version ≡ true
      → fits_int c.max_parallel_jobs ≡ true
      → from_json (to_json c) ≡ ok c
  unfolding from_json to_json lookup
  from_json-to_json c laws major minor jobs = rw (
    laws.int_at-of_object (codes "majorVersion") _ c.major_version refl major,
    laws.int_at-of_object (codes "minorVersion") _ c.minor_version refl minor,
    laws.text_at-of_object (codes "gitRepository") _ c.git_repository refl,
    laws.int_at-of_object (codes "maxParallelJobs") _ c.max_parallel_jobs refl jobs,
  )

  -- If the file can be written, the numbers of the configuration fit in an `int`, and the JSON
  -- library reads values and members as they were written: an object constructed with the path of
  -- a stored one has its configuration.
  pub open_config-persist :
      (p : ConfigPersistence) (fs : FileSystem)
      → IsJson json
      → can_write fs p.path ≡ true
      → fits_int p.current_config.major_version ≡ true
      → fits_int p.current_config.minor_version ≡ true
      → fits_int p.current_config.max_parallel_jobs ≡ true
      → open_config p.path (persist p fs) ≡ ok p
  unfolding open_config load_config persist
  open_config-persist p fs laws writes major minor jobs = rw (
    read-write_self fs p.path (dump (to_json p.current_config)) writes,
    laws.parse-dump (to_json p.current_config),
    from_json-to_json p.current_config laws major minor jobs,
  )
