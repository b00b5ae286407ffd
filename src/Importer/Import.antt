-- ===== src/Importer/Import.antt =====
-- The loop of `main` in persistence/InfluxDBImporter.cpp. The JSON library and the data base for the
-- run times are parameters; the waits and what is logged are left out.
use opcuatesttool.Prelude.{
  ℕ, zero, suc, nat_eq, int_eq, Bool, Option, none, some, List, [], ◌∷◌, ◌++◌, ℤ, pos, add_int,
  leb_ℤ, if◌then◌else◌, Result, Exception, parse_error, ok, throw, ◌>>=◌,
}
use opcuatesttool.Std.Text.{Text, codes, c_str}
use opcuatesttool.Std.Decimal.{to_string}
use opcuatesttool.Importer.Fetch.{Part, curl_fetch_url}
use opcuatesttool.Importer.Buffer.{Fetch}

-- nlohmann::json as the importer uses it: `int_at a b` is `at(a).at(b).get<int>()`, and so for the
-- other types; `items` are the values that `items()` goes through.
pub record ImportJson : Type 1 where
  pub Value : Type 0
  pub Double : Type 0
  pub parse : Text → Option Value
  pub items : Value → List Value
  pub int_at : Text → Text → Value → Result ℤ
  pub text_at : Text → Text → Value → Result Text
  pub double_at : Text → Text → Value → Result Double

-- How a round of the loop ends.
pub data RoundEnd : Type 0 where
  goes_on : RoundEnd
  uncaught : Exception → RoundEnd  -- an exception leaves `main`
  bad_access : RoundEnd  -- a write outside of a block, or a read of the null pointer

-- How `post_http` ends: with a number that tells of an error, which the importer does not look at, or
-- with an exception.
pub data Post : Type 0 where
  returned : ℤ → Post
  thrown : Post

-- What happens to a request for a URL: whether `calloc` succeeds, the parts of the answer, and the
-- code with which the transfer ends.
pub record Answer : Type 0 where
  pub allocates : Bool
  pub parts : List Part
  pub code : ℕ

module _ (json : ImportJson) where
  open json use {Value, Double, parse, items, int_at, text_at, double_at}

  pub record Entry : Type 0 where
    pub id : ℤ
    pub name : Text
    pub total_runtime_ms : Double
    pub ts_start : ℤ
    pub ts_stop : ℤ

  unfoldable pub entry_of : Value → Result Entry
  entry_of job = do
    id ← int_at (codes "request") (codes "id") job
    name ← text_at (codes "request") (codes "name") job
    total_runtime_ms ← double_at (codes "result") (codes "totalRuntime_ms") job
    ts_start ← int_at (codes "result") (codes "ts_start") job
    ts_stop ← int_at (codes "result") (codes "ts_stop") job
    ok (record {
      id = id;
      name = name;
      total_runtime_ms = total_runtime_ms;
      ts_start = ts_start;
      ts_stop = ts_stop;
    })

  -- A point of the measurement "mydb": the run time at a time.
  abbrev pub Point : Type 0
  Point = Double × ℤ

  -- The events of the stop and of the start, as they are sent.
  abbrev pub points : Entry → List Point
  points e = (e.total_runtime_ms, e.ts_stop) ∷ (e.total_runtime_ms, e.ts_start) ∷ []

  -- `fromId`, and the jobs for which `post_http` returned, whatever it returned, oldest first.
  pub record Importer : Type 0 where
    pub from_id : ℤ
    pub sent : List Entry

  -- Before the loop.
  unfoldable pub started : Importer
  started = record { from_id = pos 0; sent = [] }

  -- After a `post_http` that returns.
  unfoldable pub advance : Entry → Importer → Importer
  advance e i = record {
    from_id = if leb_ℤ i.from_id e.id then add_int e.id (pos 1) else i.from_id;
    sent = i.sent ++ e ∷ [];
  }

  unfoldable pub uri : ℤ → Text
  uri from_id = codes "localhost:9080/jobs?finished=true&from=" ++ to_string from_id

  module _ (post_http : List Point → Post) where
    -- The loop over the jobs. If `post_http` throws, the loop is left. An exception of the JSON library
    -- leaves `main`.
    unfoldable pub import_items : List Value → Importer → RoundEnd × Importer
    import_items [] i = (goes_on, i)
    import_items (job ∷ jobs) i = elim (entry_of job) [
      | throw x ↦ (uncaught x, i)
      | ok e ↦ elim (post_http (points e)) [
        | thrown ↦ (goes_on, i)
        | returned code ↦ import_items jobs (advance e i)
      ]
    ]

    abbrev pub import_parsed : Option Value → Importer → RoundEnd × Importer
    import_parsed none i = (uncaught parse_error, i)
    import_parsed (some j) i = import_items (items j) i

    -- After `curl_fetch_url`. `parse` reads the buffer up to the first NUL.
    abbrev pub import_fetched : Option (ℕ × Fetch) → Importer → RoundEnd × Importer
    import_fetched none i = (bad_access, i)
    import_fetched (some (suc code, p)) i = (goes_on, i)
    import_fetched (some (zero, p)) i = elim p.payload [
      | none ↦ (bad_access, i)
      | some block ↦ import_parsed (parse (c_str block)) i
    ]

    -- One round of the loop of `main`, over the buffer of the round before.
    unfoldable pub round : (Text → Answer) → Fetch → Importer → RoundEnd × Importer
    round answer p i =
        let a = answer (uri i.from_id) in
        import_fetched (curl_fetch_url a.allocates a.parts a.code p) i
