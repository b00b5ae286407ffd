-- ===== src/Tests/Configuring.antt =====
-- A configuration that is stored and read again, with JSON as texts that begin with their kind: a number
-- is one code, and an object the lengths, the key and the text of each member.
use opcuatesttool.Prelude.{
  ℕ, zero, suc, nat_eq, text_eq, ◌≤◌, ◌<◌, ◌≡◌, refl, Option, none, some, [], ◌∷◌, ◌++◌, ◌==◌,
  if◌then◌else◌, ℤ, pos, negsuc, Result, ok, throw, json_type_error, length, length-append, arith,
  ◌∙◌, ap,
}
use opcuatesttool.Prelude.Dict.{Dict, lookup}
use opcuatesttool.Std.Text.{Text, codes}
use opcuatesttool.Std.Files.{can_write}
use opcuatesttool.Config.{
  Config, ConfigPersistence, ConfigJson, IsJson, open_config, persist, open_config-persist,
}
use opcuatesttool.Tests.Data.{no_files}

take : ℕ → Text → Text
take zero s = []
take (suc n) [] = []
take (suc n) (c ∷ s) = c ∷ take n s

drop : ℕ → Text → Text
drop zero s = s
drop (suc n) [] = []
drop (suc n) (c ∷ s) = drop n s

take-append : (s t : Text) → take (length s) (s ++ t) ≡ s
unfolding take
take-append [] t = refl
take-append (c ∷ s) t = ap (◌∷◌ c) (take-append s t)

drop-append : (s t : Text) → drop (length s) (s ++ t) ≡ t
unfolding drop
drop-append [] t = refl
drop-append (c ∷ s) t = drop-append s t

members : Dict Text Text → Text
members [] = []
members ((k, v) ∷ ms) = length k ∷ length v ∷ k ++ (v ++ members ms)

find : ℕ → Text → Text → Option Text
find zero key s = none
find (suc fuel) key [] = none
find (suc fuel) key (k ∷ []) = none
find (suc fuel) key (k ∷ n ∷ s) =
    let rest = find fuel key (drop n (drop k s)) in
    if take k s == key then some (take n (drop k s)) else rest

find-members :
    (fuel : ℕ) (key : Text) (ms : Dict Text Text)
    → length ms < fuel
    → find fuel key (members ms) ≡ lookup key ms
unfolding find members lookup
find-members zero key ms h = elim h [ ]
find-members (suc fuel) key [] h = refl
find-members (suc fuel) key ((k, v) ∷ ms) h = rw (
  take-append k (v ++ members ms),
  drop-append k (v ++ members ms),
  take-append v (members ms),
  drop-append v (members ms),
  find-members fuel key ms (omega arith),
)

length-members : (ms : Dict Text Text) → length ms ≤ length (members ms)
unfolding members
length-members [] = omega arith
length-members ((k, v) ∷ ms) =
    omega
      (arith, length-members ms, length-append k (v ++ members ms), length-append v (members ms))

of_int : ℤ → Text
of_int (pos n) = n ∷ 0 ∷ []
of_int (negsuc n) = n ∷ 1 ∷ []

to_int : Option Text → Result ℤ
to_int (some (n ∷ zero ∷ [])) = ok (pos n)
to_int (some (n ∷ suc k ∷ [])) = ok (negsuc n)
to_int _ = throw json_type_error

to_text : Option Text → Result Text
to_text none = throw json_type_error
to_text (some t) = ok t

abbrev json : ConfigJson
json = record {
  Value = Text;
  parse = λ t. some t;
  dump = λ v. v;
  int_at = λ key v. to_int (find (suc (length v)) key v);
  text_at = λ key v. to_text (find (suc (length v)) key v);
  of_int = of_int;
  of_text = λ t. t;
  of_object = members;
}

to_int-of_int : (i : ℤ) → to_int (some (of_int i)) ≡ ok i
unfolding to_int of_int
to_int-of_int (pos n) = refl
to_int-of_int (negsuc n) = refl

found :
    (key : Text) (ms : Dict Text Text)
    → find (suc (length (members ms))) key (members ms) ≡ lookup key ms
found key ms = find-members (suc (length (members ms))) key ms (omega (arith, length-members ms))

json-IsJson : IsJson json
unfolding to_text
json-IsJson = record {
  parse-dump = λ v. refl;
  int_at-of_object = λ key ms i e fits. ap to_int (found key ms ∙ e) ∙ to_int-of_int i;
  text_at-of_object = λ key ms text e. ap to_text (found key ms ∙ e);
}

abbrev config : Config
config = record {
  major_version = pos 1;
  minor_version = pos 0;
  git_repository = codes "git";
  max_parallel_jobs = pos 4;
}

abbrev stored : ConfigPersistence
stored = record { path = codes "w/jobs/config"; current_config = config }

open_config-persist_example :
    open_config json stored.path (persist json stored no_files) ≡ ok stored
unfolding can_write
open_config-persist_example =
    open_config-persist json stored no_files json-IsJson refl refl refl refl
