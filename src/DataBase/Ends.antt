-- ===== src/DataBase/Ends.antt =====
-- The loop of the constructor of `DataBase` ends, whatever files there are.
use opcuatesttool.Prelude.{
  ℕ, zero, suc, nat_eq, int_eq, text_eq, ◌+◌, ◌≤◌, ◌<◌, ◌≡◌, ◌≢◌, true, Bool-cases, inl, inr, none,
  pos, add_int-one, length, arith, int_half, Option-cases, subst, ◌++◌,
}
use native.Mathlib.Decide.{dec_lt}
use opcuatesttool.Prelude.Pigeonhole.{pigeonhole}
use opcuatesttool.Std.Text.{Text, codes}
use opcuatesttool.Std.Decimal.{to_string}
use opcuatesttool.Std.Files.{FileSystem, ◌/◌, paths, exists}
use opcuatesttool.DataBase.Defs.{Shell, recover_id, members, initialize, construct}
use opcuatesttool.DataBase.Requests.{path_ne}

module _ (fs : FileSystem) (dir : Text) where
  -- A loop that needs more rounds has found a path in each.
  all_taken :
      (fuel i j : ℕ)
      → recover_id fuel fs dir (pos i) ≡ none
      → fuel + i < int_half
      → i ≤ j
      → j < fuel + i
      → exists fs (dir / to_string (pos j)) ≡ true
  unfolding recover_id
  all_taken zero i j e fits l h = absurd (omega arith)
  all_taken (suc fuel) i j e fits l h = elim (Bool-cases (exists fs (dir / to_string (pos i)))) [
    | inr free ↦ cc (rw free at e)
    | inl taken ↦
        let e' : recover_id fuel fs dir (pos (suc i)) ≡ none =
          (rw (taken, add_int-one i (omega arith)) at e) in
        elim (dec_lt i j) [
          | yes later ↦ all_taken fuel (suc i) j e' (omega arith) later (omega arith)
          | no now ↦
              let p : i ≡ j = omega arith in
              subst (λ k. exists fs (dir / to_string (pos k)) ≡ true) p taken
        ]
  ]

  recover_id-ends :
      suc (length (paths fs)) < int_half
      → recover_id (suc (length (paths fs))) fs dir (pos 0) ≢ none
  unfolding exists
  recover_id-ends fits e = omega (
    arith,
    pigeonhole (λ i. dir / to_string (pos i)) (suc (length (paths fs))) (paths fs)
        (λ i j h k. path_ne dir i j (omega arith) (omega arith) (omega arith))
        (λ i h.
          all_taken (suc (length (paths fs))) 0 i e (omega arith) (omega arith) (omega arith)),
  )

initialize-ends :
    (root repo : Text) (fs : FileSystem)
    → suc (length (paths fs)) < int_half
    → initialize root (members root repo) fs ≢ none
unfolding initialize
initialize-ends root repo fs fits e = elim (Bool-cases (exists fs (root ++ codes "/jobs"))) [
  | inr new ↦ cc (rw (new, initialize) at e)
  | inl old ↦
      elim (Option-cases
        (recover_id (suc (length (paths fs))) fs (members root repo).jobs_requests_dir (pos 0))) [
          | inl stuck ↦ recover_id-ends fs (members root repo).jobs_requests_dir fits stuck
          | inr (id, found) ↦ let e' = (rw (old, initialize) at e) in cc (rw found at e')
        ]
]

-- The constructor of the data base ends, where there are fewer than 2^31 - 1 files and directories,
-- whatever they are.
pub construct-ends :
    (shell : Shell) (root repo : Text) (fs : FileSystem)
    → suc (length (paths fs)) < int_half
    → construct shell root repo fs ≢ none
unfolding construct
construct-ends shell root repo fs fits e =
    elim (Option-cases (initialize root (members root repo) fs)) [
      | inl stuck ↦ initialize-ends root repo fs fits stuck
      | inr ((db, fs'), found) ↦ cc (rw (found, construct) at e)
    ]
