-- ===== src/Api/Dispatch.antt =====
-- What the routes of api/Server.h do with any request, behind the HTTP library.
use opcuatesttool.Prelude.{
  nat_eq, text_eq, ◌≡◌, ◌≢◌, subst, refl, true, Option, none, some, List, [], ◌∷◌, ◌++◌, ◌==◌,
  append-nil, All, ◌∙◌, ap, sym, arith, Bool-cases, inl, inr, ◌⊎◌,
}
use opcuatesttool.Std.Text.{Text, codes}
use opcuatesttool.Std.Decimal.{is_digit}
use opcuatesttool.Api.Routes.{
  Method, get, post, put, options, plain, then_any, then_number, all_in_line, all_digits, is_number,
  strip, span_digits, any_group, number_group, after_strip, match, Target, Route, routes, hit,
  matching, same_method,
}
use opcuatesttool.Api.Addresses.{
  Address, any_options, list_jobs, list_scripts, clone_repo, create_job, watch_events, list_targets,
  send_line, show_script, store_script, show_job, show_log, IsValid, method_of, path_of, target_of,
  matches_address,
}

strip_sound : (l p s : Text) → strip l p ≡ some s → p ≡ l ++ s
unfolding strip
strip_sound [] p s h = cc
strip_sound (c ∷ l) [] s h = cc
strip_sound (c ∷ l) (d ∷ p) s h = grind (arith, strip_sound l p s, nat_eq.beq_iff c d)

plain_sound : (l p c : Text) → match (plain l) p ≡ some c → (p ≡ l) × (c ≡ [])
unfolding match
plain_sound l p c h = ground (arith, text_eq.beq_iff p l)

any_group_sound :
    (o : Option Text) (c : Text) → any_group o ≡ some c → (o ≡ some c) × (all_in_line c ≡ true)
any_group_sound none c h = cc
any_group_sound (some s) c h = elim (Bool-cases (all_in_line s)) [
  | inl v ↦ ground (arith, v, h)
  | inr v ↦ ground (arith, v, h)
]

any_sound : (l p c : Text) → match (then_any l) p ≡ some c → (p ≡ l ++ c) × (all_in_line c ≡ true)
unfolding match
any_sound l p c h = let (e, v) = any_group_sound (strip l p) c h in (strip_sound l p c e, v)

span_sound : (s : Text) → let (ds, r) = span_digits s in (s ≡ ds ++ r) × (all_digits ds ≡ true)
unfolding span_digits all_digits
span_sound [] = (refl, refl)
span_sound (c ∷ s) = elim (Bool-cases (is_digit c)) [
  | inl e ↦ let (parts, digits) = span_sound s in rw e (ap (◌∷◌ c) parts, rw e digits)
  | inr e ↦ rw e (refl, refl)
]

some_injective : (a b : Text) → ◌≡◌ {A = Option Text} (some a) (some b) → a ≡ b
some_injective a b h = cc

none_ne : (a : Text) → ◌≢◌ {A = Option Text} none (some a)
none_ne a h = cc

group_sound :
    (m c : Text) (r : Text × Text)
    → all_digits r.0 ≡ true
    → number_group m r ≡ some c
    → (r.0 ++ r.1 ≡ c ++ m) × (is_number c ≡ true)
group_sound m c ([], r) d h = cc
group_sound m c (a ∷ ds, r) d h = elim (Bool-cases (r == m)) [
  | inl e ↦
      let same = some_injective (a ∷ ds) c (rw e at h) in
      (
        ap (λ t. (a ∷ ds) ++ t) ((text_eq.beq_iff r m).0 e) ∙ ap (λ t. t ++ m) same,
        subst (λ t. is_number t ≡ true) same d,
      )
  | inr e ↦ absurd (none_ne c (rw e at h))
]

after_strip_sound :
    (l m p c : Text) (o : Option Text)
    → strip l p ≡ o
    → after_strip m o ≡ some c
    → (p ≡ l ++ (c ++ m)) × (is_number c ≡ true)
after_strip_sound l m p c none e h = cc
after_strip_sound l m p c (some s) e h =
    let (parts, digits) = span_sound s in
    let (r, v) = group_sound m c (span_digits s) digits h in
    (strip_sound l p s e ∙ ap (λ t. l ++ t) (parts ∙ r), v)

number_sound :
    (l m p c : Text)
    → match (then_number l m) p ≡ some c
    → (p ≡ l ++ (c ++ m)) × (is_number c ≡ true)
unfolding match
number_sound l m p c h = after_strip_sound l m p c (strip l p) refl h

-- A route answers nothing but addresses.
abbrev Answers : Route → Type 0
Answers r =
    (path group : Text)
    → match r.pattern path ≡ some group
    → (a : Address) × IsValid a
      × (method_of a ≡ r.method)
      × (path_of a ≡ path)
      × (target_of a ≡ (r.target, group))

plain-Answers :
    (l : Text) (a : Address)
    → IsValid a
    → path_of a ≡ l
    → (target_of a).1 ≡ []
    → Answers (record { method = method_of a; pattern = plain l; target = (target_of a).0 })
plain-Answers l a v e g path group h =
    let (p, q) = plain_sound l path group h in
    (a, v, refl, e ∙ sym p, ap (λ t. ((target_of a).0, t)) (g ∙ sym q))

infixr 5 ◌▸◌
abbrev ◌▸◌ : {A B : Type 0} → A → B → A × B
a ▸ rest = (a, rest)

routes_answer : All Answers routes
unfolding routes
routes_answer =
    (λ p g h. let (e, v) = any_sound (codes "/") p g h in (any_options g, v, refl, sym e, refl))
    ▸ plain-Answers _ list_jobs tt refl refl
    ▸ plain-Answers _ list_scripts tt refl refl
    ▸ plain-Answers _ clone_repo tt refl refl
    ▸ (λ p g h. let (e, v) = any_sound _ p g h in (show_script g, v, refl, sym e, refl))
    ▸ (λ p g h. let (e, v) = any_sound _ p g h in (store_script g, v, refl, sym e, refl))
    ▸ plain-Answers _ create_job tt refl refl
    ▸ (λ p g h.
        let (e, v) = number_sound _ _ p g h in
        (show_job g, v, refl, ap (λ t. codes "/api/jobs/" ++ t) (sym (append-nil g)) ∙ sym e, refl))
    ▸ (λ p g h. let (e, v) = number_sound _ _ p g h in (show_log g, v, refl, sym e, refl))
    ▸ plain-Answers _ watch_events tt refl refl
    ▸ plain-Answers _ list_targets tt refl refl
    ▸ plain-Answers _ send_line tt refl refl
    ▸ tt

same_method_sound : (a b : Method) → same_method a b ≡ true → a ≡ b
same_method_sound get b h = ground arith
same_method_sound post b h = ground arith
same_method_sound put b h = ground arith
same_method_sound options b h = ground arith

-- The request is that of an address, whose target and text are `x`.
abbrev Addressed : Method → Text → Target × Text → Type 0
Addressed method path x =
    (a : Address) × IsValid a × (method_of a ≡ method) × (path_of a ≡ path) × (target_of a ≡ x)

cons_head : (x y : Target × Text) (xs ys : List (Target × Text)) → x ∷ xs ≡ y ∷ ys → x ≡ y
cons_head x y xs ys h = cc

module _ (method : Method) (path : Text) where
  first_hit :
      (r : Route) (o : Option Text) (rest : List (Target × Text)) (x : Target × Text)
      (xs : List (Target × Text))
      → Answers r
      → r.method ≡ method
      → match r.pattern path ≡ o
      → hit r.target o rest ≡ x ∷ xs
      → Addressed method path x ⊎ (rest ≡ x ∷ xs)
  first_hit r none rest x xs answers m e h = inr h
  first_hit r (some group) rest x xs answers m e h =
      let (a, v, same, p, t) = answers path group e in
      inl (a, v, same ∙ m, p, t ∙ cons_head _ _ _ _ h)

  matching_sound :
      (rs : List Route) (x : Target × Text) (xs : List (Target × Text))
      → All Answers rs
      → matching method path rs ≡ x ∷ xs
      → Addressed method path x
  unfolding matching
  matching_sound [] x xs answers h = cc
  matching_sound (r ∷ rs) x xs (answer, answers) h =
      elim (Bool-cases (same_method r.method method)) [
        | inr other ↦ matching_sound rs x xs answers (rw (other, matching) at h)
        | inl same ↦
            elim (first_hit r (match r.pattern path) (matching method path rs) x xs answer
              (same_method_sound r.method method same) refl (rw (same, matching) at h)) [
                | inl found ↦ found
                | inr later ↦ matching_sound rs x xs answers later
              ]
      ]

  -- A request with any method and path matches no route, or it is the request of an address and
  -- matches just the route of that address. So no two routes compete, and their order does not
  -- matter.
  pub matching_cases :
      (matching method path routes ≡ [])
      ⊎ ((a : Address) × IsValid a
          × (method_of a ≡ method)
          × (path_of a ≡ path)
          × (matching method path routes ≡ target_of a ∷ []))
  matching_cases = cases (matching method path routes) refl
    where
      cases :
          (found : List (Target × Text))
          → matching method path routes ≡ found
          → (matching method path routes ≡ [])
            ⊎ ((a : Address) × IsValid a
                × (method_of a ≡ method)
                × (path_of a ≡ path)
                × (matching method path routes ≡ target_of a ∷ []))
      cases [] e = inl e
      cases (x ∷ xs) e =
          let (a, v, m, p, t) = matching_sound routes x xs routes_answer e in
          inr (
            a,
            v,
            m,
            p,
            subst (λ b. matching b path routes ≡ target_of a ∷ []) m
                (subst (λ q. matching (method_of a) q routes ≡ target_of a ∷ []) p
                  (matches_address a v)),
          )
