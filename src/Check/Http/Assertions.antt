-- ===== src/Check/Http/Assertions.antt =====
-- What the assertions of an HTTP check say, and what the loop over them does.
use technician.Common.{
  ◌≡◌, refl, sym, ◌∙◌, ◌⊎◌, inl, inr, Bool, true, false, not, ◌&&◌, ◌||◌, List, [], ◌∷◌, ◌++◌,
  append_assoc, append-nil, arith, if◌then◌else◌, Bool-cases, if-elim, any, every, ◌==◌, nat_eq,
  Str, str_beq_iff, str_eq, every_weaken, both,
}
use technician.Common.Int.{int_eq}
use technician.Common.Text.{codes, has_prefix, contains}
use technician.Config.Types.{Assertion}
use technician.Config.Validate.{testable, valid_assertion_types}
use technician.Check.{Result, AssertionResult}
use technician.Check.Http.{
  Compiled, invalid, matcher, evaluate_header_assertion, evaluate_assertion, evaluate_assertion_at,
  record_assertion, evaluate_assertions, match_regex,
}

-- Whether `regexp.Compile` accepts a pattern, and whether a compiled one pattern_matches a text.
abbrev pub is_valid : Compiled → Bool
is_valid (invalid e) = false
is_valid (matcher m) = true

abbrev pub pattern_matches : Compiled → Str → Bool
pattern_matches (invalid e) text = false
pattern_matches (matcher m) text = m text

-- What an assertion says of the response: the header or else the body contains the target, or does
-- not, or pattern_matches it.
abbrev pub says : (Str → Compiled) → Assertion → (Str → Str) → Str → Bool
says compile a header body =
    let subject = if has_prefix a.typ (codes "header_") then header a.header else body in
    if a.typ == codes "regex" || a.typ == codes "header_regex"
    then pattern_matches (compile a.target) subject
    else if a.typ == codes "not_contains" || a.typ == codes "header_not_contains"
    then not (contains subject a.target)
    else contains subject a.target

first_or {ℓ} :
    {P : Type ℓ} (t s : Str) (rest : Bool)
    → (if t == s then true else rest) ≡ true
    → (rest ≡ true → P)
    → (s ≡ t) ⊎ P
first_or t s rest h next = elim (Bool-cases (t == s)) [
  | inl e ↦ inl (sym ((str_beq_iff t s).0 e))
  | inr e ↦ inr (next (ground arith))
]

last_one :
    (s : Str)
    → (if codes "header_regex" == s then true else false) ≡ true
    → s ≡ codes "header_regex"
last_one s h = ground (arith, str_beq_iff (codes "header_regex") s)

six_types :
    (s : Str)
    → any (λ t. t == s) valid_assertion_types ≡ true
    → (s ≡ codes "contains")
      ⊎ ((s ≡ codes "not_contains")
          ⊎ ((s ≡ codes "regex")
              ⊎ ((s ≡ codes "header_contains")
                  ⊎ ((s ≡ codes "header_not_contains") ⊎ (s ≡ codes "header_regex")))))
six_types s h = first_or (codes "contains") s _ h (λ h1.
    first_or (codes "not_contains") s _ h1 (λ h2. first_or (codes "regex") s _ h2 (λ h3.
      first_or (codes "header_contains") s _ h3
        (λ h4. first_or (codes "header_not_contains") s _ h4 (λ h5. last_one s h5)))))

passed_if :
    (b : Bool) (x y : AssertionResult)
    → x.passed ≡ true
    → y.passed ≡ false
    → (if b then x else y).passed ≡ b
passed_if true x y t f = t
passed_if false x y t f = f

passed_unless :
    (b : Bool) (x y : AssertionResult)
    → x.passed ≡ false
    → y.passed ≡ true
    → (if b then x else y).passed ≡ not b
passed_unless true x y t f = t
passed_unless false x y t f = f

module _ (quote : Str → Str) (compile : Str → Compiled) where
  match_regex-passed :
      (a : Assertion) (c : Compiled) (text : Str) (message : List Str)
      → (match_regex quote compile a c text message).passed ≡ pattern_matches c text
  unfolding match_regex
  match_regex-passed a (invalid e) text message = refl
  match_regex-passed a (matcher m) text message = passed_if (m text) _ _ refl refl

  -- An assertion of a known type passes exactly when what it says holds.
  evaluate_assertion_at-says :
      (a : Assertion) (header : Str → Str) (body : Str)
      → any (λ t. t == a.typ) valid_assertion_types ≡ true
      → (evaluate_assertion_at quote compile a header body).passed ≡ says compile a header body
  unfolding evaluate_assertion_at evaluate_header_assertion evaluate_assertion has_prefix
  evaluate_assertion_at-says a header body h = elim (six_types a.typ h) [
    | inl e ↦ rw e (passed_if (contains body a.target) _ _ refl refl)
    | inr (inl e) ↦ rw e (passed_unless (contains body a.target) _ _ refl refl)
    | inr (inr (inl e)) ↦
        rw e (match_regex-passed (record a { typ = codes "regex" }) (compile a.target) body _)
    | inr (inr (inr (inl e))) ↦ rw e (passed_if (contains (header a.header) a.target) _ _ refl refl)
    | inr (inr (inr (inr (inl e)))) ↦
        rw e (passed_unless (contains (header a.header) a.target) _ _ refl refl)
    | inr (inr (inr (inr (inr e)))) ↦ rw e (
        match_regex-passed (record a { typ = codes "header_regex" }) (compile a.target)
          (header a.header) _)
  ]

  -- The results of all the assertions.
  abbrev pub outcomes : List Assertion → (Str → Str) → Str → List AssertionResult
  unfolding evaluate_assertion_at
  outcomes [] header body = []
  outcomes (a ∷ rest) header body =
      evaluate_assertion_at quote compile a header body ∷ outcomes rest header body

  -- The message of the first failure, if there is one.
  abbrev pub first_failure : List AssertionResult → Str
  first_failure [] = []
  first_failure (ar ∷ ars) =
      if ar.passed then first_failure ars else codes "assertion failed: " ++ ar.message

unfoldable pub every_passed : List AssertionResult → Bool
every_passed ars = every (λ (ar : AssertionResult). ar.passed) ars

module _ {F : Type 0} where
  record_assertion-assertions :
      (ar : AssertionResult) (r : Result F)
      → (record_assertion ar r).assertions ≡ r.assertions ++ ar ∷ []
  unfolding record_assertion
  record_assertion-assertions ar r =
      if-elim (λ (s : Result F). s.assertions ≡ r.assertions ++ ar ∷ [])
        (not ar.passed && r.success) (λ t. refl) (λ t. refl)

  record_assertion-success :
      (ar : AssertionResult) (r : Result F)
      → (record_assertion ar r).success ≡ (r.success && ar.passed)
  unfolding record_assertion
  record_assertion-success ar r =
      if-elim (λ (s : Result F). s.success ≡ (r.success && ar.passed)) (not ar.passed && r.success)
        (λ t. ground arith) (λ t. ground arith)

  record_assertion-error :
      (ar : AssertionResult) (r : Result F)
      → (record_assertion ar r).error
        ≡ (if not ar.passed && r.success then codes "assertion failed: " ++ ar.message else r.error)
  unfolding record_assertion
  record_assertion-error ar r =
      if-elim
        (λ (s : Result F). s.error ≡ (
          if not ar.passed && r.success then codes "assertion failed: " ++ ar.message else r.error))
        (not ar.passed && r.success) (λ t. rw t refl) (λ t. rw t refl)

and_step : (a b c : Bool) → ((a && b) && c) ≡ (a && (if b then c else false))
and_step a b c = ground arith

error_step :
    (ok p rest : Bool) (first last e : Str)
    → (if (ok && p) && not rest then last else if not p && ok then first else e)
      ≡ (if ok && not (if p then rest else false) then if p then last else first else e)
error_step ok p rest first last e = ground arith

module _ {F : Type 0} (quote : Str → Str) (compile : Str → Compiled) where
  pub evaluate_assertions-assertions :
      (rest : List Assertion) (header : Str → Str) (body : Str) (r : Result F)
      → (evaluate_assertions quote compile rest header body r).assertions
        ≡ r.assertions ++ outcomes quote compile rest header body
  unfolding evaluate_assertions outcomes
  evaluate_assertions-assertions [] header body r = sym (append-nil r.assertions)
  evaluate_assertions-assertions (a ∷ rest) header body r =
      let ar = evaluate_assertion_at quote compile a header body in
      evaluate_assertions-assertions rest header body (record_assertion ar r)
      ∙ rw (record_assertion-assertions ar r)
          (append_assoc r.assertions (ar ∷ []) (outcomes quote compile rest header body))

  pub evaluate_assertions-success :
      (rest : List Assertion) (header : Str → Str) (body : Str) (r : Result F)
      → (evaluate_assertions quote compile rest header body r).success
        ≡ (r.success && every_passed (outcomes quote compile rest header body))
  unfolding evaluate_assertions outcomes every_passed
  evaluate_assertions-success [] header body r = ground arith
  evaluate_assertions-success (a ∷ rest) header body r =
      let ar = evaluate_assertion_at quote compile a header body in
      evaluate_assertions-success rest header body (record_assertion ar r)
      ∙ rw (record_assertion-success ar r) (and_step r.success ar.passed _)

  pub evaluate_assertions-error :
      (rest : List Assertion) (header : Str → Str) (body : Str) (r : Result F)
      → (evaluate_assertions quote compile rest header body r).error ≡ (
          if r.success && not (every_passed (outcomes quote compile rest header body))
          then first_failure quote compile (outcomes quote compile rest header body)
          else r.error)
  unfolding evaluate_assertions outcomes every_passed
  evaluate_assertions-error [] header body r = ground arith
  evaluate_assertions-error (a ∷ rest) header body r =
      let ar = evaluate_assertion_at quote compile a header body in
      evaluate_assertions-error rest header body (record_assertion ar r)
      ∙ rw (record_assertion-success ar r, record_assertion-error ar r)
          (error_step r.success ar.passed _ _ _ r.error)

pub known_type : Assertion → Bool
known_type a = any (λ t. t == a.typ) valid_assertion_types

pub testable-known_type :
    (compiles : Str → Bool) (rest : List Assertion)
    → every (testable compiles) rest ≡ true
    → every known_type rest ≡ true
unfolding known_type
testable-known_type compiles rest =
    every_weaken (testable compiles) known_type rest
      (λ a h. (both _ _ (both _ _ (both _ _ h).0).0).0)

pub outcomes-says :
    (quote : Str → Str) (compile : Str → Compiled) (rest : List Assertion) (header : Str → Str)
    (body : Str)
    → every known_type rest ≡ true
    → every_passed (outcomes quote compile rest header body)
      ≡ every (λ a. says compile a header body) rest
unfolding known_type every_passed outcomes
outcomes-says quote compile [] header body h = refl
outcomes-says quote compile (a ∷ rest) header body h = elim (Bool-cases (known_type a)) [
  | inl t ↦
      rw
        (
          evaluate_assertion_at-says quote compile a header body t,
          outcomes-says quote compile rest header body (ground arith),
        )
        refl
  | inr f ↦ absurd (ground arith)
]
