-- ===== src/Config/Validate.antt =====
-- internal/config/checks.go: the validation of TLS versions and assertions, and its errors.
use technician.Common.{
  ℕ, suc, ◌<◌, ◌≡◌, refl, inl, inr, Bool, true, false, not, ◌&&◌, ◌||◌, Option, none, some, List,
  [], ◌∷◌, arith, ltb, leb, nat_beq, if◌then◌else◌, Option-cases, any, every, ◌==◌, nat_eq, Str,
  str_eq,
}
use technician.Common.Text.{codes, has_prefix}
use technician.Config.Kind.{CheckType}
use technician.Config.Types.{Assertion}

-- Why a configuration is refused; the texts of the errors are not modelled.
pub data ConfigError : Type 0 where
  type_required : ConfigError
  unknown_type : CheckType → ConfigError
  invalid_min_tls invalid_max_tls tls_order : ConfigError
  auth_exclusive invalid_proxy : ConfigError
  invalid_assertion assertion_target assertion_header assertion_regex : ℕ → ConfigError
  invalid_prefix origin_required : ConfigError
  smtp_pair smtp_start_tls : ConfigError
  websocket_url : ConfigError

-- What a function that may return an error returns.
pub data Checked (A : Type 0) : Type 0 where
  refused : ConfigError → Checked A
  accepted : A → Checked A

-- `err == nil`
abbrev pub passes : Option ConfigError → Bool
passes none = true
passes (some e) = false

-- `TLSVersion`: the constant of `crypto/tls`
unfoldable pub tls_version : Str → Option ℕ
tls_version s =
    if s == codes "1.0"
    then some 769
    else if s == codes "1.1"
    then some 770
    else if s == codes "1.2"
    then some 771
    else if s == codes "1.3"
    then some 772
    else none

abbrev check_order : ℕ → ℕ → Option ConfigError
check_order min max =
    if not (nat_beq min 0) && not (nat_beq max 0) && ltb max min then some tls_order else none

-- the half of `validateTLSVersions` after `min_tls`
check_max : ℕ → Str → Option ConfigError
unfolding tls_version
check_max min max_tls =
    if max_tls == []
    then check_order min 0
    else elim (tls_version max_tls) [ none ↦ some invalid_max_tls | some max ↦ check_order min max ]

-- `validateTLSVersions`, with `none` for a nil error
unfoldable pub validate_tls_versions : Str → Str → Option ConfigError
unfolding tls_version check_max
validate_tls_versions min_tls max_tls =
    if min_tls == [] then check_max 0 max_tls else elim (tls_version min_tls) [
      | none ↦ some invalid_min_tls
      | some min ↦ check_max min max_tls
    ]

abbrev pub valid_assertion_types : List Str
valid_assertion_types =
    codes "contains"
    ∷ codes "not_contains"
    ∷ codes "regex"
    ∷ codes "header_contains"
    ∷ codes "header_not_contains"
    ∷ codes "header_regex"
    ∷ []

abbrev is_regex : Str → Bool
is_regex t = t == codes "regex" || t == codes "header_regex"

-- A chain of four early returns passes when none of them is taken.
four_guards :
    (a b c d : Bool) (e f g h : ConfigError)
    → passes (
        if not a
        then some e
        else if b
        then some f
        else if c
        then some g
        else if d
        then some h
        else none)
      ≡ (a && not b && not c && not d)
four_guards false b c d e f g h = refl
four_guards true true c d e f g h = refl
four_guards true false true d e f g h = refl
four_guards true false false d e f g h = ground arith

-- `compiles` is whether `regexp.Compile` accepts a pattern.
module _ (compiles : Str → Bool) where
  -- one round of the loop
  unfoldable pub validate_assertion : ℕ → Assertion → Option ConfigError
  validate_assertion j a =
      if not (any (λ t. t == a.typ) valid_assertion_types)
      then some (invalid_assertion j)
      else if a.target == []
      then some (assertion_target j)
      else if has_prefix a.typ (codes "header_") && a.header == []
      then some (assertion_header j)
      else if is_regex a.typ && not (compiles a.target)
      then some (assertion_regex j)
      else none

  -- `validateAssertions`, from assertion `j` on
  unfoldable pub validate_assertions : ℕ → List Assertion → Option ConfigError
  unfolding validate_assertion
  validate_assertions j [] = none
  validate_assertions j (a ∷ rest) = elim (validate_assertion j a) [
    | some e ↦ some e
    | none ↦ validate_assertions (suc j) rest
  ]

  -- An assertion that can be tested: of a known type, with a target, with a header if it is about
  -- one, and with a pattern that compiles if it has one.
  abbrev pub testable : Assertion → Bool
  testable a =
      any (λ t. t == a.typ) valid_assertion_types
      && not (a.target == [])
      && not (has_prefix a.typ (codes "header_") && a.header == [])
      && not (is_regex a.typ && not (compiles a.target))

  validate_assertion-testable :
      (j : ℕ) (a : Assertion) → passes (validate_assertion j a) ≡ testable a
  unfolding validate_assertion
  validate_assertion-testable j a =
      four_guards (any (λ t. t == a.typ) valid_assertion_types) (a.target == [])
        (has_prefix a.typ (codes "header_") && a.header == [])
        (is_regex a.typ && not (compiles a.target)) _ _ _ _

  -- The assertions pass, from any index, exactly when each of them can be tested.
  pub validate_assertions-testable :
      (j : ℕ) (rest : List Assertion) → passes (validate_assertions j rest) ≡ every testable rest
  unfolding validate_assertions
  validate_assertions-testable j [] = refl
  validate_assertions-testable j (a ∷ rest) =
      rw (← validate_assertion-testable j a, ← validate_assertions-testable (suc j) rest)
        (elim (Option-cases (validate_assertion j a)) [
          | inl e ↦ rw e refl
          | inr (x, e) ↦ rw e refl
        ])

-- The version that a bound stands for, 0 for none.
abbrev pub version_of : Str → Option ℕ
version_of s = if s == [] then some 0 else tls_version s

tls_version-positive : (s : Str) (v : ℕ) → tls_version s ≡ some v → 0 < v
unfolding tls_version
tls_version-positive s v h = ground arith

-- Both bounds are known, and the lower one is not above the upper one if there are both.
abbrev pub ordered_bounds : Option ℕ → Option ℕ → Bool
ordered_bounds none high = false
ordered_bounds (some low) none = false
ordered_bounds (some low) (some high) = nat_beq high 0 || leb low high

check_max-passes :
    (low : ℕ) (max_tls : Str)
    → passes (check_max low max_tls) ≡ ordered_bounds (some low) (version_of max_tls)
unfolding check_max
check_max-passes low max_tls = ground (arith, tls_version-positive max_tls)

-- The versions pass exactly when each is empty or known, and the lower one is not above the upper
-- one if both are given.
pub validate_tls_versions-ordered :
    (min_tls max_tls : Str)
    → passes (validate_tls_versions min_tls max_tls)
      ≡ ordered_bounds (version_of min_tls) (version_of max_tls)
unfolding validate_tls_versions
validate_tls_versions-ordered min_tls max_tls = ground (arith, check_max-passes 0 max_tls)
