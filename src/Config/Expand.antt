-- ===== src/Config/Expand.antt =====
-- internal/config/config.go: `expandEnvVars`, with `envVarPattern` as a function on texts. The name of
-- the pattern cannot go on over the characters that may follow it, so that it has one match at most
-- at a place.
pub mod Template
use technician.Common.{
  ℕ, zero, suc, ◌-◌, Bool, ◌&&◌, ◌||◌, Option, none, some, [], ◌∷◌, ◌++◌, leb, nat_beq,
  if◌then◌else◌, length, take, drop, nat_eq, Str, str_eq,
}
use technician.Common.Text.{codes, contains, has_prefix}

-- `[A-Za-z_]` and `[A-Za-z0-9_]`
unfoldable pub is_letter : ℕ → Bool
is_letter c = (leb b'A' c && leb c b'Z') || (leb b'a' c && leb c b'z') || nat_beq c b'_'

unfoldable pub is_word : ℕ → Bool
unfolding is_letter
is_word c = is_letter c || (leb b'0' c && leb c b'9')

-- `[A-Za-z0-9_]*`, with what comes after it
unfoldable pub word_span : Str → Str × Str
word_span [] = ([], [])
word_span (c ∷ s) =
    let (word, rest) = word_span s in if is_word c then (c ∷ word, rest) else ([], c ∷ s)

-- `[^}]*` and a brace, with what comes after it
unfoldable pub up_to_brace : Str → Option (Str × Str)
up_to_brace [] = none
up_to_brace (c ∷ s) =
    let more = up_to_brace s in
    if nat_beq c b'}'
    then some ([], s)
    else elim more [ none ↦ none | some (text, rest) ↦ some (c ∷ text, rest) ]

-- The groups of a match, where that of a default that is not given is empty, and what comes after it.
pub record Match : Type 0 where
  pub name : Str
  pub default : Str
  pub rest : Str

-- the match after the name
unfoldable pub match_end : Str → Str → Option Match
unfolding up_to_brace
match_end name [] = none
match_end name (c ∷ s) =
    if nat_beq c b'}'
    then some (record { name = name; default = []; rest = s })
    else if has_prefix (c ∷ s) (codes ":-")
    then elim (up_to_brace (drop 2 (c ∷ s))) [
      | none ↦ none
      | some (text, rest) ↦ some (record { name = name; default = text; rest = rest })
    ]
    else none

-- the match after `${`
unfoldable pub match_name : Str → Option Match
unfolding word_span match_end
match_name [] = none
match_name (c ∷ s) = if is_letter c then match_end (c ∷ (word_span s).0) (word_span s).1 else none

-- `envVarPattern` at the start of a text
unfoldable pub env_var_pattern : Str → Option Match
unfolding match_name
env_var_pattern s = if has_prefix s (codes "${") then match_name (drop 2 s) else none

module _ (lookup_env : Str → Option Str) where
  -- the replacement of a match: `os.LookupEnv`, or the default, or the match itself
  unfoldable pub replacement : Str → Match → Str
  replacement matched m = elim (lookup_env m.name) [
    | some val ↦ val
    | none ↦ if contains matched (codes ":-") then m.default else matched
  ]

  -- `ReplaceAllStringFunc` from a place on, where so many bytes of it belong to the last match
  unfoldable pub expand_from : ℕ → Str → Str
  unfolding env_var_pattern replacement
  expand_from skip [] = []
  expand_from (suc skip) (c ∷ s) = expand_from skip s
  expand_from zero (c ∷ s) = elim (env_var_pattern (c ∷ s)) [
    | none ↦ c ∷ expand_from zero s
    | some m ↦
        let size = length (c ∷ s) - length m.rest in
        replacement (take size (c ∷ s)) m ++ expand_from (size - 1) s
  ]

  -- `expandEnvVars`
  unfoldable pub expand_env_vars : Str → Str
  unfolding expand_from
  expand_env_vars s = expand_from 0 s
