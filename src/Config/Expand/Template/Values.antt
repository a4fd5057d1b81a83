-- ===== src/Config/Expand/Template/Values.antt =====
-- The expansion of a text is the values of its parts.
use technician.Common.{
  ℕ, ◌-◌, ◌≡◌, refl, sym, ap, subst, ◌∙◌, Bool, true, false, ◌&&◌, Option, none, some, List, [],
  ◌∷◌, ◌++◌, append_assoc, arith, if◌then◌else◌, length, take, drop, every, length-append,
  take-append, nat_eq, Str, str_eq,
}
use technician.Common.Text.{codes, contains, has_prefix}
use technician.Config.Expand.{
  is_letter, is_word, Match, env_var_pattern, replacement, expand_from, expand_env_vars,
}
use technician.Config.Expand.Template.{
  literal, variable, text_of, texts_of, value_of, values_of, lacks, is_name, lacks_brace, is_sound,
  given, env_var_pattern-variable, Part,
}

-- Skipping a text of the length that is to be skipped.
expand_from-skip :
    (env : Str → Option Str) (u s : Str) → expand_from env (length u) (u ++ s) ≡ expand_from env 0 s
unfolding expand_from
expand_from-skip env [] s = refl
expand_from-skip env (c ∷ u) s = expand_from-skip env u s

lacks-contains : (s : Str) → lacks b':' s ≡ true → contains s (codes ":-") ≡ false
unfolding contains has_prefix
lacks-contains [] h = refl
lacks-contains (c ∷ s) h = ground (arith, lacks-contains s)

append-contains : (u s : Str) → contains (u ++ codes ":-" ++ s) (codes ":-") ≡ true
unfolding contains has_prefix
append-contains [] s = refl
append-contains (c ∷ u) s = ground (arith, append-contains u s)

lacks-word : (s : Str) → every is_word s ≡ true → lacks b':' (s ++ b'}' ∷ []) ≡ true
unfolding is_word is_letter
lacks-word [] h = refl
lacks-word (c ∷ s) h = ground (arith, lacks-word s)

is_name-word : (name : Str) → is_name name ≡ true → every is_word name ≡ true
unfolding is_word
is_name-word [] h = refl
is_name-word (c ∷ s) h = ground (arith, h)

-- Whether the text of a variable has the mark of a default.
contains-default :
    (name : Str) (o : Option Str)
    → is_name name ≡ true
    → contains (text_of (variable name o)) (codes ":-") ≡ elim o [ none ↦ false | some d ↦ true ]
contains-default name none h =
    lacks-contains (text_of (variable name none)) (lacks-word name (is_name-word name h))
contains-default name (some d) h =
    ap (λ t. contains t (codes ":-"))
      (sym (append_assoc (codes "${" ++ name) (codes ":-") (d ++ b'}' ∷ [])))
    ∙ append-contains (codes "${" ++ name) (d ++ b'}' ∷ [])

replacement-of :
    (env : Str → Option Str) (matched : Str) (m : Match) (b : Bool)
    → contains matched (codes ":-") ≡ b
    → replacement env matched m
      ≡ elim (env m.name) [ some v ↦ v | none ↦ if b then m.default else matched ]
unfolding replacement
replacement-of env matched m b e =
    ap (λ b'. elim (env m.name) [ some v ↦ v | none ↦ if b' then m.default else matched ]) e

replacement-value :
    (env : Str → Option Str) (name : Str) (o : Option Str) (r : Str)
    → is_name name ≡ true
    → replacement env
        (text_of (variable name o))
        (record { name = name; default = given o; rest = r })
      ≡ value_of env (variable name o)
replacement-value env name none r h =
    replacement-of env (text_of (variable name none)) _ false (contains-default name none h)
replacement-value env name (some d) r h =
    replacement-of env (text_of (variable name (some d))) _ true (contains-default name (some d) h)

-- A match, and what comes after it, where the size is that of the match.
sized-match :
    (env : Str → Option Str) (u r : Str) (c : ℕ) (m : Match) (size : ℕ)
    → size ≡ length (c ∷ u)
    → replacement env (take size (c ∷ (u ++ r))) m ++ expand_from env (size - 1) (u ++ r)
      ≡ replacement env (c ∷ u) m ++ expand_from env 0 r
sized-match env u r c m size e =
    ap (λ n. replacement env (take n (c ∷ (u ++ r))) m ++ expand_from env (size - 1) (u ++ r)) e
    ∙ ap (λ t. replacement env (c ∷ t) m ++ expand_from env (size - 1) (u ++ r)) (take-append u r)
    ∙ ap (λ n. replacement env (c ∷ u) m ++ expand_from env n (u ++ r)) (omega (arith, e))
    ∙ ap (◌++◌ (replacement env (c ∷ u) m)) (expand_from-skip env u r)

expand_from-match :
    (env : Str → Option Str) (u r : Str) (c : ℕ) (m : Match)
    → env_var_pattern (c ∷ (u ++ r)) ≡ some m
    → m.rest ≡ r
    → expand_from env 0 (c ∷ (u ++ r)) ≡ replacement env (c ∷ u) m ++ expand_from env 0 r
unfolding expand_from
expand_from-match env u r c m e f =
    subst
      (λ o.
        elim o [
          | none ↦ c ∷ expand_from env 0 (u ++ r)
          | some m' ↦
              let size = length (c ∷ (u ++ r)) - length m'.rest in
              replacement env (take size (c ∷ (u ++ r))) m' ++ expand_from env (size - 1) (u ++ r)
        ]
        ≡ replacement env (c ∷ u) m ++ expand_from env 0 r)
      (sym e) (sized-match env u r c m _ (omega (arith, length-append u r, ap length f)))

expand-variable :
    (env : Str → Option Str) (name : Str) (o : Option Str) (r : Str)
    → is_name name ≡ true
    → lacks_brace o ≡ true
    → expand_from env 0 (text_of (variable name o) ++ r)
      ≡ value_of env (variable name o) ++ expand_from env 0 r
expand-variable env name o r h k =
    expand_from-match env (drop 1 (text_of (variable name o))) r b'$' _
      (env_var_pattern-variable name o r h k) refl
    ∙ ap (λ t. t ++ expand_from env 0 r) (replacement-value env name o r h)

expand-literal :
    (env : Str → Option Str) (s r : Str)
    → lacks b'$' s ≡ true
    → expand_from env 0 (s ++ r) ≡ s ++ expand_from env 0 r
unfolding expand_from env_var_pattern has_prefix
expand-literal env [] r h = refl
expand-literal env (c ∷ s) r h = ground (arith, expand-literal env s r)

every-head : (p : Part) (ps : List Part) → every is_sound (p ∷ ps) ≡ true → is_sound p ≡ true
every-head p ps h = ground (arith, h)

every-tail : (p : Part) (ps : List Part) → every is_sound (p ∷ ps) ≡ true → every is_sound ps ≡ true
every-tail p ps h = ground (arith, h)

-- The expansion of a text that is made of sound parts is their values one after the other: a variable
-- that is set has its value even if that is empty or looks like a variable, one that is not set has
-- its default, and one without a default stands as it is.
pub expand_env_vars-values :
    (env : Str → Option Str) (ps : List Part)
    → every is_sound ps ≡ true
    → expand_env_vars env (texts_of ps) ≡ values_of env ps
unfolding expand_env_vars
expand_env_vars-values env [] h = refl
expand_env_vars-values env (literal s ∷ ps) h =
    expand-literal env s (texts_of ps) (every-head (literal s) ps h)
    ∙ ap (◌++◌ s) (expand_env_vars-values env ps (every-tail (literal s) ps h))
expand_env_vars-values env (variable name o ∷ ps) h =
    let sound : is_name name && lacks_brace o ≡ true = every-head (variable name o) ps h in
    expand-variable env name o (texts_of ps) (ground (arith, sound)) (ground (arith, sound))
    ∙ ap (◌++◌ (value_of env (variable name o)))
        (expand_env_vars-values env ps (every-tail (variable name o) ps h))
