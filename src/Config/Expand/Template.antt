-- ===== src/Config/Expand/Template.antt =====
-- The expansion of a text made of plain text and variables is that of its parts.
pub mod Values
use technician.Common.{
  ℕ, ◌≡◌, refl, ap, ◌∙◌, Bool, true, false, not, ◌&&◌, Option, none, some, List, [], ◌∷◌, ◌++◌,
  append_assoc, arith, nat_beq, every, nat_eq, Str, str_eq,
}
use technician.Common.Text.{codes, has_prefix}
use technician.Config.Expand.{
  is_letter, is_word, word_span, up_to_brace, match_end, match_name, env_var_pattern,
}

-- A part of a text: plain text, or a variable with a default or without one.
pub data Part : Type 0 where
  literal : Str → Part
  variable : Str → Option Str → Part

-- What stands behind the name, with the closing brace.
abbrev default_text : Option Str → Str
default_text none = b'}' ∷ []
default_text (some d) = codes ":-" ++ d ++ b'}' ∷ []

abbrev pub text_of : Part → Str
text_of (literal s) = s
text_of (variable name o) = codes "${" ++ name ++ default_text o

abbrev pub texts_of : List Part → Str
texts_of [] = []
texts_of (p ∷ ps) = text_of p ++ texts_of ps

-- The value of a variable, or its default, or the text as it stands.
abbrev pub value_of : (Str → Option Str) → Part → Str
value_of env (literal s) = s
value_of env (variable name o) = elim (env name) [
  | some v ↦ v
  | none ↦ elim o [ none ↦ text_of (variable name none) | some d ↦ d ]
]

abbrev pub values_of : (Str → Option Str) → List Part → Str
values_of env [] = []
values_of env (p ∷ ps) = value_of env p ++ values_of env ps

abbrev lacks : ℕ → Str → Bool
lacks c s = every (λ x. not (nat_beq x c)) s

abbrev is_name : Str → Bool
is_name [] = false
is_name (c ∷ s) = is_letter c && every is_word s

abbrev lacks_brace : Option Str → Bool
lacks_brace none = true
lacks_brace (some d) = lacks b'}' d

-- Plain text has no dollar sign, a name is one of the pattern's, and a default has no closing brace.
abbrev pub is_sound : Part → Bool
is_sound (literal s) = lacks b'$' s
is_sound (variable name o) = is_name name && lacks_brace o

word_span-append :
    (w r : Str) (c : ℕ)
    → every is_word w ≡ true
    → is_word c ≡ false
    → word_span (w ++ c ∷ r) ≡ (w, c ∷ r)
unfolding word_span
word_span-append [] r c h n = rw n refl
word_span-append (x ∷ w) r c h n = ground (arith, word_span-append w r c)

up_to_brace-append : (d r : Str) → lacks b'}' d ≡ true → up_to_brace (d ++ b'}' ∷ r) ≡ some (d, r)
unfolding up_to_brace
up_to_brace-append [] r h = refl
up_to_brace-append (x ∷ d) r h = ground (arith, up_to_brace-append d r)

-- The text of a default, where there is none.
abbrev given : Option Str → Str
given none = []
given (some d) = d

match_end-default :
    (name : Str) (o : Option Str) (r : Str)
    → lacks_brace o ≡ true
    → match_end name (default_text o ++ r)
      ≡ some (record { name = name; default = given o; rest = r })
unfolding match_end has_prefix
match_end-default name none r h = refl
match_end-default name (some d) r h =
    rw (append_assoc d (b'}' ∷ []) r, up_to_brace-append d r h) refl

span-default :
    (w : Str) (o : Option Str) (r : Str)
    → every is_word w ≡ true
    → word_span (w ++ (default_text o ++ r)) ≡ (w, default_text o ++ r)
unfolding is_word is_letter
span-default w none r h = word_span-append w r b'}' h refl
span-default w (some d) r h = word_span-append w (b'-' ∷ ((d ++ b'}' ∷ []) ++ r)) b':' h refl

match_name-variable :
    (name : Str) (o : Option Str) (r : Str)
    → is_name name ≡ true
    → lacks_brace o ≡ true
    → match_name (name ++ (default_text o ++ r))
      ≡ some (record { name = name; default = given o; rest = r })
unfolding match_name
match_name-variable [] o r h k = absurd (ground (arith, h))
match_name-variable (c ∷ s) o r h k =
    ground (arith, span-default s o r, match_end-default (c ∷ s) o r k)

env_var_pattern-variable :
    (name : Str) (o : Option Str) (r : Str)
    → is_name name ≡ true
    → lacks_brace o ≡ true
    → env_var_pattern (text_of (variable name o) ++ r)
      ≡ some (record { name = name; default = given o; rest = r })
unfolding env_var_pattern has_prefix
env_var_pattern-variable name o r h k =
    ap match_name (append_assoc name (default_text o) r) ∙ match_name-variable name o r h k
