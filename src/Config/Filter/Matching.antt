-- ===== src/Config/Filter/Matching.antt =====
-- What a filter keeps, and that no type of a validated filter is dead.
use technician.Common.{
  ◌≡◌, refl, sym, ap, ◌∙◌, ◌⊎◌, inl, inr, Bool, true, false, not, ◌&&◌, Option, none, some, List,
  [], ◌∷◌, arith, if◌then◌else◌, Bool-cases, if-elim, select, any, every, ◌==◌, nat_eq, Str, str_eq,
  ==-sym,
}
use technician.Common.Text.{trim_space, to_lower, equal_fold}
use technician.Config.Kind.{CheckType, all_types, text, IsKnown, other}
use technician.Config.Types.{CheckConfig}
use technician.Config.Filter.{
  CheckFilter, Flags, is_nil, is_empty, is_valid_type, validate, contains_fold, intersects_fold,
  matches, filter_loop, filter_checks, effective_filter, load_filtered,
}

-- A dimension lets a value through if it is empty or has the value.
abbrev pub allows : List Str → Bool → Bool
allows [] found = true
allows (x ∷ xs) found = found

-- The values of a dimension that equal a text once trimmed and folded.
abbrev pub listed : List Str → Str → Bool
listed values want = any (λ s. equal_fold (trim_space s) want) values

-- What a check must be for a filter to keep it.
abbrev pub wanted : CheckFilter → CheckConfig → Bool
wanted f c =
    allows f.types (listed f.types (text c.typ))
    && allows f.groups (listed f.groups c.group)
    && allows f.tags (any (λ t. listed c.tags (trim_space t)) f.tags)

contains_fold-listed : (ss : List Str) (want : Str) → contains_fold ss want ≡ listed ss want
unfolding contains_fold
contains_fold-listed [] want = refl
contains_fold-listed (s ∷ ss) want = ground (arith, contains_fold-listed ss want)

intersects_fold-listed :
    (ts bs : List Str) → intersects_fold ts bs ≡ any (λ t. listed bs (trim_space t)) ts
unfolding intersects_fold
intersects_fold-listed [] bs = refl
intersects_fold-listed (t ∷ ts) bs =
    ground (arith, intersects_fold-listed ts bs, contains_fold-listed bs (trim_space t))

guard-allows :
    (xs : List Str) (b : Bool) → (if not (is_nil xs) && not b then false else true) ≡ allows xs b
unfolding is_nil
guard-allows [] b = refl
guard-allows (x ∷ xs) b = ground arith

three_guards :
    (a b c : Bool)
    → (if a then false else if b then false else if c then false else true)
      ≡ ((if a then false else true) && (if b then false else true) && (if c then false else true))
three_guards true b c = refl
three_guards false b c = ground arith

matches-wanted : (f : CheckFilter) (c : CheckConfig) → matches f c ≡ wanted f c
unfolding matches
matches-wanted f c = rw (
  three_guards (not (is_nil f.types) && not (contains_fold f.types (text c.typ)))
      (not (is_nil f.groups) && not (contains_fold f.groups c.group))
      (not (is_nil f.tags) && not (intersects_fold f.tags c.tags)),
  guard-allows f.types (contains_fold f.types (text c.typ)),
  guard-allows f.groups (contains_fold f.groups c.group),
  guard-allows f.tags (intersects_fold f.tags c.tags),
  contains_fold-listed f.types (text c.typ),
  contains_fold-listed f.groups c.group,
  intersects_fold-listed f.tags c.tags,
)

select_all : {A : Type 0} (p : A → Bool) (xs : List A) → ((x : A) → p x ≡ true) → select p xs ≡ xs
select_all p [] h = refl
select_all p (x ∷ xs) h = ground (arith, h x, select_all p xs h)

filter_loop-select :
    (f : CheckFilter) (cs : List CheckConfig) → filter_loop f cs ≡ select (wanted f) cs
unfolding filter_loop
filter_loop-select f [] = refl
filter_loop-select f (c ∷ cs) = rw (matches-wanted f c, filter_loop-select f cs) (ground arith)

nil-allows : (xs : List Str) (b : Bool) → is_nil xs ≡ true → allows xs b ≡ true
unfolding is_nil
nil-allows [] b h = refl
nil-allows (x ∷ xs) b h = ground arith

empty-wanted : (f : CheckFilter) (c : CheckConfig) → is_empty f ≡ true → wanted f c ≡ true
unfolding is_empty
empty-wanted f c h = ground (
  arith,
  nil-allows f.types (listed f.types (text c.typ)),
  nil-allows f.groups (listed f.groups c.group),
  nil-allows f.tags (any (λ t. listed c.tags (trim_space t)) f.tags),
)

-- The checks kept are those that the filter wants, in order: each dimension that is not empty must
-- list the check's type, its group, or one of its tags, in any case and with spaces around. An
-- empty filter keeps every check.
pub filter_checks-select :
    (cs : List CheckConfig) (f : CheckFilter) → filter_checks cs f ≡ select (wanted f) cs
unfolding filter_checks
filter_checks-select cs f = elim (Bool-cases (is_empty f)) [
  | inl e ↦ rw e (sym (select_all (wanted f) cs λ c. empty-wanted f c e))
  | inr e ↦ rw e (filter_loop-select f cs)
]

-- A type of a filter that some check can have, as `Matches` compares them.
abbrev pub live : Str → Bool
live t = any (λ u. equal_fold (trim_space t) (text u)) all_types

-- The texts of the types are in lower case.
to_lower-text : (u : CheckType) → IsKnown u → to_lower (text u) ≡ text u
unfolding to_lower text
to_lower-text (other s) h = absurd h
to_lower-text _ h = refl

abbrev AllKnown : List CheckType → Type 0
AllKnown [] = Unit {0}
AllKnown (u ∷ us) = IsKnown u × AllKnown us

any-fold :
    (s : Str) (us : List CheckType)
    → AllKnown us
    → any (λ u. text u == to_lower s) us ≡ any (λ u. equal_fold s (text u)) us
unfolding equal_fold
any-fold s [] h = refl
any-fold s (u ∷ us) h =
    rw (to_lower-text u h.0, any-fold s us h.1, ==-sym (text u) (to_lower s)) refl

is_valid_type-live : (t : Str) → is_valid_type t ≡ live t
unfolding is_valid_type
is_valid_type-live t =
    any-fold (trim_space t) all_types
      (tt, (tt, (tt, (tt, (tt, (tt, (tt, (tt, (tt, (tt, (tt, (tt, (tt, (tt, tt))))))))))))))

abbrev is_nothing : Option Str → Bool
is_nothing none = true
is_nothing (some t) = false

validate-live : (ts : List Str) → is_nothing (validate ts) ≡ every live ts
unfolding validate
validate-live [] = refl
validate-live (t ∷ ts) =
    rw (is_valid_type-live t, ← validate-live ts)
      (if-elim (λ o. is_nothing o ≡ (if live t then is_nothing (validate ts) else false)) (live t)
        {x = validate ts} {y = some t} (λ e. rw e refl) (λ e. rw e refl))

-- The checks that were loaded, if there is no error.
abbrev pub loaded : {A : Type 0} → Str ⊎ A → Option A
loaded (inl t) = none
loaded (inr a) = some a

filter_checks_empty :
    (cs : List CheckConfig) (f : CheckFilter) → is_empty f ≡ true → filter_checks cs f ≡ cs
unfolding filter_checks
filter_checks_empty cs f e = rw e refl

loaded_if :
    (v : Option Str) (b : Bool) (cs out : List CheckConfig)
    → (b ≡ true → out ≡ cs)
    → loaded (elim v [ some t ↦ inl t | none ↦ inr (if b then cs else out) ])
      ≡ (if is_nothing v then some out else none)
loaded_if none true cs out h = ap some (sym (h refl))
loaded_if none false cs out h = refl
loaded_if (some t) b cs out h = refl

-- Loading with a filter fails exactly when the filter in force lists a type that no check can have,
-- and else gives, in order, the checks that the filter wants: each dimension that is not empty must
-- list the check's type, its group, or one of its tags, in any case and with spaces around.
pub load_filtered-select :
    (fl : Flags) (cfg : CheckFilter) (cs : List CheckConfig)
    → loaded (load_filtered fl cfg cs) ≡ (
        if every live (effective_filter fl cfg).types
        then some (select (wanted (effective_filter fl cfg)) cs)
        else none)
unfolding load_filtered
load_filtered-select fl cfg cs =
    let f = effective_filter fl cfg in
    loaded_if (validate f.types) (is_empty f) cs (filter_checks cs f) (filter_checks_empty cs f)
    ∙ rw (validate-live f.types, filter_checks-select cs f) refl
