-- ===== src/Config/Filter.antt =====
-- internal/config/filter.go and cmd/filter.go: which checks a worker runs. Texts are ASCII.
pub mod Matching
use technician.Common.{
  ◌⊎◌, inl, inr, Bool, true, false, not, ◌&&◌, Option, none, some, List, [], ◌∷◌, if◌then◌else◌,
  any, ◌==◌, nat_eq, Str, str_eq,
}
use technician.Common.Text.{split, trim_space, to_lower, equal_fold}
use technician.Config.Kind.{all_types, text}
use technician.Config.Types.{CheckConfig}

pub record CheckFilter : Type 0 where
  pub types : List Str
  pub groups : List Str
  pub tags : List Str

-- `len(xs) == 0`
unfoldable pub is_nil : List Str → Bool
is_nil [] = true
is_nil (x ∷ xs) = false

-- `IsEmpty`
unfoldable pub is_empty : CheckFilter → Bool
unfolding is_nil
is_empty f = is_nil f.types && is_nil f.groups && is_nil f.tags

-- one round of the loop of `Validate`: whether the map `allCheckTypes` has the type
unfoldable pub is_valid_type : Str → Bool
unfolding text
is_valid_type t = any (λ u. text u == to_lower (trim_space t)) all_types

-- `Validate`: the first type that is not known
unfoldable pub validate : List Str → Option Str
unfolding is_valid_type
validate [] = none
validate (t ∷ ts) = if is_valid_type t then validate ts else some t

-- `containsFold`
unfoldable pub contains_fold : List Str → Str → Bool
contains_fold [] want = false
contains_fold (s ∷ ss) want = if equal_fold (trim_space s) want then true else contains_fold ss want

-- `intersectsFold`
unfoldable pub intersects_fold : List Str → List Str → Bool
unfolding contains_fold
intersects_fold [] bs = false
intersects_fold (a ∷ rest) bs =
    if contains_fold bs (trim_space a) then true else intersects_fold rest bs

-- `Matches`
unfoldable pub matches : CheckFilter → CheckConfig → Bool
unfolding is_nil contains_fold intersects_fold
matches f c =
    if not (is_nil f.types) && not (contains_fold f.types (text c.typ))
    then false
    else if not (is_nil f.groups) && not (contains_fold f.groups c.group)
    then false
    else if not (is_nil f.tags) && not (intersects_fold f.tags c.tags)
    then false
    else true

-- the loop of `FilterChecks`
filter_loop : CheckFilter → List CheckConfig → List CheckConfig
unfolding matches
filter_loop f [] = []
filter_loop f (c ∷ cs) = if matches f c then c ∷ filter_loop f cs else filter_loop f cs

-- `FilterChecks`
unfoldable pub filter_checks : List CheckConfig → CheckFilter → List CheckConfig
unfolding is_empty filter_loop
filter_checks cs f = if is_empty f then cs else filter_loop f cs

-- the loop of `SplitCSV`
trimmed : List Str → List Str
trimmed [] = []
trimmed (x ∷ xs) = if trim_space x == [] then trimmed xs else trim_space x ∷ trimmed xs

-- `SplitCSV`
unfoldable pub split_csv : Str → List Str
unfolding trimmed
split_csv s = if trim_space s == [] then [] else trimmed (split b',' s)

-- The values of `--types`, `--groups` and `--tags`.
pub record Flags : Type 0 where
  pub types : Str
  pub groups : Str
  pub tags : Str

abbrev overridden : Str → List Str → List Str
overridden flag old = if flag == [] then old else split_csv flag

-- `effectiveFilter`
unfoldable pub effective_filter : Flags → CheckFilter → CheckFilter
unfolding split_csv
effective_filter fl f = record {
  types = overridden fl.types f.types;
  groups = overridden fl.groups f.groups;
  tags = overridden fl.tags f.tags;
}

-- `loadFilteredChecks` after the checks are loaded; `inl` is the error with the unknown type
unfoldable pub load_filtered : Flags → CheckFilter → List CheckConfig → Str ⊎ List CheckConfig
unfolding effective_filter validate is_empty filter_checks
load_filtered fl cfg cs =
    let f = effective_filter fl cfg in
    elim (validate f.types) [
      | some t ↦ inl t
      | none ↦ inr (if is_empty f then cs else filter_checks cs f)
    ]
