-- ===== src/Config/Origin.antt =====
-- internal/config/config.go: origins, how one is chosen, and the labels it gives.
use technician.Common.{
  ◌≡◌, refl, inl, inr, Bool, true, not, ◌&&◌, Option, none, some, List, [], ◌∷◌, arith,
  if◌then◌else◌, Bool-cases, if-elim, select, any, ◌==◌, nat_eq, Str, str_beq_iff, str_eq, ==-sym,
}
use technician.Common.Text.{codes}
use technician.Common.Maps.{Map, lookup, insert, has_key, lookup-insert}

pub record Origin : Type 0 where
  pub id : Str
  pub city : Str
  pub country : Str
  pub platform : Str
  pub labels : Map Str Str

-- `OriginByID`, over the slice of origins
unfoldable pub origin_by_id : List Origin → Str → Option Origin
origin_by_id [] id = none
origin_by_id (o ∷ os) id = if o.id == id then some o else origin_by_id os id

abbrev pub first_of {ℓ} : {A : Type ℓ} → List A → Option A
first_of [] = none
first_of (x ∷ xs) = some x

or_first : Option Origin → List Origin → Option Origin
or_first (some o) os = some o
or_first none os = first_of os

-- `ResolveOrigin`
unfoldable pub resolve_origin : List Origin → Str → Option Origin
unfolding origin_by_id or_first
resolve_origin os id = if id == [] then first_of os else or_first (origin_by_id os id) os

-- the loop over the user's labels, which skips a key that is there already
merge_labels : Map Str Str → Map Str Str → Map Str Str
merge_labels [] m = m
merge_labels ((k, v) ∷ ls) m = merge_labels ls (if has_key k m then m else insert k v m)

abbrev builtin_labels : Origin → Map Str Str
builtin_labels o =
    (codes "region", o.id) ∷ (codes "city", o.city) ∷ (codes "country", o.country) ∷ []

-- `MetricLabels`
unfoldable pub metric_labels : Origin → Map Str Str
unfolding merge_labels
metric_labels o = merge_labels o.labels (builtin_labels o)

-- An origin has the id.
abbrev pub named : Str → Origin → Bool
named id o = o.id == id

-- The first origin of a list that has the id.
abbrev pub find_origin : List Origin → Str → Option Origin
find_origin os id = first_of (select (named id) os)

origin_by_id-find : (os : List Origin) (id : Str) → origin_by_id os id ≡ find_origin os id
unfolding origin_by_id
origin_by_id-find [] id = refl
origin_by_id-find (o ∷ os) id = ground (arith, origin_by_id-find os id)

or_first-find :
    (os rest : List Origin) (id : Str)
    → or_first (find_origin os id) rest
      ≡ (if any (named id) os then find_origin os id else first_of rest)
unfolding or_first
or_first-find [] rest id = refl
or_first-find (o ∷ os) rest id =
    if-elim
      (λ (xs : List Origin).
        or_first (first_of xs) rest
        ≡ (if (if o.id == id then true else any (named id) os) then first_of xs else first_of rest))
      (o.id == id) {x = o ∷ select (named id) os} {y = select (named id) os} (λ e. rw e refl)
      (λ e. rw e (or_first-find os rest id))

-- The origin is the first one with the id if there is an id and such an origin, and else the first of
-- all; there is none exactly when none is configured.
pub resolve_origin-find :
    (os : List Origin) (id : Str)
    → resolve_origin os id
      ≡ (if not (id == []) && any (named id) os then find_origin os id else first_of os)
unfolding resolve_origin
resolve_origin-find os id =
    rw (origin_by_id-find os id, or_first-find os os id)
      (elim (Bool-cases (id == [])) [ inl e ↦ rw e refl | inr e ↦ rw e refl ])

lookup-merge_labels :
    (ls m : Map Str Str) (k : Str)
    → lookup k (merge_labels ls m) ≡ (if has_key k m then lookup k m else lookup k ls)
unfolding merge_labels lookup has_key
lookup-merge_labels [] m k = ground arith
lookup-merge_labels ((j, v) ∷ ls) m k = ground (
  arith,
  lookup-merge_labels ls m k,
  lookup-merge_labels ls (insert j v m) k,
  lookup-insert j k v m,
  str_beq_iff j k,
)

-- Each of the three built-in labels has the origin's own value, whatever labels the user gives, and
-- every other label has the user's value.
pub lookup-metric_labels :
    (o : Origin) (k : Str)
    → lookup k (metric_labels o) ≡ (
        if k == codes "region"
        then some o.id
        else if k == codes "city"
        then some o.city
        else if k == codes "country"
        then some o.country
        else lookup k o.labels)
unfolding metric_labels lookup has_key
lookup-metric_labels o k = ground (
  arith,
  lookup-merge_labels o.labels (builtin_labels o) k,
  ==-sym k (codes "region"),
  ==-sym k (codes "city"),
  ==-sym k (codes "country"),
)
