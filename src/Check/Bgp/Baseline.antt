-- ===== src/Check/Bgp/Baseline.antt =====
-- Which more specific prefixes the BGP checker finds new.
use technician.Common.{
  ◌≡◌, refl, subst, ◌∙◌, Bool, true, false, not, ◌||◌, Option, none, some, List, [], ◌∷◌, ◌++◌,
  append_assoc, arith, if◌then◌else◌, if-elim, select, any, ◌==◌, nat_eq, Str, str_eq, ==-refl,
}
use technician.Common.Maps.{Map, lookup, insert, lookup_or, lookup-insert, lookup_or-insert}
use technician.Check.Bgp.{Known, mark, new_prefixes, observe_more_specifics}

-- Completed queries, each with the check's name and the more specific prefixes in its answer.
abbrev pub observe_all : Known → List (Str × List Str) → Known
observe_all known [] = known
observe_all known ((name, ps) ∷ h) = observe_all (observe_more_specifics known name ps).0 h

-- The prefixes in the last of them for one check, if there is one.
abbrev pub latest : Str → Option (List Str) → List (Str × List Str) → Option (List Str)
latest name last [] = last
latest name last ((n, ps) ∷ h) = latest name (if n == name then some ps else last) h

-- Those of a list that are not in the other, if there is another.
abbrev pub fresh_since : Option (List Str) → List Str → List Str
fresh_since none current = []
fresh_since (some previous) current = select (λ p. not (any (λ q. q == p) previous)) current

abbrev marked : Option (List Str) → Option (Map Str Bool)
unfolding mark
marked none = none
marked (some ps) = some (mark ps [])

lookup_or-mark :
    (ps : List Str) (m : Map Str Bool) (p : Str)
    → lookup_or p false (mark ps m) ≡ (any (λ q. q == p) ps || lookup_or p false m)
unfolding mark
lookup_or-mark [] m p = refl
lookup_or-mark (q ∷ ps) m p =
    lookup_or-mark ps (insert q true m) p ∙ rw (lookup_or-insert q p false true m) (ground arith)

lookup-observe_all :
    (name : Str) (h : List (Str × List Str)) (known : Known) (last : Option (List Str))
    → lookup name known ≡ marked last
    → lookup name (observe_all known h) ≡ marked (latest name last h)
unfolding observe_more_specifics
lookup-observe_all name [] known last e = e
lookup-observe_all name ((n, ps) ∷ h) known last e =
    lookup-observe_all name h (insert n (mark ps []) known) (if n == name then some ps else last) (
      lookup-insert n name (mark ps []) known
      ∙ if-elim (λ o. (if n == name then some (mark ps []) else lookup name known) ≡ marked o)
          (n == name) (λ t. rw t refl) (λ t. rw t e))

not_marked :
    (previous current : List Str)
    → select (λ p. not (lookup_or p false (mark previous []))) current
      ≡ fresh_since (some previous) current
unfolding lookup_or lookup
not_marked previous [] = refl
not_marked previous (p ∷ ps) =
    rw (lookup_or-mark previous [] p, not_marked previous ps) (ground arith)

new_prefixes-marked :
    (last : Option (List Str)) (current : List Str)
    → new_prefixes (marked last) current ≡ fresh_since last current
unfolding new_prefixes marked
new_prefixes-marked none current = refl
new_prefixes-marked (some previous) current = not_marked previous current

-- After any completed queries since the start, of this check and of others, the prefixes that are
-- flagged are those that the last answer for this check did not have, and none if it is the first.
pub observe_more_specifics-latest :
    (h : List (Str × List Str)) (name : Str) (current : List Str)
    → (observe_more_specifics (observe_all [] h) name current).1
      ≡ fresh_since (latest name none h) current
unfolding observe_more_specifics lookup
observe_more_specifics-latest h name current =
    rw (lookup-observe_all name h [] none refl) (new_prefixes-marked (latest name none h) current)

any_there : (pre ps : List Str) (p : Str) → any (λ q. q == p) (pre ++ p ∷ ps) ≡ true
any_there [] ps p = ground (arith, ==-refl p)
any_there (q ∷ pre) ps p = ground (arith, any_there pre ps p)

none_fresh : (pre ps : List Str) → fresh_since (some (pre ++ ps)) ps ≡ []
none_fresh pre [] = refl
none_fresh pre (p ∷ ps) = rw (any_there pre ps p) (
    subst (λ all. fresh_since (some all) ps ≡ []) (append_assoc pre (p ∷ []) ps)
      (none_fresh (pre ++ p ∷ []) ps))

-- The same prefixes once more hold none that is new.
pub observed_twice :
    (known : Known) (name : Str) (ps : List Str)
    → (observe_more_specifics (observe_more_specifics known name ps).0 name ps).1 ≡ []
unfolding observe_more_specifics
observed_twice known name ps =
    rw (lookup-insert name name (mark ps []) known, ==-refl name)
      (new_prefixes-marked (some ps) ps ∙ none_fresh [] ps)
