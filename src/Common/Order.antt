-- ===== src/Common/Order.antt =====
-- The order of Go's strings, byte by byte, and sorting by it.
use technician.Common.Tests.{if◌then◌else◌, ltb, nat_beq}
use technician.Common.Lists.{any}
use technician.Common.Keys.{Str}
use mathlib.Core.Path.{◌≡◌, refl}
use mathlib.Core.Bool.{Bool, true, false, ◌&&◌, ◌||◌}
use mathlib.Core.List.{List, [], ◌∷◌}
use native.Mathlib.Omega.{arith}

unfoldable pub str_less : Str → Str → Bool
str_less s [] = false
str_less [] (d ∷ t) = true
str_less (c ∷ s) (d ∷ t) = ltb c d || (nat_beq c d && str_less s t)

insert_sorted : Str → List Str → List Str
insert_sorted k [] = k ∷ []
insert_sorted k (j ∷ js) = if str_less j k then j ∷ insert_sorted k js else k ∷ j ∷ js

-- `slices.Sorted` of a map's keys, which are all different
unfoldable pub sort : List Str → List Str
unfolding insert_sorted
sort [] = []
sort (k ∷ ks) = insert_sorted k (sort ks)

any-insert_sorted :
    (p : Str → Bool) (k : Str) (ks : List Str) → any p (insert_sorted k ks) ≡ (p k || any p ks)
unfolding insert_sorted
any-insert_sorted p k [] = ground arith
any-insert_sorted p k (j ∷ js) = ground (arith, any-insert_sorted p k js)

-- Sorting keeps the elements.
pub any-sort : (p : Str → Bool) (ks : List Str) → any p (sort ks) ≡ any p ks
unfolding sort
any-sort p [] = refl
any-sort p (k ∷ ks) = ground (arith, any-insert_sorted p k (sort ks), any-sort p ks)
