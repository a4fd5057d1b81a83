-- ===== src/Common/Text/Split.antt =====
-- A text joined from parts by a byte that a part does not hold can be taken apart again.
use Prim.Native.Nat.{ℕ, suc}
use technician.Common.Keys.{Str}
use technician.Common.Lists.{length, take, drop, take-append}
use technician.Common.Text.{last_index}
use mathlib.Core.Path.{◌≡◌, refl, sym, ap, ap₂, ◌∙◌}
use mathlib.Core.Logic.{◌≢◌}
use mathlib.Core.Option.{none, some}
use mathlib.Core.List.{[], ◌∷◌, ◌++◌}
use native.Mathlib.Omega.{arith}

-- No byte of the text is `c`.
abbrev pub Free : ℕ → Str → Type 0
Free c [] = Unit {0}
Free c (x ∷ s) = (x ≢ c) × Free c s

pub Free-append : (c : ℕ) (s t : Str) → Free c s → Free c t → Free c (s ++ t)
Free-append c [] t h k = k
Free-append c (x ∷ s) t h k = (h.0, Free-append c s t h.1 k)

last_index-Free : (c : ℕ) (s : Str) → Free c s → last_index c s ≡ none
unfolding last_index
last_index-Free c [] h = refl
last_index-Free c (x ∷ s) h = ground (arith, last_index-Free c s h.1)

pub last_index-append : (c : ℕ) (s t : Str) → Free c t → last_index c (s ++ c ∷ t) ≡ some (length s)
unfolding last_index
last_index-append c [] t h = ground (arith, last_index-Free c t h)
last_index-append c (x ∷ s) t h = ground (arith, last_index-append c s t h)

drop-suc-append : (s : Str) (c : ℕ) (t : Str) → drop (suc (length s)) (s ++ c ∷ t) ≡ t
drop-suc-append [] c t = refl
drop-suc-append (x ∷ s) c t = drop-suc-append s c t

-- The parts round the last `c` are determined.
pub last_split :
    (c : ℕ) (s s' t t' : Str)
    → Free c t
    → Free c t'
    → s ++ c ∷ t ≡ s' ++ c ∷ t'
    → (s ≡ s') × (t ≡ t')
last_split c s s' t t' h h' e = (
  sym (take-append s (c ∷ t)) ∙ ap₂ take lengths e ∙ take-append s' (c ∷ t'),
  sym (drop-suc-append s c t) ∙ ap₂ drop (ap suc lengths) e ∙ drop-suc-append s' c t',
)
  where
    lengths : length s ≡ length s'
    lengths = cc (last_index-append c s t h, last_index-append c s' t' h', ap (last_index c) e)

-- The parts round the first `c` are determined.
pub first_split :
    (c : ℕ) (s s' t t' : Str)
    → Free c s
    → Free c s'
    → s ++ c ∷ t ≡ s' ++ c ∷ t'
    → (s ≡ s') × (t ≡ t')
first_split c [] [] t t' h h' e = (refl, cc)
first_split c [] (y ∷ s') t t' h h' e = absurd (h'.0 (cc))
first_split c (x ∷ s) [] t t' h h' e = absurd (h.0 (cc))
first_split c (x ∷ s) (y ∷ s') t t' h h' e =
    let rest = first_split c s s' t t' h.1 h'.1 (cc) in (cc (rest.0), rest.1)
