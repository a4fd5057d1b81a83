-- ===== src/Metrics/Har/Search.antt =====
-- The search of har.go is that of package strings.
use technician.Common.{
  ℕ, zero, suc, ◌+◌, ◌-◌, ◌≤◌, ◌<◌, ◌≡◌, refl, sym, ap, ◌∙◌, inl, inr, false, ◌||◌, [], ◌∷◌, arith,
  leb, leb→le, Bool-cases, length, take, ◌==◌, nat_eq, Str, str_eq,
}
use technician.Common.Text.{has_prefix}
use technician.Common.Text
use technician.Metrics.Har.{search_from, search_string, contains}

slice-has_prefix : (s substr : Str) → (take (length substr) s == substr) ≡ has_prefix s substr
unfolding has_prefix
slice-has_prefix s [] = refl
slice-has_prefix [] (c ∷ p) = refl
slice-has_prefix (x ∷ s) (c ∷ p) = ground (arith, slice-has_prefix s p)

search_from-cons :
    (left i x : ℕ) (s substr : Str)
    → search_from left (suc i) (x ∷ s) substr ≡ search_from left i s substr
unfolding search_from
search_from-cons zero i x s substr = refl
search_from-cons (suc left) i x s substr = rw (search_from-cons left (suc i) x s substr) refl

has_prefix-short : (s substr : Str) → length s < length substr → has_prefix s substr ≡ false
unfolding has_prefix
has_prefix-short s [] h = absurd (omega arith)
has_prefix-short [] (c ∷ p) h = refl
has_prefix-short (x ∷ s) (c ∷ p) h = ground (arith, has_prefix-short s p)

contains-short : (s substr : Str) → length s < length substr → Text.contains s substr ≡ false
unfolding Text.contains
contains-short [] substr h = has_prefix-short [] substr h
contains-short (x ∷ s) substr h =
    ground (arith, has_prefix-short (x ∷ s) substr, contains-short s substr)

search_from-once :
    (left : ℕ) (s substr : Str)
    → search_from (suc left) 0 s substr ≡ has_prefix s substr || search_from left 1 s substr
unfolding search_from
search_from-once left s substr = ground (arith, slice-has_prefix s substr)

rounds : (n m : ℕ) → m ≤ n → suc n - m + 1 ≡ suc (n - m + 1)
rounds n m h = omega (arith, h)

shorter : (n m : ℕ) → leb m n ≡ false → n < m
shorter n m h = ground (arith, h)

one_round : (n m : ℕ) → leb m n ≡ false → suc n - m + 1 ≡ 1
one_round n m h = omega (arith, shorter n m h)

search_string-contains :
    (s substr : Str) → length substr ≤ length s → search_string s substr ≡ Text.contains s substr
unfolding search_string Text.contains
search_string-contains [] [] h = refl
search_string-contains [] (c ∷ p) h = absurd (omega (arith, h))
search_string-contains (x ∷ s) substr h = elim (Bool-cases (leb (length substr) (length s))) [
  | inl more ↦
      ap (λ n. search_from n 0 (x ∷ s) substr) (rounds (length s) (length substr) (leb→le _ _ more))
      ∙ search_from-once (length s - length substr + 1) (x ∷ s) substr
      ∙ ap (◌||◌ (has_prefix (x ∷ s) substr)) (
          search_from-cons (length s - length substr + 1) 0 x s substr
          ∙ search_string-contains s substr (leb→le _ _ more))
  | inr less ↦
      ap (λ n. search_from n 0 (x ∷ s) substr) (one_round (length s) (length substr) less)
      ∙ search_from-once 0 (x ∷ s) substr
      ∙ ap (◌||◌ (has_prefix (x ∷ s) substr))
          (sym (contains-short s substr (shorter (length s) (length substr) less)))
]

-- The search of a text in another, index by index over slices, finds it exactly when `strings.Contains`
-- does.
pub contains-strings : (s substr : Str) → contains s substr ≡ Text.contains s substr
unfolding contains
contains-strings s substr = ground (arith, search_string-contains s substr, contains-short s substr)
