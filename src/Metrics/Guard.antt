-- ===== src/Metrics/Guard.antt =====
-- How many names the guard lets through.
use technician.Common.{
  ℕ, suc, ◌≤◌, ◌≡◌, refl, sym, ◌∙◌, Bool, true, false, not, ◌&&◌, List, [], ◌∷◌, arith, ltb, leb,
  if◌then◌else◌, if-elim, length, any, every, ◌==◌, nat_eq, Str, str_eq, ==-refl, both,
}
use technician.Common.Float.{Floats}
use technician.Check.{Result}
use technician.Metrics.Series.{Write, record_admitted, site_labels_of}
use technician.Metrics.{Cardinality, record_result, admit}

abbrev pub knows : List Str → Str → Bool
knows seen name = any (λ n. n == name) seen

-- A state of the guard that keeps to its limit.
abbrev pub Keeps : Cardinality → Type 0
Keeps c = length c.seen ≤ c.limit

admit-Keeps : (name : Str) (c : Cardinality) → Keeps c → Keeps (admit name c).0
unfolding admit
admit-Keeps name c h =
    if-elim (λ (v : Cardinality × Bool). Keeps v.0) (knows c.seen name) (λ t. h)
      (λ t.
        if-elim (λ (v : Cardinality × Bool). Keeps v.0) (leb c.limit (length c.seen)) (λ u. h)
          (λ u. ground arith))

admit-limit : (name : Str) (c : Cardinality) → (admit name c).0.limit ≡ c.limit
unfolding admit
admit-limit name c =
    if-elim (λ (v : Cardinality × Bool). v.0.limit ≡ c.limit) (knows c.seen name) (λ t. refl)
      (λ t.
        if-elim (λ (v : Cardinality × Bool). v.0.limit ≡ c.limit) (leb c.limit (length c.seen))
          (λ u. refl) (λ u. refl))

-- A name is let through exactly when the guard knows it afterwards.
admit-knows : (name : Str) (c : Cardinality) → (admit name c).1 ≡ knows (admit name c).0.seen name
unfolding admit
admit-knows name c =
    if-elim (λ (v : Cardinality × Bool). v.1 ≡ knows v.0.seen name) (knows c.seen name) (λ t. sym t)
      (λ t.
        if-elim (λ (v : Cardinality × Bool). v.1 ≡ knows v.0.seen name)
          (leb c.limit (length c.seen)) (λ u. sym t) (λ u. ground (arith, ==-refl name)))

-- The guard forgets no name.
admit-grows :
    (name other : Str) (c : Cardinality)
    → knows c.seen other ≡ true
    → knows (admit name c).0.seen other ≡ true
unfolding admit
admit-grows name other c h =
    if-elim (λ (v : Cardinality × Bool). knows v.0.seen other ≡ true) (knows c.seen name) (λ t. h)
      (λ t.
        if-elim (λ (v : Cardinality × Bool). knows v.0.seen other ≡ true)
          (leb c.limit (length c.seen)) (λ u. h) (λ u. ground arith))

fst_if {ℓ κ} :
    {A : Type ℓ} {B : Type κ} (b : Bool) (x y : A × B)
    → (if b then x else y).0 ≡ (if b then x.0 else y.0)
fst_if true x y = refl
fst_if false x y = refl

past_guard : (infra b : Bool) → infra ≡ false → b ≡ (not infra && b)
past_guard infra b h = ground arith

longer {ℓ} :
    {A : Type ℓ} (b : Bool) (ys : List A)
    → ltb 0 (length ys) ≡ true
    → ltb 1 (suc (length (if b then ys else []))) ≡ b
longer true ys h = ground arith
longer false ys h = refl

module _ {F : Type 0} (fl : Floats F) where
  -- The guard after a sequence of results, each with its instant.
  abbrev pub guard_after : List (ℕ × Result F) → Cardinality → Cardinality
  unfolding record_result
  guard_after [] c = c
  guard_after ((now, r) ∷ rs) c = guard_after rs (record_result fl now r c).0

  -- The names of the results for which more than the gauge of the infrastructure is written.
  abbrev pub tracked : List (ℕ × Result F) → Cardinality → List Str
  unfolding record_result
  tracked [] c = []
  tracked ((now, r) ∷ rs) c =
      let rest = tracked rs (record_result fl now r c).0 in
      if ltb 1 (length (record_result fl now r c).1) then r.name ∷ rest else rest

  record_result-guard :
      (now : ℕ) (r : Result F) (c : Cardinality)
      → (record_result fl now r c).0 ≡ (if r.infra_error then c else (admit r.name c).0)
  unfolding record_result
  record_result-guard now r c = fst_if r.infra_error _ _

  record_result-tracks :
      (now : ℕ) (r : Result F) (c : Cardinality)
      → ltb 1 (length (record_result fl now r c).1) ≡ (not r.infra_error && (admit r.name c).1)
  unfolding record_result record_admitted
  record_result-tracks now r c =
      if-elim
        (λ (v : Cardinality × List (Write F)).
          ltb 1 (length v.1) ≡ (not r.infra_error && (admit r.name c).1))
        r.infra_error (λ t. rw t refl)
        (λ f.
          longer (admit r.name c).1 (record_admitted fl now r (site_labels_of r)) (ground arith)
          ∙ past_guard r.infra_error (admit r.name c).1 f)

  one-Keeps :
      (now : ℕ) (r : Result F) (c : Cardinality)
      → Keeps c
      → Keeps (record_result fl now r c).0 × ((record_result fl now r c).0.limit ≡ c.limit)
  one-Keeps now r c h = rw (record_result-guard now r c) (
      if-elim (λ (d : Cardinality). Keeps d × (d.limit ≡ c.limit)) r.infra_error (λ t. (h, refl))
        (λ t. (admit-Keeps r.name c h, admit-limit r.name c)))

  one_grows :
      (now : ℕ) (r : Result F) (c : Cardinality) (other : Str)
      → knows c.seen other ≡ true
      → knows (record_result fl now r c).0.seen other ≡ true
  one_grows now r c other h = rw (record_result-guard now r c) (
      if-elim (λ (d : Cardinality). knows d.seen other ≡ true) r.infra_error (λ t. h)
        (λ t. admit-grows r.name other c h))

  one_knows :
      (now : ℕ) (r : Result F) (c : Cardinality)
      → ltb 1 (length (record_result fl now r c).1) ≡ true
      → knows (record_result fl now r c).0.seen r.name ≡ true
  one_knows now r c h =
      let passed =
        both (not r.infra_error) (admit r.name c).1 (sym (record_result-tracks now r c) ∙ h) in
      rw (record_result-guard now r c) (
        if-elim (λ (d : Cardinality). knows d.seen r.name ≡ true) r.infra_error
          (λ t. absurd (ground (arith, passed.0, t))) (λ t. sym (admit-knows r.name c) ∙ passed.1))

  guard_after-grows :
      (rs : List (ℕ × Result F)) (c : Cardinality) (other : Str)
      → knows c.seen other ≡ true
      → knows (guard_after rs c).seen other ≡ true
  unfolding guard_after
  guard_after-grows [] c other h = h
  guard_after-grows ((now, r) ∷ rs) c other h =
      guard_after-grows rs (record_result fl now r c).0 other (one_grows now r c other h)

  guard_after-Keeps :
      (rs : List (ℕ × Result F)) (c : Cardinality)
      → Keeps c
      → Keeps (guard_after rs c) × ((guard_after rs c).limit ≡ c.limit)
  unfolding guard_after
  guard_after-Keeps [] c h = (h, refl)
  guard_after-Keeps ((now, r) ∷ rs) c h =
      let one = one-Keeps now r c h in
      let more = guard_after-Keeps rs (record_result fl now r c).0 one.0 in (more.0, more.1 ∙ one.1)

  tracked-knows :
      (rs : List (ℕ × Result F)) (c : Cardinality)
      → every (knows (guard_after rs c).seen) (tracked rs c) ≡ true
  unfolding guard_after tracked
  tracked-knows [] c = refl
  tracked-knows ((now, r) ∷ rs) c =
      let d = (record_result fl now r c).0 in
      if-elim (λ names. every (knows (guard_after rs d).seen) names ≡ true)
        (ltb 1 (length (record_result fl now r c).1))
        (λ t. rw (guard_after-grows rs d r.name (one_knows now r c t)) (tracked-knows rs d))
        (λ t. tracked-knows rs d)

  -- Whatever results are recorded, all the names for which more is written than the gauge of the
  -- infrastructure are among the names that the guard knows in the end, and these are no more than its
  -- limit, if they are at the start.
  pub tracked-Keeps :
      (rs : List (ℕ × Result F)) (c : Cardinality)
      → Keeps c
      → (every (knows (guard_after rs c).seen) (tracked rs c) ≡ true)
        × (length (guard_after rs c).seen ≤ c.limit)
  tracked-Keeps rs c h =
      let kept = guard_after-Keeps rs c h in (tracked-knows rs c, omega (arith, kept.0, kept.1))
