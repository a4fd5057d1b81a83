-- ===== src/Status/Store/Down.antt =====
-- `downSince`: since when the target of a check has been failing.
use technician.Common.{
  ℕ, ◌<◌, ◌≡◌, refl, ap, ◌∙◌, inl, inr, Bool, true, false, not, ◌&&◌, Option, none, some, List, [],
  ◌∷◌, ◌++◌, arith, if◌then◌else◌, Bool-cases, every, ◌==◌, nat_eq, Str, str_eq, ==-true,
}
use technician.Common.Float.{Floats}
use technician.Common.Maps.{lookup}
use technician.Check.{Result}
use technician.Status.Ring.{Ring}
use technician.Status.Ring
use technician.Status.Store.{
  Store, check_key, ring_for, fresh_ring, track_down, updated_ring, push, push_all,
}
use technician.Status.Store.History.{lookup-push}

module _ {F : Type 0} where
  abbrev ring_down : Option (Ring F) → ℕ
  ring_down none = 0
  ring_down (some g) = g.down_since

  -- Since when a check is down: 0 if it is not.
  abbrev pub down_of : Str → Store F → ℕ
  down_of k s = ring_down (lookup k s.checks)

  -- The target failed: the check ran, and did not succeed.
  abbrev pub fails : Result F → Bool
  fails r = not r.success && not r.infra_error

  -- The results pushed under a key.
  abbrev pub results_for : Str → List (Result F) → List (Result F)
  results_for k [] = []
  results_for k (r ∷ rs) =
      if check_key r.typ r.name == k then r ∷ results_for k rs else results_for k rs

  since_of : ℕ → List (Result F) → ℕ
  since_of d [] = d
  since_of d (r ∷ rs) = since_of (track_down r.success r.infra_error r.timestamp d) rs

  since_of-append :
      (d : ℕ) (xs ys : List (Result F)) → since_of d (xs ++ ys) ≡ since_of (since_of d xs) ys
  unfolding since_of
  since_of-append d [] ys = refl
  since_of-append d (x ∷ xs) ys =
      since_of-append (track_down x.success x.infra_error x.timestamp d) xs ys

  since_of-fails :
      (d : ℕ) (fs : List (Result F)) → 0 < d → every fails fs ≡ true → since_of d fs ≡ d
  unfolding since_of track_down
  since_of-fails d [] h e = refl
  since_of-fails d (f ∷ fs) h e = ground (arith, since_of-fails d fs)

  -- One success or infrastructure error, one failure, then failures only.
  since_of-outage :
      (d : ℕ) (ok f : Result F) (fs : List (Result F))
      → fails ok ≡ false
      → fails f ≡ true
      → every fails fs ≡ true
      → 0 < f.timestamp
      → since_of d (ok ∷ f ∷ fs) ≡ f.timestamp
  unfolding since_of track_down
  since_of-outage d ok f fs a b c h = ground (arith, since_of-fails f.timestamp fs h c)

module _ {F : Type 0} (fl : Floats F) where
  updated_ring-down :
      (old : Option (Ring F)) (r : Result F)
      → (updated_ring fl old r).down_since
        ≡ track_down r.success r.infra_error r.timestamp (ring_down old)
  unfolding updated_ring ring_for fresh_ring Ring.push
  updated_ring-down none r = refl
  updated_ring-down (some g) r = ground arith

  push-down :
      (s : Store F) (r : Result F) (k : Str)
      → down_of k (push fl s r) ≡ (
          if check_key r.typ r.name == k
          then track_down r.success r.infra_error r.timestamp (down_of k s)
          else down_of k s)
  push-down s r k = elim (Bool-cases (check_key r.typ r.name == k)) [
    | inl hit ↦
        rw (lookup-push fl s r k, hit)
          (updated_ring-down (lookup (check_key r.typ r.name) s.checks) r
            ∙ ap (λ j. track_down r.success r.infra_error r.timestamp (down_of j s)) (==-true hit))
    | inr miss ↦ rw (lookup-push fl s r k, miss)
  ]

  push_all-since :
      (s : Store F) (rs : List (Result F)) (k : Str)
      → down_of k (push_all fl s rs) ≡ since_of (down_of k s) (results_for k rs)
  unfolding push_all since_of
  push_all-since s [] k = refl
  push_all-since s (r ∷ rs) k =
      push_all-since (push fl s r) rs k ∙ elim (Bool-cases (check_key r.typ r.name == k)) [
        | inl hit ↦ rw (push-down s r k, hit)
        | inr miss ↦ rw (push-down s r k, miss)
      ]

  -- Instants are after the zero time. When the results pushed under a key end with a success or an infrastructure error and then
  -- failures only, the check is down since the first of these failures.
  pub push_all-down :
      (s : Store F) (rs pre : List (Result F)) (ok f : Result F) (fs : List (Result F)) (k : Str)
      → results_for k rs ≡ pre ++ ok ∷ f ∷ fs
      → fails ok ≡ false
      → fails f ≡ true
      → every fails fs ≡ true
      → 0 < f.timestamp
      → down_of k (push_all fl s rs) ≡ f.timestamp
  push_all-down s rs pre ok f fs k e a b c h =
      push_all-since s rs k
      ∙ ap (since_of (down_of k s)) e
      ∙ since_of-append (down_of k s) pre (ok ∷ f ∷ fs)
      ∙ since_of-outage (since_of (down_of k s) pre) ok f fs a b c h
