-- ===== src/Check/Bgp/Verdict.antt =====
-- When a run of the BGP checker succeeds.
use technician.Common.{
  ℕ, ◌≡◌, refl, ◌∙◌, inl, inr, Bool, true, false, not, ◌&&◌, ◌||◌, Option, some, List, [], ◌∷◌, map,
  arith, ltb, nat_beq, if◌then◌else◌, Option-cases, if-elim, length, select, every, ◌==◌, nat_eq,
  Str, str_eq,
}
use technician.Common.Int.{ℤ, int_eq}
use technician.Common.Text.{codes, has_prefix}
use technician.Config.Origin.{Origin}
use technician.Config.Types.{CheckConfig, BgpCheckConfig}
use technician.Check.{Result}
use technician.Check.Fetch.{
  Fetched, no_request, no_reply, reply, undecodable, decoded, status_ok, body_of,
}
use technician.Check.Bgp.{
  MoreSpecific, RoutingStatus, Known, observe_more_specifics, rpki_status, prefixes_of, judge, run,
  infra, first_asn, check_rpki, check_origins, query, configured, as_text, rogue_text,
}

abbrev pub of_operator : BgpCheckConfig → RoutingStatus → Bool
of_operator b info =
    every (λ (ms : MoreSpecific). ms.origin == b.expected_origin) info.more_specifics

abbrev pub is_visible : RoutingStatus → Bool
is_visible info = ltb 0 (length info.origins) || ltb 0 (length info.more_specifics)

-- The routes are the expected operator's: every announced prefix has its origin, there is one, and
-- RPKI does not call it invalid.
abbrev pub expected_routes : BgpCheckConfig → RoutingStatus → Fetched Str → Bool
expected_routes b info rpki =
    of_operator b info
    && every (λ asn. asn == b.expected_origin) info.origins
    && is_visible info
    && not (has_prefix (rpki_status rpki) (codes "invalid"))

-- and no more specific prefix is new
abbrev pub accepted : Str → Known → BgpCheckConfig → RoutingStatus → Fetched Str → Bool
accepted name known b info rpki =
    expected_routes b info rpki
    && not (ltb 0 (length (observe_more_specifics known name (prefixes_of info)).1))

abbrev pub verdict : Str → Known → Option BgpCheckConfig → Option RoutingStatus → Fetched Str → Bool
verdict name known (some b) (some info) rpki = accepted name known b info rpki
verdict name known _ _ rpki = false

conjuncts :
    (m o v i n : Bool)
    → (not (not m) && (not n && (not (not v) && (not (not o) && not i))))
      ≡ ((m && o && v && not i) && not n)
conjuncts false o v i n = refl
conjuncts true o v i n = ground arith

odd-every {ℓ} :
    {A : Type ℓ} {B : Type 0} (f : A → B) (p : A → Bool) (xs : List A)
    → ltb 0 (length (map f (select (λ x. not (p x)) xs))) ≡ not (every p xs)
odd-every f p [] = refl
odd-every f p (x ∷ xs) = ground (arith, odd-every f p xs)

module _ {F : Type 0} where
  -- Past a guard that fails.
  guarded :
      (a : Bool) (x y : Result F) (v : Bool)
      → x.success ≡ false
      → y.success ≡ v
      → (if a then x else y).success ≡ (not a && v)
  guarded true x y v f s = f
  guarded false x y v f s = s

  first_asn-success : (asns : List ℤ) (r : Result F) → (first_asn asns r).success ≡ r.success
  unfolding first_asn
  first_asn-success [] r = refl
  first_asn-success (asn ∷ asns) r = refl

  check_rpki-success :
      (b : BgpCheckConfig) (status : Str) (r : Result F)
      → r.success ≡ false
      → (check_rpki b status r).success ≡ not (has_prefix status (codes "invalid"))
  unfolding check_rpki
  check_rpki-success b status r e =
      guarded (has_prefix status (codes "invalid")) _ _ true e refl ∙ ground arith

  check_origins-success :
      (b : BgpCheckConfig) (origins : List ℤ) (rpki : Fetched Str) (r : Result F)
      → r.success ≡ false
      → (check_origins b origins rpki r).success ≡ (
          not (not (every (λ asn. asn == b.expected_origin) origins))
          && not (has_prefix (rpki_status rpki) (codes "invalid")))
  unfolding check_origins
  check_origins-success b origins rpki r e =
      rw (← odd-every as_text (λ asn. asn == b.expected_origin) origins) (
        guarded _ _ _ _ (first_asn-success origins r ∙ e) (
          check_rpki-success b (rpki_status rpki) (first_asn origins r)
            (first_asn-success origins r ∙ e)))

  judge-guards :
      (b : BgpCheckConfig) (info : RoutingStatus) (fresh : List Str) (rpki : Fetched Str)
      (r : Result F)
      → r.success ≡ false
      → (judge b info fresh rpki r).success ≡ (
          not (not (of_operator b info))
          && (not (ltb 0 (length fresh))
              && (not (not (is_visible info))
                  && (not (not (every (λ asn. asn == b.expected_origin) info.origins))
                      && not (has_prefix (rpki_status rpki) (codes "invalid"))))))
  unfolding judge
  judge-guards b info fresh rpki r e =
      rw
        (odd-every rogue_text (λ (ms : MoreSpecific). ms.origin == b.expected_origin)
          info.more_specifics)
        (guarded (not (of_operator b info)) _ _ _ e (
          guarded (ltb 0 (length fresh)) _ _ _ e (
            guarded (not (is_visible info)) _ _ _ e
              (check_origins-success b info.origins rpki _ e))))

  judge-success :
      (b : BgpCheckConfig) (info : RoutingStatus) (fresh : List Str) (rpki : Fetched Str)
      (r : Result F)
      → r.success ≡ false
      → (judge b info fresh rpki r).success
        ≡ (expected_routes b info rpki && not (ltb 0 (length fresh)))
  judge-success b info fresh rpki r e =
      judge-guards b info fresh rpki r e
      ∙ conjuncts (of_operator b info) (every (λ asn. asn == b.expected_origin) info.origins)
          (is_visible info) (has_prefix (rpki_status rpki) (codes "invalid")) (ltb 0 (length fresh))

  query-success :
      (b : BgpCheckConfig) (name : Str) (elapsed : ℕ) (routing : Fetched RoutingStatus)
      (rpki : Fetched Str) (known : Known) (r : Result F)
      → r.success ≡ false
      → (query b name elapsed routing rpki known r).1.success
        ≡ verdict name known (some b) (body_of routing) rpki
  unfolding query infra
  query-success b name elapsed (no_request e) rpki known r f = f
  query-success b name elapsed (no_reply e) rpki known r f = f
  query-success b name elapsed (reply status (undecodable e)) rpki known r f =
      if-elim (λ (v : Known × Result F). v.1.success ≡ false) (nat_beq status status_ok) (λ t. f)
        (λ t. f)
  query-success b name elapsed (reply status (decoded info)) rpki known r f =
      if-elim
        (λ (v : Known × Result F).
          v.1.success
          ≡ verdict name known (some b) (body_of {A = RoutingStatus} (reply status (decoded info)))
              rpki)
        (nat_beq status status_ok)
        (λ t. rw t (
          judge-success b info (observe_more_specifics known name (prefixes_of info)).1 rpki
            (record r { duration = elapsed }) f))
        (λ t. rw t f)

-- A run succeeds exactly when the check is configured, RIPE Stat answers the first query with the
-- status 200 and a body that can be read, every origin of the prefix and of its more specific
-- prefixes is the expected one, there is one at all, no more specific prefix is new since the last
-- answer, and the RPKI verdict does not start with "invalid".
pub run-verdict :
    {F : Type 0} (zero_float : F) (now elapsed : ℕ) (routing : Fetched RoutingStatus)
    (rpki : Fetched Str) (cfg : CheckConfig) (origin : Option Origin) (known : Known)
    → (run zero_float now elapsed routing rpki cfg origin known).1.success
      ≡ verdict cfg.name known cfg.bgp (body_of routing) rpki
unfolding run configured
run-verdict zero_float now elapsed routing rpki cfg origin known = elim (Option-cases cfg.bgp) [
  | inl e ↦ rw e refl
  | inr (b, e) ↦ rw e (query-success b cfg.name elapsed routing rpki known _ refl)
]
