-- ===== src/Check/Traceroute/Hops.antt =====
-- When a run of the traceroute checker succeeds, and the hops that it reports.
use technician.Common.{
  ℕ, zero, suc, ◌+◌, ◌≡◌, refl, ap, ◌∙◌, ◌⊎◌, inl, inr, Bool, true, false, Option, none, some, List,
  [], ◌∷◌, arith, get_elem?, nat_eq, Str, str_eq,
}
use technician.Common.Int.{ℤ, pos}
use technician.Config.Origin.{Origin}
use technician.Config.Types.{CheckConfig, TracerouteCheckConfig}
use technician.Check.{Result, TracerouteHop}
use technician.Check.Report.{or_default}
use technician.Check.Traceroute.{
  MtrHub, Exit, exited, crashed, Tools, minute, arguments, json_start, hops_from, read_report,
  parse_from, parse_mtr_output, parsed, ended, configured, run,
}

-- What mtr reports, if it exits well and prints a readable report behind any other text.
module _ {F : Type 0} where
  abbrev hubs_of : Str ⊎ List (MtrHub F) → Option (List (MtrHub F))
  hubs_of (inl e) = none
  hubs_of (inr hubs) = some hubs

  abbrev read_hubs : Tools F → Option Str → Option (List (MtrHub F))
  read_hubs t none = none
  read_hubs t (some json) = hubs_of (t.unmarshal json)

  abbrev hubs_after : Tools F → Exit → Option (List (MtrHub F))
  hubs_after t (crashed stderr e) = none
  hubs_after t (exited output) = read_hubs t (json_start output)

  abbrev pub reported : Tools F → ℤ → Option TracerouteCheckConfig → Option (List (MtrHub F))
  reported t timeout none = none
  reported t timeout (some c) = hubs_after t (t.mtr timeout (arguments c))

  -- A hop is numbered by its place, from 1, and has the figures of its hub.
  abbrev pub hop_at : ℕ → MtrHub F → TracerouteHop F
  hop_at i h = record {
    hop = pos (i + 1);
    host = h.host;
    ip = [];
    asn = h.asn;
    avg_ms = h.avg;
    loss_percent = h.loss;
  }

  abbrev pub numbered : ℕ → Option (MtrHub F) → Option (TracerouteHop F)
  numbered i none = none
  numbered i (some h) = some (hop_at i h)

  get_elem?-hops_from :
      (hubs : List (MtrHub F)) (k i : ℕ)
      → get_elem? (hops_from k hubs) i ≡ numbered (k + i) (get_elem? hubs i)
  unfolding hops_from
  get_elem?-hops_from [] k i = refl
  get_elem?-hops_from (h ∷ hs) k zero = let e : k + 0 ≡ k = omega arith in rw e
  get_elem?-hops_from (h ∷ hs) k (suc i) =
      let e : k + suc i ≡ suc k + i = omega arith in rw e (get_elem?-hops_from hs (suc k) i)

  abbrev pub is_reported : Option (List (MtrHub F)) → Bool
  is_reported none = false
  is_reported (some hubs) = true

  abbrev pub hop_in : ℕ → Option (List (MtrHub F)) → Option (TracerouteHop F)
  hop_in i none = none
  hop_in i (some hubs) = numbered i (get_elem? hubs i)

  abbrev Shows : Option (List (MtrHub F)) → ℕ → Result F → Type 0
  Shows o i r = (r.success ≡ is_reported o) × (get_elem? r.hops i ≡ hop_in i o)

  parsed-Shows :
      (a : Str ⊎ List (MtrHub F)) (i : ℕ) (r : Result F)
      → r.success ≡ false
      → r.hops ≡ []
      → Shows (hubs_of a) i (parsed (read_report a) r)
  unfolding parsed read_report
  parsed-Shows (inl x) i r e h = (e, rw h)
  parsed-Shows (inr hubs) i r e h =
      let z : 0 + i ≡ i = omega arith in
      (refl, get_elem?-hops_from hubs 0 i ∙ ap (λ n. numbered n (get_elem? hubs i)) z)

  output-Shows :
      (t : Tools F) (output : Str) (json : Option Str) (i : ℕ) (r : Result F)
      → r.success ≡ false
      → r.hops ≡ []
      → Shows (read_hubs t json) i (parsed (parse_from t output json) r)
  unfolding parse_from
  output-Shows t output none i r e h = unfold parsed in (e, rw h)
  output-Shows t output (some json) i r e h = parsed-Shows (t.unmarshal json) i r e h

  ended-Shows :
      (t : Tools F) (x : Exit) (i : ℕ) (r : Result F)
      → r.success ≡ false
      → r.hops ≡ []
      → Shows (hubs_after t x) i (ended t x r)
  unfolding ended parse_mtr_output
  ended-Shows t (crashed stderr x) i r e h = (ground (arith, e), ground (arith, h))
  ended-Shows t (exited output) i r e h = output-Shows t output (json_start output) i r e h

  configured-Shows :
      (o : Option TracerouteCheckConfig) (timeout : ℤ) (t : Tools F) (i : ℕ) (r : Result F)
      → r.success ≡ false
      → r.hops ≡ []
      → Shows (reported t timeout o) i (configured o timeout t r)
  unfolding configured
  configured-Shows none timeout t i r e h = (e, rw h)
  configured-Shows (some c) timeout t i r e h =
      ended-Shows t (t.mtr timeout (arguments c)) i (record r { duration = t.elapsed }) e h

-- A run of the traceroute checker succeeds exactly when the check is configured, mtr exits well and
-- prints a readable report behind any text without a brace; its hop at each place is then the hub there,
-- numbered from 1, and a run that does not succeed has no hops.
pub run-reported :
    {F : Type 0} (zero_float : F) (now : ℕ) (t : Tools F) (cfg : CheckConfig)
    (origin : Option Origin) (i : ℕ)
    → ((run zero_float now t cfg origin).success
        ≡ is_reported (reported t (or_default minute cfg.timeout) cfg.traceroute))
      × (get_elem? (run zero_float now t cfg origin).hops i
          ≡ hop_in i (reported t (or_default minute cfg.timeout) cfg.traceroute))
unfolding run
run-reported zero_float now t cfg origin i =
    configured-Shows cfg.traceroute (or_default minute cfg.timeout) t i _ refl refl
