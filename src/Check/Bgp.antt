-- ===== src/Check/Bgp.antt =====
-- internal/check/bgp.go: the BGP checker, of the answers that RIPE Stat gives.
pub mod Verdict
pub mod Baseline
pub mod Retries
use technician.Common.{
  ℕ, Bool, true, false, not, ◌||◌, Option, none, some, List, [], ◌∷◌, ◌++◌, map, ltb, nat_beq,
  if◌then◌else◌, length, select, ◌==◌, nat_eq, Str, str_eq,
}
use technician.Common.Int.{ℤ, int_eq}
use technician.Common.Maps.{Map, lookup, insert, lookup_or}
use technician.Common.Text.{codes, has_prefix, itoa, join, joined}
use technician.Config.Kind.{bgp}
use technician.Config.Origin.{Origin}
use technician.Config.Types.{CheckConfig, BgpCheckConfig}
use technician.Check.{Result, new_result, pos}
use technician.Check.Fetch.{Fetched, no_request, no_reply, reply, undecodable, decoded, status_ok}

pub record MoreSpecific : Type 0 where
  pub prefix : Str
  pub origin : ℤ

-- `ripeRoutingStatus`
pub record RoutingStatus : Type 0 where
  pub origins : List ℤ
  pub more_specifics : List MoreSpecific

-- `knownMoreSpecifics`, by the check's name
abbrev pub Known : Type 0
Known = Map Str (Map Str Bool)

-- the loop that fills `next`
mark : List Str → Map Str Bool → Map Str Bool
mark [] m = m
mark (p ∷ ps) m = mark ps (insert p true m)

new_prefixes : Option (Map Str Bool) → List Str → List Str
new_prefixes none current = []
new_prefixes (some known) current = select (λ p. not (lookup_or p false known)) current

-- `observeMoreSpecifics`
unfoldable pub observe_more_specifics : Known → Str → List Str → Known × List Str
unfolding mark new_prefixes
observe_more_specifics known name current =
    (insert name (mark current []) known, new_prefixes (lookup name known) current)

unknown : Str
unknown = codes "unknown"

-- `rpkiStatus`, of the answer to its query
unfoldable pub rpki_status : Fetched Str → Str
unfolding unknown
rpki_status (no_request e) = unknown
rpki_status (no_reply e) = unknown
rpki_status (reply status (undecodable e)) = unknown
rpki_status (reply status (decoded v)) =
    if not (nat_beq status status_ok) then unknown else if v == [] then unknown else v

rogue_text : MoreSpecific → Str
rogue_text ms = joined (ms.prefix ∷ codes " (AS" ∷ itoa ms.origin ∷ codes ")" ∷ [])

as_text : ℤ → Str
as_text asn = codes "AS" ++ itoa asn

rogue_error : Str → List Str → Str
rogue_error prefix rogue = joined (
    codes "more-specific prefix of "
    ∷ prefix
    ∷ codes " announced by an unexpected origin: "
    ∷ join (codes ", ") rogue
    ∷ codes " (possible hijack)"
    ∷ [])

new_error : BgpCheckConfig → List Str → Str
new_error b prefixes = joined (
    codes "new more-specific prefix of "
    ∷ b.prefix
    ∷ codes " appeared, announced by the expected origin AS"
    ∷ itoa b.expected_origin
    ∷ codes ": "
    ∷ join (codes ", ") prefixes
    ∷ codes " (a forged AS path can show the correct origin for a hijacked route; "
    ∷ codes "verify this announcement is intentional)"
    ∷ [])

mismatch_error : BgpCheckConfig → List Str → Str
mismatch_error b unexpected = joined (
    codes "origin AS mismatch for "
    ∷ b.prefix
    ∷ codes ": expected AS"
    ∷ itoa b.expected_origin
    ∷ codes ", found "
    ∷ join (codes ", ") unexpected
    ∷ codes " (possible hijack)"
    ∷ [])

rpki_error : BgpCheckConfig → Str → Str
rpki_error b status = joined (
    codes "RPKI "
    ∷ status
    ∷ codes " for "
    ∷ b.prefix
    ∷ codes " announced by AS"
    ∷ itoa b.expected_origin
    ∷ codes ": no ROA authorizes this announcement"
    ∷ [])

unfoldable pub prefixes_of : RoutingStatus → List Str
prefixes_of info = map (λ (ms : MoreSpecific). ms.prefix) info.more_specifics

module _ {F : Type 0} where
  -- the failure of a query, which is not the target's
  unfoldable pub infra : ℕ → Str → Result F → Result F
  infra elapsed e r = record r { duration = elapsed; infra_error = true; error = e }

  first_asn : List ℤ → Result F → Result F
  first_asn [] r = r
  first_asn (asn ∷ rest) r = record r { bgp_origin_asn = asn }

  -- from the query of `rpkiStatus` on
  check_rpki : BgpCheckConfig → Str → Result F → Result F
  unfolding rpki_error
  check_rpki b status r =
      if has_prefix status (codes "invalid")
      then record r {
        bgp_origin_match = true;
        bgp_rpki_status = status;
        error = rpki_error b status;
      }
      else record r { bgp_origin_match = true; bgp_rpki_status = status; success = true }

  -- the comparison of the origins, and what follows it
  check_origins : BgpCheckConfig → List ℤ → Fetched Str → Result F → Result F
  unfolding first_asn check_rpki mismatch_error as_text
  check_origins b origins rpki r =
      let unexpected = map as_text (select (λ asn. not (asn == b.expected_origin)) origins) in
      if ltb 0 (length unexpected)
      then record (first_asn origins r) {
        bgp_origin_match = false;
        error = mismatch_error b unexpected;
      }
      else check_rpki b (rpki_status rpki) (first_asn origins r)

  -- the verdict on a decoded answer and the prefixes that are new in it
  unfoldable pub judge :
      BgpCheckConfig → RoutingStatus → List Str → Fetched Str → Result F → Result F
  unfolding rogue_text rogue_error new_error check_origins
  judge b info fresh rpki result =
      let rogue = map rogue_text (
        select (λ (ms : MoreSpecific). not (ms.origin == b.expected_origin)) info.more_specifics) in
      let r = record result {
        bgp_prefix_visible = ltb 0 (length info.origins) || ltb 0 (length info.more_specifics);
      } in
      if ltb 0 (length rogue)
      then record r { bgp_origin_match = false; error = rogue_error b.prefix rogue }
      else if ltb 0 (length fresh)
      then record r { bgp_origin_match = false; error = new_error b fresh }
      else if not r.bgp_prefix_visible
      then record r {
        error =
            joined (codes "prefix " ∷ b.prefix ∷ codes " not visible in global routing table" ∷ []);
      }
      else check_origins b info.origins rpki r

  query :
      BgpCheckConfig
      → Str
      → ℕ
      → Fetched RoutingStatus
      → Fetched Str
      → Known
      → Result F
      → Known × Result F
  unfolding infra judge prefixes_of
  query b name elapsed (no_request e) rpki known r =
      (known, infra elapsed (codes "building request: " ++ e) r)
  query b name elapsed (no_reply e) rpki known r =
      (known, infra elapsed (codes "RIPE Stat query failed: " ++ e) r)
  query b name elapsed (reply status (undecodable e)) rpki known r =
      if nat_beq status status_ok
      then (known, infra elapsed (codes "parsing RIPE Stat response: " ++ e) r)
      else (known, infra elapsed (codes "RIPE Stat returned HTTP " ++ itoa (pos status)) r)
  query b name elapsed (reply status (decoded info)) rpki known r =
      let seen = observe_more_specifics known name (prefixes_of info) in
      if nat_beq status status_ok
      then (seen.0, judge b info seen.1 rpki (record r { duration = elapsed }))
      else (known, infra elapsed (codes "RIPE Stat returned HTTP " ++ itoa (pos status)) r)

  configured :
      Option BgpCheckConfig
      → Str
      → ℕ
      → Fetched RoutingStatus
      → Fetched Str
      → Known
      → Result F
      → Known × Result F
  unfolding query
  configured none name elapsed routing rpki known r =
      (known, record r { error = codes "missing BGP check configuration" })
  configured (some b) name elapsed routing rpki known r = query b name elapsed routing rpki known r

  -- `Run` at the instant `now`, with the answers to its two queries and the time that they take
  unfoldable pub run :
      F
      → ℕ
      → ℕ
      → Fetched RoutingStatus
      → Fetched Str
      → CheckConfig
      → Option Origin
      → Known
      → Known × Result F
  unfolding configured
  run zero_float now elapsed routing rpki cfg origin known =
      configured cfg.bgp cfg.name elapsed routing rpki known
        (new_result zero_float cfg.name bgp origin now)
