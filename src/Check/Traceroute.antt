-- ===== src/Check/Traceroute.antt =====
-- internal/check/traceroute.go: the traceroute checker, of what the program mtr prints.
pub mod Hops
use technician.Common.{
  ℕ, suc, ◌+◌, ◌⊎◌, inl, inr, true, not, Option, none, some, List, [], ◌∷◌, ◌++◌, ltb, nat_beq,
  if◌then◌else◌, length, take, ◌==◌, nat_eq, Str, str_eq,
}
use technician.Common.Int.{ℤ, pos}
use technician.Common.Text.{codes, itoa, trim_space}
use technician.Config.Kind.{traceroute}
use technician.Config.Origin.{Origin}
use technician.Config.Types.{CheckConfig, TracerouteCheckConfig}
use technician.Check.{Result, TracerouteHop, new_result}
use technician.Check.Report.{or_default}

-- The fields of `mtrHub` that are used.
pub record MtrHub (F : Type 0) : Type 0 where
  pub host : Str
  pub asn : ℤ
  pub loss : F
  pub avg : F

-- How a process ends: with its output, or with an error and what it printed to stderr.
pub data Exit : Type 0 where
  exited : Str → Exit
  crashed : Str → Str → Exit

-- `exec.CommandContext` of mtr with a timeout and its arguments, `json.Unmarshal` of the hubs of a
-- report with its error on the left, `%q`, and the time that the process takes.
pub record Tools (F : Type 0) : Type 0 where
  pub mtr : ℤ → List Str → Exit
  pub unmarshal : Str → Str ⊎ List (MtrHub F)
  pub quote : Str → Str
  pub elapsed : ℕ

abbrev pub minute : ℤ
minute = pos 60000000000

unfoldable pub arguments : TracerouteCheckConfig → List Str
arguments c =
    codes "--json"
    ∷ (codes "--max-ttl=" ++ itoa c.max_hops)
    ∷ (codes "--report-cycles=" ++ itoa c.count)
    ∷ c.host
    ∷ []

-- the output from its first brace on, if it has one
unfoldable pub json_start : Str → Option Str
json_start [] = none
json_start (x ∷ s) = if nat_beq x b'{' then some (x ∷ s) else json_start s

unfoldable pub snippet : Str → Str
snippet s = let t = trim_space s in if ltb 80 (length t) then take 80 t ++ codes " ..." else t

module _ {F : Type 0} where
  -- the hops, numbered from one more than `i`
  unfoldable pub hops_from : ℕ → List (MtrHub F) → List (TracerouteHop F)
  hops_from i [] = []
  hops_from i (h ∷ hs) =
      (record {
        hop = pos (i + 1);
        host = h.host;
        ip = [];
        asn = h.asn;
        avg_ms = h.avg;
        loss_percent = h.loss;
      })
      ∷ hops_from (suc i) hs

  read_report : Str ⊎ List (MtrHub F) → Str ⊎ List (TracerouteHop F)
  unfolding hops_from
  read_report (inl e) = inl (codes "unmarshal mtr JSON: " ++ e)
  read_report (inr hubs) = inr (hops_from 0 hubs)

  parse_from : Tools F → Str → Option Str → Str ⊎ List (TracerouteHop F)
  unfolding read_report snippet
  parse_from t output none = inl (
      codes
        "unmarshal mtr JSON: no JSON object found in output (mtr may need root or use a different format); first bytes: "
      ++ t.quote (snippet output))
  parse_from t output (some json) = read_report (t.unmarshal json)

  -- `parseMTROutput`, with an error on the left
  unfoldable pub parse_mtr_output : Tools F → Str → Str ⊎ List (TracerouteHop F)
  unfolding parse_from json_start
  parse_mtr_output t output = parse_from t output (json_start output)

  parsed : Str ⊎ List (TracerouteHop F) → Result F → Result F
  parsed (inl e) r = record r { error = codes "parsing mtr output: " ++ e }
  parsed (inr hops) r = record r { hops = hops; success = true }

  ended : Tools F → Exit → Result F → Result F
  unfolding parsed parse_mtr_output
  ended t (crashed stderr e) r =
      let msg = trim_space stderr in
      if not (msg == [])
      then record r { error = codes "mtr: " ++ msg }
      else record r { error = codes "running mtr: " ++ e }
  ended t (exited output) r = parsed (parse_mtr_output t output) r

  configured : Option TracerouteCheckConfig → ℤ → Tools F → Result F → Result F
  unfolding ended arguments
  configured none timeout t r = record r { error = codes "missing traceroute check configuration" }
  configured (some c) timeout t r =
      ended t (t.mtr timeout (arguments c)) (record r { duration = t.elapsed })

  -- `Run` at the instant `now`
  unfoldable pub run : F → ℕ → Tools F → CheckConfig → Option Origin → Result F
  unfolding configured
  run zero_float now t cfg origin =
      configured cfg.traceroute (or_default minute cfg.timeout) t
        (new_result zero_float cfg.name traceroute origin now)
