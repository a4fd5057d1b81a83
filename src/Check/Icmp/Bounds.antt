-- ===== src/Check/Icmp/Bounds.antt =====
-- How many probes are sent and answered, and how the round-trip times compare.
use technician.Common.{
  ℕ, zero, suc, ◌+◌, ◌*◌, ◌≤◌, ◌≡◌, refl, ◌∙◌, ◌⊎◌, inl, inr, Bool, Option, none, some, List, [],
  ◌∷◌, arith, ltb, if◌then◌else◌, Option-cases, if-elim, length, length-append, nat_eq, Str, str_eq,
}
use native.Mathlib.Nat.{le-div_iff_mul-le, div-le_of_le-mul}
use technician.Common.Int.{ℤ, pos}
use technician.Common.Float.{Floats}
use technician.Config.Kind.{icmp}
use technician.Config.Origin.{Origin}
use technician.Config.Types.{CheckConfig, IcmpCheckConfig}
use technician.Check.{Result, new_result}
use technician.Check.Icmp.{
  Exchange, send_ping, append_rtt, ping_loop, rtt_stats, summary, probe_count, Sockets, run,
  configured, ip_network, resolved, listened, ping_all, open_socket,
}

module _ (id : ℤ) (probes : ℕ → Exchange) (done : ℕ → Bool) where
  abbrev Counted : ℕ → ℕ → List ℕ → ℕ × List ℕ → Type 0
  Counted left sent rtts out =
      (sent ≤ out.0) × ((out.0 ≤ sent + left) × (length out.1 + sent ≤ length rtts + out.0))

  length-append_rtt :
      (o : Option ℕ) (rtts : List ℕ) → length (append_rtt id probes done o rtts) ≤ suc (length rtts)
  unfolding append_rtt
  length-append_rtt none rtts = omega arith
  length-append_rtt (some rtt) rtts = omega (arith, length-append rtts (rtt ∷ []))

  ping_loop-Counted :
      (left seq sent : ℕ) (rtts : List ℕ)
      → Counted left sent rtts (ping_loop id probes done left seq sent rtts)
  unfolding ping_loop
  ping_loop-Counted zero seq sent rtts = (omega arith, (omega arith, omega arith))
  ping_loop-Counted (suc left) seq sent rtts =
      let rtts' = append_rtt id probes done (send_ping id (pos seq) (probes seq)) rtts in
      let more = ping_loop-Counted left (suc seq) (suc sent) rtts' in
      let one = length-append_rtt (send_ping id (pos seq) (probes seq)) rtts in
      if-elim (Counted (suc left) sent rtts) (done seq)
        (λ t. (omega arith, (omega arith, omega arith)))
        (λ t. (omega (arith, more.0), (omega (arith, more.1.0), omega (arith, more.1.1, one))))

-- Every element is within the bounds.
abbrev pub Within : ℕ → ℕ → List ℕ → Type 0
Within low high [] = Unit {0}
Within low high (x ∷ xs) = ((low ≤ x) × (x ≤ high)) × Within low high xs

abbrev pub sum : List ℕ → ℕ
sum [] = 0
sum (x ∷ xs) = x + sum xs

lesser : (x low : ℕ) → ((if ltb x low then x else low) ≤ x) × ((if ltb x low then x else low) ≤ low)
lesser x low = ground arith

greater :
    (x high : ℕ)
    → (x ≤ (if ltb high x then x else high)) × (high ≤ (if ltb high x then x else high))
greater x high = ground arith

-- What the loop over the times leaves.
rtt_stats-bounds :
    (total low high : ℕ) (xs : List ℕ)
    → ((rtt_stats total low high xs).0 ≡ total + sum xs)
      × (((rtt_stats total low high xs).1.0 ≤ low)
          × ((high ≤ (rtt_stats total low high xs).1.1)
              × Within (rtt_stats total low high xs).1.0 (rtt_stats total low high xs).1.1 xs))
unfolding rtt_stats
rtt_stats-bounds total low high [] = (omega arith, (omega arith, (omega arith, tt)))
rtt_stats-bounds total low high (x ∷ xs) =
    let rest =
      rtt_stats-bounds (total + x) (if ltb x low then x else low) (if ltb high x then x else high)
        xs in
    let least = lesser x low in
    let most = greater x high in
    (
      rest.0 ∙ omega arith,
      (
        omega (arith, rest.1.0, least.1),
        (
          omega (arith, rest.1.1.0, most.1),
          ((omega (arith, rest.1.0, least.0), omega (arith, rest.1.1.0, most.0)), rest.1.1.1),
        ),
      ),
    )

sum-bounds :
    (low high : ℕ) (xs : List ℕ)
    → Within low high xs
    → (low * length xs ≤ sum xs) × (sum xs ≤ length xs * high)
sum-bounds low high [] w = (omega arith, omega arith)
sum-bounds low high (x ∷ xs) w =
    let rest = sum-bounds low high xs w.1 in
    (grind (arith, rest.0, w.0.0), grind (arith, rest.1, w.0.1))

-- What the figures of a result have to satisfy when at most `count` probes are sent.
pub record Figures {F : Type 0} (count : ℕ) (r : Result F) : Type 0 where
  pub received : r.icmp_packets_recv ≤ r.icmp_packets_sent
  pub sent : r.icmp_packets_sent ≤ count
  pub succeeds : r.success ≡ ltb 0 r.icmp_packets_recv
  pub min_avg : r.icmp_min_rtt ≤ r.icmp_avg_rtt
  pub avg_max : r.icmp_avg_rtt ≤ r.icmp_max_rtt

abbrev pub probes_of : Option IcmpCheckConfig → ℕ
probes_of none = 0
probes_of (some c) = probe_count c.count

module _ {F : Type 0} (fl : Floats F) where
  summary-Figures :
      (count sent : ℕ) (rtts : List ℕ) (r : Result F)
      → length rtts ≤ sent
      → sent ≤ count
      → Figures count r
      → r.icmp_packets_recv ≡ 0
      → Figures count (summary fl sent rtts r)
  unfolding summary
  summary-Figures count sent [] r few most f none_yet = record {
    received = few;
    sent = most;
    succeeds = rw (f.succeeds, none_yet) refl;
    min_avg = f.min_avg;
    avg_max = f.avg_max;
  }
  summary-Figures count sent (first ∷ more) r few most f none_yet =
      let stats = rtt_stats 0 first first (first ∷ more) in
      let b = rtt_stats-bounds 0 first first (first ∷ more) in
      let s = sum-bounds stats.1.0 stats.1.1 (first ∷ more) b.1.1.1 in
      record {
        received = few;
        sent = most;
        succeeds = ground arith;
        min_avg = (le-div_iff_mul-le (omega arith)).1 (omega (arith, b.0, s.0));
        avg_max = div-le_of_le-mul (length (first ∷ more)) (omega (arith, b.0, s.1));
      }

  rewritten :
      (count elapsed : ℕ) (e : Str) (r : Result F)
      → Figures count r
      → Figures count (record r { duration = elapsed; error = e })
  rewritten count elapsed e r f = record {
    received = f.received;
    sent = f.sent;
    succeeds = f.succeeds;
    min_avg = f.min_avg;
    avg_max = f.avg_max;
  }

  -- A result before any probe.
  blank :
      (count : ℕ) (zero_float : F) (name : Str) (origin : Option Origin) (now : ℕ)
      → Figures count (new_result zero_float name icmp origin now)
  blank count zero_float name origin now = record {
    received = omega arith;
    sent = omega arith;
    succeeds = refl;
    min_avg = omega arith;
    avg_max = omega arith;
  }

  resolved-Figures :
      (found : Str ⊎ Bool) (c : IcmpCheckConfig) (s : Sockets) (id : ℤ) (probes : ℕ → Exchange)
      (done : ℕ → Bool) (elapsed : ℕ) (r : Result F)
      → Figures (probe_count c.count) r
      → r.icmp_packets_recv ≡ 0
      → Figures (probe_count c.count) (resolved fl found s c id probes done elapsed r)
  unfolding resolved listened ping_all
  resolved-Figures (inl x) c s id probes done elapsed r f e =
      rewritten (probe_count c.count) r.duration _ r f
  resolved-Figures (inr v6) c s id probes done elapsed r f e =
      elim (Option-cases (open_socket fl s v6)) [
        | inl none_left ↦ rw none_left (
            let counted = ping_loop-Counted id probes done (probe_count c.count) 0 0 [] in
            summary-Figures (probe_count c.count) _ _ (record r { duration = elapsed })
              (omega (arith, counted.1.1)) (omega (arith, counted.1.0))
              (rewritten (probe_count c.count) elapsed r.error r f) e)
        | inr (x, e2) ↦ rw e2 (rewritten (probe_count c.count) r.duration _ r f)
      ]

  configured-Figures :
      (cfg : Option IcmpCheckConfig) (s : Sockets) (id : ℤ) (probes : ℕ → Exchange)
      (done : ℕ → Bool) (elapsed : ℕ) (r : Result F)
      → Figures (probes_of cfg) r
      → r.icmp_packets_recv ≡ 0
      → Figures (probes_of cfg) (configured fl cfg s id probes done elapsed r)
  unfolding configured
  configured-Figures none s id probes done elapsed r f e = rewritten 0 r.duration _ r f
  configured-Figures (some c) s id probes done elapsed r f e =
      resolved-Figures (s.resolve (ip_network c.ip_version) c.host) c s id probes done elapsed r f e

-- Whatever the network answers, a run of the ICMP checker receives no more replies than it sends
-- probes, and sends no more than the configured count; it succeeds exactly when it receives a reply;
-- and the average of its round-trip times lies between the least and the greatest.
pub run-Figures :
    {F : Type 0} (fl : Floats F) (zero_float : F) (now elapsed : ℕ) (s : Sockets) (id : ℤ)
    (probes : ℕ → Exchange) (done : ℕ → Bool) (cfg : CheckConfig) (origin : Option Origin)
    → Figures (probes_of cfg.icmp) (run fl zero_float now elapsed s id probes done cfg origin)
unfolding run
run-Figures fl zero_float now elapsed s id probes done cfg origin =
    configured-Figures fl cfg.icmp s id probes done elapsed _
      (blank fl (probes_of cfg.icmp) zero_float cfg.name origin now) refl
