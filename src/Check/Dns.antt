-- ===== src/Check/Dns.antt =====
-- internal/check/dns.go: the DNS checker, of what the resolver answers.
pub mod Verdict
use technician.Common.{
  ℕ, Bool, true, not, ◌&&◌, Option, none, some, List, [], ◌∷◌, ◌++◌, map, ltb, nat_beq,
  if◌then◌else◌, length, select, any, ◌==◌, nat_eq, Str, str_eq,
}
use technician.Common.Text.{codes, contains, decimal, join, joined, to_upper}
use technician.Config.Kind.{dns}
use technician.Config.Origin.{Origin}
use technician.Config.Types.{CheckConfig, DnsCheckConfig}
use technician.Check.{Result, new_result}

-- What a lookup gives: an error's text, or the records.
pub data Looked (A : Type 0) : Type 0 where
  lookup_failed : Str → Looked A
  found : A → Looked A

-- `net.MX` and `net.SRV`
pub record Mx : Type 0 where
  pub pref : ℕ
  pub host : Str

pub record Srv : Type 0 where
  pub priority : ℕ
  pub weight : ℕ
  pub port : ℕ
  pub target : Str

-- A record of a reply of miekg/dns: a `dns.SOA`, or another.
pub data Record : Type 0 where
  soa : (ns mbox : Str) (serial refresh retry expire minttl : ℕ) → Record
  other_record : Record

-- A reply: its code with its name, and the two sections that are read.
pub record Reply : Type 0 where
  pub rcode : ℕ
  pub rcode_text : Str
  pub answer : List Record
  pub authority : List Record

-- The resolver of a server, `net.ParseIP` as a test, whether `net.SplitHostPort` accepts a text,
-- `JoinHostPort`, and the exchange of a question for the SOA of a domain with a server.
pub record Resolver : Type 0 where
  pub lookup_host : Str → Looked (List Str)
  pub lookup_mx : Str → Looked (List Mx)
  pub lookup_txt : Str → Looked (List Str)
  pub lookup_cname : Str → Looked Str
  pub lookup_ns : Str → Looked (List Str)
  pub lookup_srv : Str → Looked (List Srv)
  pub is_ip : Str → Bool
  pub has_port : Str → Bool
  pub join_host_port : Str → Str → Str
  pub exchange : Str → Str → Looked Reply

abbrev answers_of : {A : Type 0} → (A → List Str) → Looked A → Looked (List Str)
answers_of f (lookup_failed e) = lookup_failed e
answers_of f (found a) = found (f a)

mx_text : Mx → Str
mx_text mx = joined (decimal mx.pref ∷ codes " " ∷ mx.host ∷ [])

srv_text : Srv → Str
srv_text s = joined (
    decimal s.priority
    ∷ codes " "
    ∷ decimal s.weight
    ∷ codes " "
    ∷ decimal s.port
    ∷ codes " "
    ∷ s.target
    ∷ [])

-- the addresses of one family, told by the separator
addresses : Resolver → Str → List Str → List Str
addresses v separator addrs = select (λ a. v.is_ip a && contains a separator) addrs

-- the loop over the records
soa_answers : List Record → List Str
soa_answers [] = []
soa_answers (soa ns mbox serial refresh retry expire minttl ∷ rest) =
    joined (
      ns
      ∷ codes " "
      ∷ mbox
      ∷ codes " "
      ∷ decimal serial
      ∷ codes " "
      ∷ decimal refresh
      ∷ codes " "
      ∷ decimal retry
      ∷ codes " "
      ∷ decimal expire
      ∷ codes " "
      ∷ decimal minttl
      ∷ [])
    ∷ soa_answers rest
soa_answers (other_record ∷ rest) = soa_answers rest

some_answers : Str → List Str → Looked (List Str)
some_answers domain [] = lookup_failed (codes "no SOA record found for " ++ domain)
some_answers domain (a ∷ answers) = found (a ∷ answers)

soa_reply : Str → Looked Reply → Looked (List Str)
unfolding soa_answers some_answers
soa_reply domain (lookup_failed e) = lookup_failed e
soa_reply domain (found r) =
    if nat_beq r.rcode 0
    then some_answers domain (soa_answers (r.answer ++ r.authority))
    else lookup_failed (codes "SOA query returned " ++ r.rcode_text)

-- `querySOA`
unfoldable pub query_soa : Resolver → Str → Str → Looked (List Str)
unfolding soa_reply
query_soa v server domain =
    let named = if server == [] then codes "8.8.8.8:53" else server in
    soa_reply domain
      (v.exchange (if v.has_port named then named else v.join_host_port named (codes "53")) domain)

-- the `switch` on the record type, with `none` for its default
unfoldable pub query_records : Resolver → Str → Str → Str → Option (Looked (List Str))
unfolding mx_text srv_text addresses query_soa
query_records v record_type server domain =
    if record_type == codes "A"
    then some (answers_of (addresses v (codes ".")) (v.lookup_host domain))
    else if record_type == codes "AAAA"
    then some (answers_of (addresses v (codes ":")) (v.lookup_host domain))
    else if record_type == codes "MX"
    then some (answers_of (map mx_text) (v.lookup_mx domain))
    else if record_type == codes "TXT"
    then some (v.lookup_txt domain)
    else if record_type == codes "CNAME"
    then some (answers_of (λ name. name ∷ []) (v.lookup_cname domain))
    else if record_type == codes "NS"
    then some (v.lookup_ns domain)
    else if record_type == codes "SRV"
    then some (answers_of (map srv_text) (v.lookup_srv domain))
    else if record_type == codes "SOA"
    then some (query_soa v server domain)
    else none

-- `missing`
unfoldable pub missing_of : List Str → List Str → List Str
missing_of expected answers = select (λ e. not (any (λ a. a == e) answers)) expected

module _ {F : Type 0} where
  -- the comparison with the expected values
  check_expected : DnsCheckConfig → List Str → Result F → Result F
  unfolding missing_of
  check_expected c answers r =
      if ltb 0 (length (missing_of c.expected answers))
      then record r {
        dns_answers = answers;
        error =
            codes "expected values not found in answers: "
            ++ join (codes ", ") (missing_of c.expected answers);
      }
      else record r { dns_answers = answers; success = true }

  queried : DnsCheckConfig → ℕ → Option (Looked (List Str)) → Result F → Result F
  unfolding check_expected
  queried c elapsed none r = record r {
    duration = elapsed;
    error = codes "unsupported record type: " ++ to_upper c.record_type;
  }
  queried c elapsed (some (lookup_failed e)) r = record r {
    duration = elapsed;
    dns_query_time = elapsed;
    error = joined (
        codes "DNS query failed for "
        ∷ to_upper c.record_type
        ∷ codes " "
        ∷ c.domain
        ∷ codes ": "
        ∷ e
        ∷ []);
  }
  queried c elapsed (some (found answers)) r =
      check_expected c answers (record r { duration = elapsed; dns_query_time = elapsed })

  configured : Option DnsCheckConfig → (Str → Resolver) → ℕ → Result F → Result F
  unfolding queried query_records
  configured none resolver elapsed r = record r { error = codes "missing DNS check configuration" }
  configured (some c) resolver elapsed r =
      queried c elapsed
        (query_records (resolver c.server) (to_upper c.record_type) c.server c.domain) r

  -- `Run` at the instant `now`, with the resolver of each server
  unfoldable pub run : F → ℕ → ℕ → (Str → Resolver) → CheckConfig → Option Origin → Result F
  unfolding configured
  run zero_float now elapsed resolver cfg origin =
      configured cfg.dns resolver elapsed (new_result zero_float cfg.name dns origin now)
