-- ===== src/Config/Kind.antt =====
-- internal/config/checks.go: `CheckType`, a string type with named constants.
use technician.Common.{[], List, ◌∷◌, Str, ◌==◌, if◌then◌else◌, arith, str_eq}
use technician.Common.Text.{codes}
use technician.Common.Text.Split.{Free}

-- A value of the string type: one of the constants, or any other text.
pub data CheckType : Type 0 where
  http smtp traceroute playwright tcp dns icmp grpc ntp tls udp bgp domain_expiry websocket :
      CheckType
  other : Str → CheckType

-- `string(t)`
unfoldable pub text : CheckType → Str
text http = codes "http"
text smtp = codes "smtp"
text traceroute = codes "traceroute"
text playwright = codes "playwright"
text tcp = codes "tcp"
text dns = codes "dns"
text icmp = codes "icmp"
text grpc = codes "grpc"
text ntp = codes "ntp"
text tls = codes "tls"
text udp = codes "udp"
text bgp = codes "bgp"
text domain_expiry = codes "domain_expiry"
text websocket = codes "websocket"
text (other s) = s

-- The constants, in the order in which the status page lists them.
abbrev pub all_types : List CheckType
all_types =
    http ∷ tcp ∷ udp ∷ dns ∷ icmp ∷ grpc ∷ ntp ∷ tls ∷ smtp ∷ traceroute ∷ bgp ∷ domain_expiry
    ∷ websocket ∷ playwright ∷ []

find_type : Str → List CheckType → CheckType
unfolding text
find_type s [] = other s
find_type s (t ∷ ts) = if text t == s then t else find_type s ts

-- `CheckType(s)`: a constant's text is that constant.
unfoldable pub of_text : Str → CheckType
unfolding find_type
of_text s = find_type s all_types

-- The types that a loaded check can have.
abbrev pub IsKnown : CheckType → Type 0
IsKnown (other s) = ⊥
IsKnown _ = Unit {0}

-- The name of a known type holds no colon.
pub text-Free : (t : CheckType) → IsKnown t → Free b':' (text t)
unfolding text
text-Free (other s) h = elim h [ ]
text-Free http h = omega arith
text-Free _ h = omega arith
