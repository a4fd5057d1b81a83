-- ===== src/Status/Ring.antt =====
-- internal/status/store.go: `Entry` and the circular buffer `checkRing`.
pub mod Refinement
use technician.Common.{
  ℕ, zero, suc, ◌+◌, ◌%◌, List, [], ◌∷◌, ◌++◌, Bool, true, false, not, ◌||◌, Str, ltb, nat_beq,
  if◌then◌else◌, length, set, take, drop,
}
use technician.Common.Int.{ℤ}
use technician.Config.Kind.{CheckType}

abbrev pub max_history : ℕ
max_history = 90

-- `F` stands for float64, instants are nanoseconds from Go's zero time.
pub record Entry (F : Type 0) : Type 0 where
  pub success : Bool
  pub infra_error : Bool
  pub duration_ms : F
  pub timestamp : ℕ
  pub error : Str
  pub status_code : ℤ
  pub dns_ms : F
  pub tls_ms : F
  pub ttfb_ms : F
  pub ntp_offset_ms : F
  pub cert_days_remaining : ℤ
  pub cert_valid : Bool
  pub cert_expiry : ℕ
  pub icmp_packet_loss : F
  pub grpc_status : Str

pub record Ring (F : Type 0) : Type 0 where
  pub name : Str
  pub typ : CheckType
  pub group : Str
  pub target : Str
  pub entries : List (Entry F)
  pub head : ℕ
  pub full : Bool
  pub down_since : ℕ

module _ {F : Type 0} where
  -- `push`: the write `r.entries[r.head]` is in range in every state that the store reaches
  unfoldable pub push : Ring F → Entry F → Ring F
  push r e =
      if ltb (length r.entries) max_history
      then record r { entries = r.entries ++ e ∷ [] }
      else record r {
        entries = set r.entries r.head e;
        head = (r.head + 1) % max_history;
        full = true;
      }

  -- `ordered`: oldest first
  unfoldable pub ordered : Ring F → List (Entry F)
  ordered r =
      if not r.full || nat_beq r.head 0
      then r.entries
      else drop r.head r.entries ++ take r.head r.entries

  unfoldable pub push_all : Ring F → List (Entry F) → Ring F
  unfolding push
  push_all r [] = r
  push_all r (e ∷ es) = push_all (push r e) es
