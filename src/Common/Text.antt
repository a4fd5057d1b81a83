-- ===== src/Common/Text.antt =====
-- The functions of Go's `strings`, `strconv` and `fmt` that the program calls, over lists of bytes.
pub mod Split
pub mod Decimal
use Prim.Native.Char.{code}
use Prim.Native.String.{String}
use Prim.Native.Nat.{ℕ, zero, suc, ◌+◌, ◌-◌, ◌%◌, ◌/◌}
use technician.Common.Tests.{if◌then◌else◌, ltb, leb, nat_beq}
use technician.Common.Keys.{Str, str_beq}
use technician.Common.Lists.{length, take, drop}
use mathlib.Core.Bool.{Bool, true, false, ◌&&◌, ◌||◌}
use mathlib.Core.Option.{Option, none, some}
use mathlib.Core.List.{List, [], ◌∷◌, ◌++◌, map, reverse}
use technician.Common.Int.{ℤ, pos, negsuc}

-- The bytes of an ASCII text.
abbrev pub codes : String → Str
codes String.[] = []
codes (String.◌∷◌ c s) = code c ∷ codes s

-- `strings.LastIndex(s, c)`, with `none` for -1
unfoldable pub last_index : ℕ → Str → Option ℕ
last_index c [] = none
last_index c (x ∷ s) = elim (last_index c s) [
  | some i ↦ some (suc i)
  | none ↦ if nat_beq x c then some zero else none
]

-- `strings.HasPrefix(s, p)`
unfoldable pub has_prefix : Str → Str → Bool
has_prefix s [] = true
has_prefix [] (c ∷ p) = false
has_prefix (x ∷ s) (c ∷ p) = nat_beq x c && has_prefix s p

-- `strings.Contains(s, t)`
unfoldable pub contains : Str → Str → Bool
unfolding has_prefix
contains [] t = has_prefix [] t
contains (x ∷ s) t = has_prefix (x ∷ s) t || contains s t

is_space : ℕ → Bool
is_space c = nat_beq c 32 || (leb 9 c && leb c 13)

trim_left : Str → Str
unfolding is_space
trim_left [] = []
trim_left (c ∷ s) = if is_space c then trim_left s else c ∷ s

-- `strings.TrimSpace(s)` on ASCII text
unfoldable pub trim_space : Str → Str
unfolding trim_left
trim_space s = reverse (trim_left (reverse (trim_left s)))

lower : ℕ → ℕ
lower c = if leb b'A' c && leb c b'Z' then c + 32 else c

-- `strings.ToLower(s)` on ASCII text
unfoldable pub to_lower : Str → Str
unfolding lower
to_lower s = map lower s

-- `strings.EqualFold(s, t)` on ASCII text
unfoldable pub equal_fold : Str → Str → Bool
unfolding to_lower
equal_fold s t = str_beq (to_lower s) (to_lower t)

emit : ℕ → ℕ → Str → Str
emit zero n out = out
emit (suc f) n out =
    let rest = emit f (n / 10) ((b'0' + n % 10) ∷ out) in
    if ltb n 10 then (b'0' + n % 10) ∷ out else rest

-- `%d` of a number that is not negative: `suc n` rounds are more than its digits
unfoldable pub decimal : ℕ → Str
unfolding emit
decimal n = emit (suc n) n []

-- `strings.Split(s, sep)` at one byte
unfoldable pub split : ℕ → Str → List Str
split c [] = [] ∷ []
split c (x ∷ s) = elim (split c s) [
  | [] ↦ (x ∷ []) ∷ []
  | w ∷ ws ↦ if nat_beq x c then [] ∷ w ∷ ws else (x ∷ w) ∷ ws
]

-- `%d` of an integer, and `strconv.Itoa`
unfoldable pub itoa : ℤ → Str
itoa (pos n) = decimal n
itoa (negsuc n) = b'-' ∷ decimal (suc n)

-- `strings.Join(parts, sep)`
unfoldable pub join : Str → List Str → Str
join sep [] = []
join sep (s ∷ []) = s
join sep (s ∷ t ∷ ts) = s ++ sep ++ join sep (t ∷ ts)

-- `strings.Join(parts, "")`: the pieces of a formatted text, put together
unfoldable pub joined : List Str → Str
joined [] = []
joined (s ∷ ss) = s ++ joined ss

upper : ℕ → ℕ
upper c = if leb b'a' c && leb c b'z' then c - 32 else c

-- `strings.ToUpper(s)` on ASCII text
unfoldable pub to_upper : Str → Str
unfolding upper
to_upper s = map upper s
