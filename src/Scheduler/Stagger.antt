-- ===== src/Scheduler/Stagger.antt =====
-- internal/scheduler/stagger.go: the delay that spreads checks over ten seconds. The hash is Go's
-- 32-bit FNV-1a.
use technician.Common.{
  ℕ, ◌*◌, ◌%◌, ◌^◌, ◌<◌, ◌≡◌, refl, sym, ap, ◌∙◌, Option, none, some, [], ◌∷◌, ◌++◌, arith, nat_eq,
  Str, str_eq,
}
use technician.Config.Origin.{Origin}
use Prim.Native.Nat.{bit_xor}

-- one byte of `Write`
abbrev fnv_step : ℕ → ℕ → ℕ
fnv_step h c = (bit_xor h c * 16777619) % 2 ^ 32

unfoldable pub fnv_write : ℕ → Str → ℕ
fnv_write h [] = h
fnv_write h (c ∷ s) = fnv_write (fnv_step h c) s

abbrev fnv_offset : ℕ
fnv_offset = 2166136261

-- `ComputeStagger`, in nanoseconds
unfoldable pub compute_stagger : Str → Option Origin → ℕ
unfolding fnv_write
compute_stagger name none = 0
compute_stagger name (some o) = fnv_write (fnv_write fnv_offset name) o.id % 10000 * 1000000

fnv_write-append : (h : ℕ) (s t : Str) → fnv_write (fnv_write h s) t ≡ fnv_write h (s ++ t)
unfolding fnv_write
fnv_write-append h [] t = refl
fnv_write-append h (c ∷ s) t = fnv_write-append (fnv_step h c) s t

abbrev pub ten_seconds : ℕ
ten_seconds = 10000000000

-- The delay is a whole number of milliseconds below ten seconds, and none without an origin; it goes
-- by the check's name followed by the origin's id, and by nothing else of either.
pub compute_stagger_range :
    (name name' : Str) (o o' : Origin)
    → name ++ o.id ≡ name' ++ o'.id
    → (compute_stagger name (some o) < ten_seconds)
      × (compute_stagger name (some o) % 1000000 ≡ 0)
      × (compute_stagger name (some o) ≡ compute_stagger name' (some o'))
      × (compute_stagger name none ≡ 0)
unfolding compute_stagger
compute_stagger_range name name' o o' e = (
  omega arith,
  omega arith,
  ap (λ h. h % 10000 * 1000000)
      (fnv_write-append fnv_offset name o.id
        ∙ ap (fnv_write fnv_offset) e
        ∙ sym (fnv_write-append fnv_offset name' o'.id)),
  refl,
)
