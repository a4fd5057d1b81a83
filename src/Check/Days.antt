-- ===== src/Check/Days.antt =====
-- The days until an expiry: int(expiry.Sub(now).Hours() / 24) of tls_cert.go and
-- domain_expiration.go, taken exactly and not in float64.
use technician.Common.{ℕ, zero, suc, ◌-◌, ◌/◌, ltb, if◌then◌else◌, nat_eq, str_eq}
use technician.Common.Int.{ℤ, pos, negsuc}

negated : ℕ → ℤ
negated zero = pos 0
negated (suc n) = negsuc n

abbrev pub one_day : ℕ
one_day = 86400000000000

-- whole days, towards 0
unfoldable pub days_until : ℕ → ℕ → ℤ
unfolding negated
days_until now expiry =
    if ltb expiry now then negated ((now - expiry) / one_day) else pos ((expiry - now) / one_day)
