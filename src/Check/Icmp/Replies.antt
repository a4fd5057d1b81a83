-- ===== src/Check/Icmp/Replies.antt =====
-- Which packet ends the wait for a reply.
use technician.Common.{
  ℕ, ◌-◌, ◌≡◌, refl, inl, inr, none, some, List, [], ◌∷◌, Bool-cases, select, nat_eq, str_eq,
}
use technician.Common.Int.{ℤ, int_eq}
use technician.Config.Origin.{first_of}
use technician.Check.Icmp.{Packet, is_reply, instant_of, await}

-- The wait ends with the first packet that is a reply to the probe.
pub await-first_of :
    (id seq : ℤ) (start : ℕ) (ps : List Packet)
    → await id seq start ps ≡ elim (first_of (select (is_reply id seq) ps)) [
      | none ↦ none
      | some p ↦ some (instant_of p - start)
    ]
unfolding await
await-first_of id seq start [] = refl
await-first_of id seq start (p ∷ ps) = elim (Bool-cases (is_reply id seq p)) [
  | inl e ↦ rw e refl
  | inr e ↦ rw e (await-first_of id seq start ps)
]
