-- ===== src/Check/Grpc/Connections.antt =====
-- `getConn` over many calls: the connection that each key keeps.
use technician.Common.{
  ◌≡◌, refl, subst, ◌↔◌, ◌⊎◌, inl, inr, Bool, true, Option, none, some, List, [], ◌∷◌, arith,
  if◌then◌else◌, Bool-cases, nat_eq, Str, str_beq_iff, str_eq,
}
use technician.Check.Http.Requests.{bool_beq}
use technician.Check.Grpc.{
  ConnKey, Credentials, conn_key_beq, credentials_of, find_conn, keep_made, conn_or_made, get_conn,
}

-- One call of `getConn`: its key, and what the library would answer to it.
abbrev pub Call : Type 0 → Type 0
Call C = (Str → Credentials → Str ⊎ C) × ConnKey

bool_beq_iff : (a b : Bool) → (bool_beq a b ≡ true) ↔ (a ≡ b)
bool_beq_iff a b = ground arith

pub conn_key_beq_iff : (j k : ConnKey) → (conn_key_beq j k ≡ true) ↔ (j ≡ k)
conn_key_beq_iff j k =
    ground (
      arith,
      str_beq_iff j.host k.host,
      bool_beq_iff j.tls k.tls,
      bool_beq_iff j.skip_tls k.skip_tls,
    )

module _ {C : Type 0} where
  -- the connection that the library makes for a call, if it makes one
  abbrev pub made_by : Call C → Option C
  made_by (new_client, k) = elim (new_client k.host (credentials_of k.tls k.skip_tls)) [
    | inl e ↦ none
    | inr c ↦ some c
  ]

  abbrev pub or_made : Option C → Option C → Option C
  or_made (some c) later = some c
  or_made none later = later

  -- the first connection that is made for a key
  abbrev pub first_made : ConnKey → List (Call C) → Option C
  first_made k [] = none
  first_made k (call ∷ calls) =
      if conn_key_beq call.1 k
      then or_made (made_by call) (first_made k calls)
      else first_made k calls

  -- the map after a sequence of calls
  unfoldable pub get_conns : List (Call C) → List (ConnKey × C) → List (ConnKey × C)
  get_conns [] conns = conns
  get_conns ((new_client, k) ∷ calls) conns = get_conns calls (get_conn new_client k conns).0

  own :
      (new_client : Str → Credentials → Str ⊎ C) (k : ConnKey) (conns : List (ConnKey × C))
      → find_conn k (get_conn new_client k conns).0
        ≡ or_made (find_conn k conns) (made_by (new_client, k))
  unfolding get_conn find_conn conn_or_made keep_made
  own new_client k conns = ground (arith, (conn_key_beq_iff k k).1 refl)

  find_conn-get_conn :
      (new_client : Str → Credentials → Str ⊎ C) (j k : ConnKey) (conns : List (ConnKey × C))
      → find_conn k (get_conn new_client j conns).0
        ≡ or_made (find_conn k conns) (if conn_key_beq j k then made_by (new_client, j) else none)
  unfolding get_conn find_conn conn_or_made keep_made
  find_conn-get_conn new_client j k conns = elim (Bool-cases (conn_key_beq j k)) [
    | inl same ↦
        let e : j ≡ k = (conn_key_beq_iff j k).0 same in
        rw same (
          subst
            (λ q.
              find_conn q (get_conn new_client j conns).0
              ≡ or_made (find_conn q conns) (made_by (new_client, j)))
            e (own new_client j conns))
    | inr other ↦ ground (arith, other)
  ]

  -- After any calls of `getConn`, a key has the connection that it had, or else the first one that
  -- could be made for it: a failure is not kept, and no key gets the connection of another.
  pub get_conns-first_made :
      (calls : List (Call C)) (k : ConnKey) (conns : List (ConnKey × C))
      → find_conn k (get_conns calls conns) ≡ or_made (find_conn k conns) (first_made k calls)
  unfolding get_conns
  get_conns-first_made [] k conns = ground arith
  get_conns-first_made ((new_client, j) ∷ calls) k conns = ground (
    arith,
    get_conns-first_made calls k (get_conn new_client j conns).0,
    find_conn-get_conn new_client j k conns,
  )
