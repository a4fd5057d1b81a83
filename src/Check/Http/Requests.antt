-- ===== src/Check/Http/Requests.antt =====
-- internal/check/http.go: the client of a check, and the headers that it sends.
use technician.Common.{
  both, ℕ, ◌≡◌, refl, inl, inr, Bool, true, false, not, ◌&&◌, Option, none, some, List, [], ◌∷◌,
  ◌++◌, map, arith, if◌then◌else◌, Bool-cases, Option-cases, ◌==◌, nat_eq, Str, str_beq_iff, str_eq,
}
use technician.Common.Maps.{Map, lookup, insert, lookup-insert}
use technician.Common.Text.{codes}
use technician.Config.Types.{HttpCheckConfig}
use technician.Config.Convert.{Url}
use technician.Config.Validate.{tls_version}

-- `httpClientKey`
pub record ClientKey : Type 0 where
  pub skip_tls : Bool
  pub follow_redirects : Bool
  pub ip_version : Str
  pub min_tls : Str
  pub max_tls : Str
  pub proxy : Str

-- What `getClient` sets of an `http.Client`: versions as the constants of crypto/tls with 0 for none,
-- the network that every dial uses if one is forced, and whether redirects are followed.
pub record Client : Type 0 where
  pub skip_tls : Bool
  pub min_version : ℕ
  pub max_version : ℕ
  pub proxy : Option Url
  pub network : Option Str
  pub follow_redirects : Bool

-- `ipVersionNetwork`
unfoldable pub ip_version_network : Str → Str
ip_version_network v =
    if v == codes "4" then codes "tcp4" else if v == codes "6" then codes "tcp6" else codes "tcp"

abbrev or_zero : Option ℕ → ℕ
or_zero none = 0
or_zero (some v) = v

-- the client that `getClient` makes for a key; `parse_url` is `url.Parse`
unfoldable pub new_client : (Str → Option Url) → ClientKey → Client
unfolding ip_version_network
new_client parse_url k = record {
  skip_tls = k.skip_tls;
  min_version = or_zero (tls_version k.min_tls);
  max_version = or_zero (tls_version k.max_tls);
  proxy = if k.proxy == [] then none else parse_url k.proxy;
  network =
      if ip_version_network k.ip_version == codes "tcp"
      then none
      else some (ip_version_network k.ip_version);
  follow_redirects = k.follow_redirects;
}

abbrev pub bool_beq : Bool → Bool → Bool
bool_beq true b = b
bool_beq false b = not b

abbrev pub key_beq : ClientKey → ClientKey → Bool
key_beq j k =
    bool_beq j.skip_tls k.skip_tls
    && bool_beq j.follow_redirects k.follow_redirects
    && j.ip_version == k.ip_version
    && j.min_tls == k.min_tls
    && j.max_tls == k.max_tls
    && j.proxy == k.proxy

find_client : ClientKey → List (ClientKey × Client) → Option Client
find_client k [] = none
find_client k ((j, c) ∷ cs) = if key_beq j k then some c else find_client k cs

client_or_new :
    (Str → Option Url)
    → ClientKey
    → List (ClientKey × Client)
    → Option Client
    → List (ClientKey × Client) × Client
unfolding new_client
client_or_new parse_url k clients (some c) = (clients, c)
client_or_new parse_url k clients none =
    ((k, new_client parse_url k) ∷ clients, new_client parse_url k)

-- `getClient`, on the map of clients
unfoldable pub get_client :
    (Str → Option Url) → ClientKey → List (ClientKey × Client) → List (ClientKey × Client) × Client
unfolding find_client client_or_new
get_client parse_url k clients = client_or_new parse_url k clients (find_client k clients)

-- `canonical` is the canonical form of a header's name, and `basic` the value that `SetBasicAuth` gives.
module _ (canonical : Str → Str) (basic : Str → Str → Str) where
  abbrev pub authorization : Str
  authorization = canonical (codes "Authorization")

  -- the loop of `req.Header.Set`
  unfoldable pub set_headers : Map Str Str → Map Str Str → Map Str Str
  set_headers [] h = h
  set_headers ((k, v) ∷ rest) h = set_headers rest (insert (canonical k) v h)

  -- the headers of the request
  unfoldable pub request_headers : HttpCheckConfig → Map Str Str
  unfolding set_headers
  request_headers c = elim c.basic_auth [
    | some a ↦ insert authorization (basic a.username a.password) (set_headers c.headers [])
    | none ↦
        if c.bearer_token == []
        then set_headers c.headers []
        else insert authorization (codes "Bearer " ++ c.bearer_token) (set_headers c.headers [])
  ]

-- Every client in the map is the one that is made for its key.
abbrev pub AreMade : (Str → Option Url) → List (ClientKey × Client) → Type 0
AreMade parse_url [] = Unit {0}
AreMade parse_url ((k, c) ∷ cs) = (c ≡ new_client parse_url k) × AreMade parse_url cs

bool_beq-true : (a b : Bool) → bool_beq a b ≡ true → a ≡ b
bool_beq-true a b h = ground arith

key_beq-true :
    (parse_url : Str → Option Url) (j k : ClientKey)
    → key_beq j k ≡ true
    → new_client parse_url j ≡ new_client parse_url k
unfolding new_client
key_beq-true parse_url j k h =
    let h1 = both _ _ h in
    let h2 = both _ _ h1.0 in
    let h3 = both _ _ h2.0 in
    let h4 = both _ _ h3.0 in
    let h5 = both _ _ h4.0 in
    rw
      (
        bool_beq-true j.skip_tls k.skip_tls h5.0,
        bool_beq-true j.follow_redirects k.follow_redirects h5.1,
        (str_beq_iff j.ip_version k.ip_version).0 h4.1,
        (str_beq_iff j.min_tls k.min_tls).0 h3.1,
        (str_beq_iff j.max_tls k.max_tls).0 h2.1,
        (str_beq_iff j.proxy k.proxy).0 h1.1,
      )
      refl

-- A client that is found is the one made for the key.
find_client-made :
    (parse_url : Str → Option Url) (k : ClientKey) (cs : List (ClientKey × Client)) (c : Client)
    → AreMade parse_url cs
    → find_client k cs ≡ some c
    → c ≡ new_client parse_url k
unfolding find_client
find_client-made parse_url k [] c made e = absurd (ground arith)
find_client-made parse_url k ((j, d) ∷ cs) c made e = elim (Bool-cases (key_beq j k)) [
  | inl t ↦ ground (arith, key_beq-true parse_url j k t, made.0)
  | inr t ↦ find_client-made parse_url k cs c made.1 (ground arith)
]

client_or_new-made :
    (parse_url : Str → Option Url) (k : ClientKey) (cs : List (ClientKey × Client))
    (found : Option Client)
    → AreMade parse_url cs
    → ((c : Client) → found ≡ some c → c ≡ new_client parse_url k)
    → AreMade parse_url (client_or_new parse_url k cs found).0
      × ((client_or_new parse_url k cs found).1 ≡ new_client parse_url k)
unfolding client_or_new
client_or_new-made parse_url k cs none made is_made = ((refl, made), refl)
client_or_new-made parse_url k cs (some c) made is_made = (made, is_made c refl)

-- One call keeps the map and gives the client that is made for the key.
get_client-made :
    (parse_url : Str → Option Url) (k : ClientKey) (cs : List (ClientKey × Client))
    → AreMade parse_url cs
    → AreMade parse_url (get_client parse_url k cs).0
      × ((get_client parse_url k cs).1 ≡ new_client parse_url k)
unfolding get_client
get_client-made parse_url k cs made =
    client_or_new-made parse_url k cs (find_client k cs) made
      (λ c. find_client-made parse_url k cs c made)

-- The clients that checks get one after another.
abbrev pub get_clients :
    (Str → Option Url) → List ClientKey → List (ClientKey × Client) → List Client
unfolding get_client
get_clients parse_url [] cs = []
get_clients parse_url (k ∷ ks) cs =
    (get_client parse_url k cs).1 ∷ get_clients parse_url ks (get_client parse_url k cs).0

-- From a map whose clients are made for their keys, as the empty one, every check gets the client
-- that is made for its own settings, whatever the others asked for before.
pub get_clients-made :
    (parse_url : Str → Option Url) (ks : List ClientKey) (cs : List (ClientKey × Client))
    → AreMade parse_url cs
    → get_clients parse_url ks cs ≡ map (new_client parse_url) ks
unfolding get_clients
get_clients-made parse_url [] cs made = refl
get_clients-made parse_url (k ∷ ks) cs made =
    let one = get_client-made parse_url k cs made in
    rw (one.1, get_clients-made parse_url ks (get_client parse_url k cs).0 one.0) refl

-- The value of the dedicated settings for the header Authorization.
abbrev pub dedicated : (Str → Str → Str) → HttpCheckConfig → Option Str
dedicated basic c = elim c.basic_auth [
  | some a ↦ some (basic a.username a.password)
  | none ↦ if c.bearer_token == [] then none else some (codes "Bearer " ++ c.bearer_token)
]

abbrev pub or_else : Option Str → Option Str → Option Str
or_else none o = o
or_else (some v) o = some v

-- The header Authorization has the value of the dedicated settings if they give one, whatever header
-- the user configures, and every other header has the user's value.
pub lookup-request_headers :
    (canonical : Str → Str) (basic : Str → Str → Str) (c : HttpCheckConfig) (name : Str)
    → lookup name (request_headers canonical basic c) ≡ (
        if canonical (codes "Authorization") == name
        then or_else (dedicated basic c) (lookup name (set_headers canonical basic c.headers []))
        else lookup name (set_headers canonical basic c.headers []))
unfolding request_headers
lookup-request_headers canonical basic c name = elim (Option-cases c.basic_auth) [
  | inl e ↦ rw e (
      ground (
        arith,
        lookup-insert (canonical (codes "Authorization")) name (codes "Bearer " ++ c.bearer_token)
            (set_headers canonical basic c.headers []),
      ))
  | inr (a, e) ↦ rw e (lookup-insert (canonical (codes "Authorization")) name _ _)
]
