-- ===== src/Status/Page/Serve.antt =====
-- internal/status/handler.go: `serveWithETag` and the routes of `Handler`.
use technician.Common.{
  ℕ, ◌≡◌, ap, ◌∙◌, true, not, Option, none, some, [], ◌∷◌, ◌++◌, arith, nat_beq, if◌then◌else◌,
  ◌==◌, nat_eq, Str, str_eq,
}
use technician.Common.Maps.{Map, insert, lookup_or, lookup_or-insert}
use technician.Common.Text.{codes}

-- What a request has of interest here, and what is written as its answer.
pub record Request : Type 0 where
  pub path : Str
  pub if_none_match : Str

pub record Response : Type 0 where
  pub status : ℕ
  pub headers : Map Str Str
  pub body : Str

-- a text between quotes
abbrev quoted : Str → Str
quoted s = b'"' ∷ (s ++ b'"' ∷ [])

-- `hash` gives the first 8 bytes of the SHA-256 of a body, in hexadecimal digits.
module _ (hash : Str → Str) where
  -- the headers that are set before the test
  abbrev pub tag_headers : Str → Str → Map Str Str
  tag_headers body content_type = insert (codes "ETag") (quoted (hash body)) (
      insert (codes "Cache-Control") (codes "no-cache")
        (insert (codes "Content-Type") content_type []))

  -- `serveWithETag`
  unfoldable pub serve_with_etag : Str → Str → Str → Response
  serve_with_etag if_none_match body content_type =
      let unchanged = if_none_match == quoted (hash body) in
      record {
        status = if unchanged then 304 else 200;
        headers = tag_headers body content_type;
        body = if unchanged then [] else body;
      }

  abbrev plain : ℕ → Str → Response
  plain status body = record { status = status; headers = []; body = body }

  page_of : Request → Option Str → Response
  unfolding serve_with_etag
  page_of r none = plain 500 (codes "template error")
  page_of r (some page) = serve_with_etag r.if_none_match page (codes "text/html; charset=utf-8")

  -- `Handler`, of the JSON of the snapshot and of the page, or `none` if the template fails
  unfoldable pub handle : Str → Option Str → Request → Response
  unfolding page_of
  handle json page r =
      if r.path == codes "/api/status"
      then serve_with_etag r.if_none_match json (codes "application/json")
      else if not (r.path == codes "/")
      then plain 404 (codes "404 page not found")
      else page_of r page

nat_beq_refl : (c : ℕ) → nat_beq c c ≡ true
nat_beq_refl c = ground arith

str_beq-snoc : (c : ℕ) (s t : Str) → (s ++ c ∷ [] == t ++ c ∷ []) ≡ (s == t)
str_beq-snoc c [] [] = ground (arith, nat_beq_refl c)
str_beq-snoc c [] (d ∷ []) = ground arith
str_beq-snoc c [] (d ∷ e ∷ t) = ground arith
str_beq-snoc c (d ∷ []) [] = ground arith
str_beq-snoc c (d ∷ e ∷ s) [] = ground arith
str_beq-snoc c (d ∷ s) (e ∷ t) = ground (arith, str_beq-snoc c s t)

-- The tag of an answer.
abbrev pub etag_of : Response → Str
etag_of r = lookup_or (codes "ETag") [] r.headers

etag_of-serve_with_etag :
    (hash : Str → Str) (m body content_type : Str)
    → etag_of (serve_with_etag hash m body content_type) ≡ quoted (hash body)
unfolding serve_with_etag
etag_of-serve_with_etag hash m body content_type =
    lookup_or-insert (codes "ETag") (codes "ETag") [] (quoted (hash body)) _

-- The answer with a new body to a client that has the tag of an old one.
abbrev pub again : (Str → Str) → Str → Str → Str → Str → Response
again hash m old new content_type =
    serve_with_etag hash (etag_of (serve_with_etag hash m old content_type)) new content_type

-- A client that asks again with the tag of an earlier answer is told that nothing has changed, with no
-- body, exactly when the bodies have the same hash, and else gets the whole new body.
pub serve_with_etag-revalidated :
    (hash : Str → Str) (m old new content_type : Str)
    → ((again hash m old new content_type).status ≡ (if hash old == hash new then 304 else 200))
      × ((again hash m old new content_type).body ≡ (if hash old == hash new then [] else new))
unfolding serve_with_etag
serve_with_etag-revalidated hash m old new content_type =
    let tag = etag_of-serve_with_etag hash m old content_type in
    let same : (quoted (hash old) == quoted (hash new)) ≡ (hash old == hash new) =
      str_beq-snoc b'"' (hash old) (hash new) in
    (
      ap (λ t. if t == quoted (hash new) then 304 else 200) tag
          ∙ ap (λ b. if b then 304 else 200) same,
      ap (λ t. if t == quoted (hash new) then [] else new) tag
          ∙ ap (λ b. if b then [] else new) same,
    )
