-- ===== src/Metrics/Har.antt =====
-- internal/metrics/har.go: the parsing of a HAR file, and the classes of its media types.
pub mod Search
use technician.Common.{
  ℕ, zero, suc, ◌+◌, ◌-◌, ◌⊎◌, inl, inr, Bool, true, false, ◌&&◌, ◌||◌, List, [], ◌∷◌, ◌++◌, map,
  leb, if◌then◌else◌, length, take, drop, ◌==◌, nat_eq, Str, str_eq,
}
use technician.Common.Duration.{add64}
use technician.Common.Int.{ℤ, pos, ltb_ℤ}
use technician.Common.Text.{codes}
use technician.Check.{HarData, HarEntry}

-- An entry of the file, with the fields of its request and response that are used.
pub record HarFileEntry (F : Type 0) : Type 0 where
  pub url : Str
  pub status : ℤ
  pub content_size : ℤ
  pub mime_type : Str
  pub body_size : ℤ
  pub time : F

-- `s[i:i+n]`
abbrev pub slice : Str → ℕ → ℕ → Str
slice s i n = take n (drop i s)

-- the loop of `searchString` from index `i` on, with the rounds that are left
unfoldable pub search_from : ℕ → ℕ → Str → Str → Bool
search_from zero i s substr = false
search_from (suc left) i s substr =
    let rest = search_from left (suc i) s substr in
    if slice s i (length substr) == substr then true else rest

-- `searchString`, where `s` is not shorter
unfoldable pub search_string : Str → Str → Bool
unfolding search_from
search_string s substr = search_from (length s - length substr + 1) 0 s substr

-- `contains`
unfoldable pub contains : Str → Str → Bool
unfolding search_string
contains s substr = leb (length substr) (length s) && search_string s substr

-- `classifyMimeType`
unfoldable pub classify_mime_type : Str → Str
classify_mime_type mime =
    if mime == []
    then codes "other"
    else if contains mime (codes "html")
    then codes "document"
    else if contains mime (codes "javascript") || contains mime (codes "ecmascript")
    then codes "script"
    else if contains mime (codes "css")
    then codes "stylesheet"
    else if contains mime (codes "image")
    then codes "image"
    else if contains mime (codes "font")
        || contains mime (codes "woff")
        || contains mime (codes "ttf")
        || contains mime (codes "otf")
    then codes "font"
    else if contains mime (codes "json") || contains mime (codes "xml")
    then codes "xhr"
    else codes "other"

module _ {F : Type 0} where
  -- the body's size, or the content's if the file does not know it
  abbrev pub transfer_size_of : HarFileEntry F → ℤ
  transfer_size_of e = if ltb_ℤ e.body_size (pos 0) then e.content_size else e.body_size

  unfoldable pub har_entry : HarFileEntry F → HarEntry F
  unfolding classify_mime_type
  har_entry e = record {
    url = e.url;
    resource_type = classify_mime_type e.mime_type;
    duration = e.time;
    transfer_size = transfer_size_of e;
    response_size = e.content_size;
    status = e.status;
  }

  unfoldable pub total_transfer : List (HarFileEntry F) → ℤ → ℤ
  total_transfer [] total = total
  total_transfer (e ∷ es) total = total_transfer es (add64 total (transfer_size_of e))

  read_har : Str ⊎ List (HarFileEntry F) → Str ⊎ HarData F
  unfolding har_entry total_transfer
  read_har (inl e) = inl (codes "parsing HAR: " ++ e)
  read_har (inr es) =
      inr (record { entries = map har_entry es; total_transfer_bytes = total_transfer es (pos 0) })

  -- `ParseHARFile`, of `json.Unmarshal` with its error on the left
  unfoldable pub parse_har_file : (Str → Str ⊎ List (HarFileEntry F)) → Str → Str ⊎ HarData F
  unfolding read_har
  parse_har_file unmarshal bytes = read_har (unmarshal bytes)
