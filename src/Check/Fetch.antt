-- ===== src/Check/Fetch.antt =====
-- What an HTTP query of a checker meets: net/http and encoding/json, which are not this program's.
use technician.Common.{ℕ, Option, none, some, nat_beq, if◌then◌else◌, nat_eq, Str, str_eq}

-- A body that `json.Decoder` refuses, with the error's text, or the value that it reads.
pub data Decoded (A : Type 0) : Type 0 where
  undecodable : Str → Decoded A
  decoded : A → Decoded A

-- `NewRequestWithContext` fails, `client.Do` fails, or there is a reply with its status.
pub data Fetched (A : Type 0) : Type 0 where
  no_request : Str → Fetched A
  no_reply : Str → Fetched A
  reply : ℕ → Decoded A → Fetched A

-- `http.StatusOK`
abbrev pub status_ok : ℕ
status_ok = 200

-- `http.StatusNotFound`
abbrev pub status_not_found : ℕ
status_not_found = 404

-- What is decoded of a reply with the status 200, and nothing of another answer.
abbrev pub body_of : {A : Type 0} → Fetched A → Option A
body_of (reply status (decoded v)) = if nat_beq status status_ok then some v else none
body_of _ = none
