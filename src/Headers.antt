-- ===== src/Headers.antt =====
-- flexo/src/http_headers.rs: the headers that are sent to clients. The date is a parameter.
pub mod Declared
pub mod Redirect
use flexo.Base.{ℕ, ◌+◌, ◌-◌, ◌%◌, ◌^◌, List, [], ◌∷◌, ◌++◌, Option, none, some}
use flexo.Base.Text.{Text, codes}
use flexo.Base.Decimal.{to_decimal}
use flexo.Transfer.{u64}

pub data PayloadOrigin : Type 0 where
  cache remote_mirror no_payload : PayloadOrigin

-- the derived `Debug`
abbrev pub origin_name : PayloadOrigin → Text
origin_name cache = codes "Cache"
origin_name remote_mirror = codes "RemoteMirror"
origin_name no_payload = codes "NoPayload"

-- Lines, each with its end, and an empty line behind them.
unfoldable pub lines_text : List Text → Text
lines_text [] = 13 ∷ 10 ∷ []
lines_text (line ∷ lines) = line ++ 13 ∷ 10 ∷ lines_text lines

-- The numbers are u64 that wrap, as in a release build.
-- A minus sign and a slash are 45 and 47.
unfoldable pub content_range_header : ℕ → Option ℕ → List Text
content_range_header content_length none = []
content_range_header content_length (some r) =
    let complete_size = u64 (content_length + r) in
    let last_byte = u64 (complete_size + 2 ^ 64 - 1) in
    (codes "Content-Range: bytes "
      ++ (to_decimal r ++ 45 ∷ (to_decimal last_byte ++ 47 ∷ to_decimal complete_size)))
    ∷ []

unfoldable pub reply_header : Text → ℕ → Option ℕ → PayloadOrigin → Text → Text
unfolding lines_text content_range_header
reply_header status_line content_length resume_from payload_origin timestamp = lines_text (
    (codes "HTTP/1.1 " ++ status_line)
    ∷ codes "Server: flexo"
    ∷ (codes "Date: " ++ timestamp)
    ∷ (codes "Flexo-Payload-Origin: " ++ origin_name payload_origin)
    ∷ (content_range_header content_length resume_from
        ++ (codes "Content-Length: " ++ to_decimal content_length) ∷ []))

unfoldable pub reply_header_success : ℕ → PayloadOrigin → Text → Text
unfolding reply_header
reply_header_success content_length payload_origin now =
    reply_header (codes "200 OK") content_length none payload_origin now

unfoldable pub reply_header_partial : ℕ → ℕ → PayloadOrigin → Text → Text
unfolding reply_header
reply_header_partial content_length resume_from payload_origin now =
    reply_header (codes "206 Partial Content") content_length (some resume_from) payload_origin now

unfoldable pub reply_header_not_found : Text → Text
unfolding reply_header
reply_header_not_found now = reply_header (codes "404 Not Found") 0 none no_payload now

unfoldable pub reply_header_bad_request : Text → Text
unfolding reply_header
reply_header_bad_request now = reply_header (codes "400 Bad Request") 0 none no_payload now

unfoldable pub reply_header_internal_server_error : Text → Text
unfolding reply_header
reply_header_internal_server_error now =
    reply_header (codes "500 Internal Server Error") 0 none no_payload now

unfoldable pub reply_header_forbidden : Text → Text
unfolding reply_header
reply_header_forbidden now = reply_header (codes "403 Forbidden") 0 none no_payload now

unfoldable pub redirect_header : Text → Text → Text
unfolding lines_text
redirect_header path timestamp = lines_text (
    codes "HTTP/1.1 301 Moved Permanently"
    ∷ codes "Server: flexo"
    ∷ (codes "Date: " ++ timestamp)
    ∷ codes "Content-Length: 0"
    ∷ (codes "Location: " ++ path)
    ∷ [])
