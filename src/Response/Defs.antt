-- ===== src/Response/Defs.antt =====
-- The response and its serialisation.
use lundicpp.Base.{
  ℕ, suc, ◌+◌, ◌-◌, ◌^◌, Bytes, List, [], ◌∷◌, ◌++◌, Bool, false, ◌||◌, not, codes, bytes_eq,
  length, take, none, some, ◌==◌, if◌then◌else◌, is_empty, Option,
}
use lundicpp.Base.Int.{ℤ, pos, negsuc}
use lundicpp.Engine.Buffer.{empty_buffer, contents}
use lundicpp.Response.Writer.{Writer, raw, ◌>>◌, nothing, put, put_byte, put_number}

-- `response::preset_content_type`.
pub data PresetContentType : Type 0 where
  no_preset text html json : PresetContentType

pub record HeaderEntry : Type 0 where
  pub name : Bytes
  pub value : Bytes

pub record Response : Type 0 where
  pub status : ℤ
  pub preset_ct : PresetContentType
  pub headers : List HeaderEntry
  pub num_headers : ℕ
  pub body : Bytes

-- `response r;`
abbrev pub new_response : Response
new_response = record {
  status = pos 200;
  preset_ct = no_preset;
  headers = [];
  num_headers = 0;
  body = [];
}

unfoldable pub set_header : Bytes → Bytes → Response → Response
set_header name value r = record r {
  headers = r.headers ++ record { name = name; value = value } ∷ [];
  num_headers = r.num_headers + 1;
}

-- The factory methods `text`, `html` and `json`.
unfoldable pub text_response : Bytes → ℤ → Response
text_response body status = record new_response { status = status; body = body; preset_ct = text }

unfoldable pub html_response : Bytes → ℤ → Response
html_response body status = record new_response { status = status; body = body; preset_ct = html }

unfoldable pub json_response : Bytes → ℤ → Response
json_response body status = record new_response { status = status; body = body; preset_ct = json }

-- `static_cast< uint64_t >( status )`.
abbrev pub to_uint64 : ℤ → ℕ
to_uint64 (pos n) = n
to_uint64 (negsuc n) = 2 ^ 64 - suc n

abbrev pub is_status : ℤ → ℕ → Bool
is_status (pos n) m = n == m
is_status (negsuc n) m = false

-- `status_text`, the switch.
unfoldable pub status_text : ℤ → Bytes
status_text code =
    if is_status code 101
    then codes "Switching Protocols"
    else if is_status code 200
    then codes "OK"
    else if is_status code 201
    then codes "Created"
    else if is_status code 204
    then codes "No Content"
    else if is_status code 301
    then codes "Moved Permanently"
    else if is_status code 302
    then codes "Found"
    else if is_status code 304
    then codes "Not Modified"
    else if is_status code 400
    then codes "Bad Request"
    else if is_status code 401
    then codes "Unauthorized"
    else if is_status code 403
    then codes "Forbidden"
    else if is_status code 404
    then codes "Not Found"
    else if is_status code 405
    then codes "Method Not Allowed"
    else if is_status code 408
    then codes "Request Timeout"
    else if is_status code 413
    then codes "Payload Too Large"
    else if is_status code 429
    then codes "Too Many Requests"
    else if is_status code 500
    then codes "Internal Server Error"
    else if is_status code 502
    then codes "Bad Gateway"
    else if is_status code 503
    then codes "Service Unavailable"
    else codes "Unknown"

unfoldable pub put_status_line : ℤ → Writer
put_status_line status =
    if is_status status 200
    then put (raw (codes "HTTP/1.1 200 OK\r\n") 17)
    else put (raw (codes "HTTP/1.1 ") 9)
      >> put_number (to_uint64 status)
      >> put_byte 32
      >> put (status_text status)
      >> put (raw (codes "\r\n") 2)

unfoldable pub put_content_type : PresetContentType → Writer
put_content_type text = put (raw (codes "Content-Type: text/plain; charset=utf-8\r\n") 41)
put_content_type json = put (raw (codes "Content-Type: application/json; charset=utf-8\r\n") 47)
put_content_type html = put (raw (codes "Content-Type: text/html; charset=utf-8\r\n") 40)
put_content_type no_preset = nothing

abbrev pub is_content_length : Bytes → Bool
is_content_length k = bytes_eq k (codes "Content-Length") || bytes_eq k (codes "content-length")

abbrev pub is_connection : Bytes → Bool
is_connection k = bytes_eq k (codes "Connection") || bytes_eq k (codes "connection")

-- The loop over the headers with its flags `has_cl` and `has_conn`, and what stands behind it.
unfoldable pub put_headers : List HeaderEntry → Bool → Bool → (Bool → Bool → Writer) → Writer
put_headers [] has_cl has_conn after = after has_cl has_conn
put_headers (h ∷ hs) has_cl has_conn after =
    put h.name
    >> put (raw (codes ": ") 2)
    >> put h.value
    >> put (raw (codes "\r\n") 2)
    >> put_headers hs (has_cl || is_content_length h.name) (has_conn || is_connection h.name) after

unfoldable pub put_end : Bytes → Bool → Bool → Writer
put_end body has_cl has_conn =
    (if not has_cl
      then put (raw (codes "Content-Length: ") 16)
        >> put_number (length body)
        >> put (raw (codes "\r\n") 2)
      else nothing)
    >> (if not has_conn then put (raw (codes "Connection: keep-alive\r\n") 24) else nothing)
    >> put (raw (codes "\r\n") 2)
    >> (if not (is_empty body) then put body else nothing)

-- `serialize_into`; `date` is what the date cache shows, `dc.get()` with `dc.length()`. The loop runs
-- over the first `num_headers` of the headers, which are all of them after `set_header`.
unfoldable pub serialize_into : Response → Bytes → Writer
unfolding put_status_line put_content_type put_headers put_end put put_byte put_number nothing
serialize_into r date =
    put_status_line r.status
    >> put (raw (codes "Server: Lundi\r\nDate: ") 21)
    >> put date
    >> put (raw (codes "\r\n") 2)
    >> put_content_type r.preset_ct
    >> put_headers (take r.num_headers r.headers) false false (put_end r.body)

unfoldable pub serialize : Response → Bytes → Option Bytes
unfolding serialize_into
serialize r date = elim (serialize_into r date (empty_buffer (256 + length r.body))) [
  | none ↦ none
  | some b ↦ some (contents b)
]
