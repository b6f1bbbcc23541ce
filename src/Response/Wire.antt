-- ===== src/Response/Wire.antt =====
-- The text of a response on the wire, and that `serialize_into` writes it.
use lundicpp.Base.{
  ◌^◌, ◌<◌, ◌≡◌, ap, Bytes, List, [], ◌∷◌, ◌++◌, Bool, false, ◌||◌, not, codes, length, take,
  if◌then◌else◌, is_empty, some, ◌+◌, length-append, append_assoc, append-nil, Bool-cases, inl, inr,
  arith,
}
use mathlib.Core.Bool.{or-false, or_assoc}
use lundicpp.Base.Int.{ℤ}
use lundicpp.Base.Decimal.{decimal}
use lundicpp.Base.Find.{take_all}
use lundicpp.Engine.Buffer.{empty_buffer}
use lundicpp.Engine.Buffer.Laws.{empty_buffer-Holds}
use lundicpp.Response.Writer.{
  Writer, Writes, ◌>>◌, nothing, put, put_number, Writes->>, Writes-nothing, Writes-put,
  Writes-put_byte, Writes-put_number,
}
use lundicpp.Response.Defs.{
  Response, HeaderEntry, PresetContentType, no_preset, text, html, json, is_status, to_uint64,
  status_text, put_status_line, put_content_type, is_content_length, is_connection, put_headers,
  put_end, serialize_into, serialize, set_header,
}

abbrev pub crlf : Bytes
crlf = codes "\r\n"

abbrev pub status_line : ℤ → Bytes
status_line status =
    if is_status status 200
    then codes "HTTP/1.1 200 OK\r\n"
    else codes "HTTP/1.1 "
      ++ (decimal (to_uint64 status) ++ (32 ∷ [] ++ (status_text status ++ crlf)))

abbrev pub content_type_line : PresetContentType → Bytes
content_type_line no_preset = []
content_type_line text = codes "Content-Type: text/plain; charset=utf-8\r\n"
content_type_line html = codes "Content-Type: text/html; charset=utf-8\r\n"
content_type_line json = codes "Content-Type: application/json; charset=utf-8\r\n"

abbrev pub header_lines : List HeaderEntry → Bytes
header_lines [] = []
header_lines (h ∷ hs) = h.name ++ (codes ": " ++ (h.value ++ (crlf ++ header_lines hs)))

-- Whether a header of the response has a name that the test accepts.
abbrev pub any_name : (Bytes → Bool) → List HeaderEntry → Bool
any_name test [] = false
any_name test (h ∷ hs) = test h.name || any_name test hs

-- The body behind the blank line, with the two lines that the server adds where the response has none
-- of that name.
abbrev pub ending : List HeaderEntry → Bytes → Bytes
ending hs body =
    (if any_name is_content_length hs
      then []
      else codes "Content-Length: " ++ (decimal (length body) ++ crlf))
    ++ ((if any_name is_connection hs then [] else codes "Connection: keep-alive\r\n")
        ++ (crlf ++ body))

-- The whole text.
abbrev pub wire : Response → Bytes → Bytes
wire r date =
    status_line r.status
    ++ (codes "Server: Lundi\r\nDate: "
        ++ (date
            ++ (crlf
                ++ (content_type_line r.preset_ct
                    ++ (header_lines r.headers ++ ending r.headers r.body)))))

Writes-status_line :
    (status : ℤ) → to_uint64 status < 2 ^ 64 → Writes (put_status_line status) (status_line status)
unfolding put_status_line
Writes-status_line status fits = elim (Bool-cases (is_status status 200)) [
  | inl e ↦ rw e (Writes-put (codes "HTTP/1.1 200 OK\r\n"))
  | inr e ↦ rw e (
      Writes->> _ _ (Writes-put (codes "HTTP/1.1 ")) (
        Writes->> _ _ (Writes-put_number (to_uint64 status) fits) (
          Writes->> _ _ (Writes-put_byte 32)
            (Writes->> _ _ (Writes-put (status_text status)) (Writes-put crlf)))))
]

Writes-content_type : (ct : PresetContentType) → Writes (put_content_type ct) (content_type_line ct)
unfolding put_content_type
Writes-content_type no_preset = Writes-nothing
Writes-content_type text = Writes-put (content_type_line text)
Writes-content_type html = Writes-put (content_type_line html)
Writes-content_type json = Writes-put (content_type_line json)

-- The loop hands the two flags on: those at entry, or a header of that name.
Writes-headers :
    (hs : List HeaderEntry) (cl conn : Bool) (after : Bool → Bool → Writer) (t : Bytes)
    → Writes (after (cl || any_name is_content_length hs) (conn || any_name is_connection hs)) t
    → Writes (put_headers hs cl conn after) (header_lines hs ++ t)
unfolding put_headers
Writes-headers [] cl conn after t w = rw (or-false, or-false) at w
Writes-headers (h ∷ hs) cl conn after t w =
    let rest =
      Writes-headers hs (cl || is_content_length h.name) (conn || is_connection h.name) after t
        (rw (or_assoc cl (is_content_length h.name) _, or_assoc conn (is_connection h.name) _) w) in
    let line : header_lines (h ∷ hs) ++ t
        ≡ h.name ++ (codes ": " ++ (h.value ++ (crlf ++ (header_lines hs ++ t)))) =
      simp append_assoc in
    rw line (
      Writes->> _ _ (Writes-put h.name) (
        Writes->> _ _ (Writes-put (codes ": "))
          (Writes->> _ _ (Writes-put h.value) (Writes->> _ _ (Writes-put crlf) rest))))

Writes-end :
    (hs : List HeaderEntry) (body : Bytes)
    → length body < 2 ^ 64
    → Writes
        (put_end body (any_name is_content_length hs) (any_name is_connection hs))
        (ending hs body)
unfolding put_end
Writes-end hs body fits =
    Writes->> _ _ length_line
      (Writes->> _ _ connection_line (Writes->> _ _ (Writes-put crlf) (body_text body)))
  where
    length_line :
        Writes
          (if not (any_name is_content_length hs)
            then put (codes "Content-Length: ") >> put_number (length body) >> put crlf
            else nothing)
          (if any_name is_content_length hs
            then []
            else codes "Content-Length: " ++ (decimal (length body) ++ crlf))
    length_line = elim (Bool-cases (any_name is_content_length hs)) [
      | inl e ↦ rw e Writes-nothing
      | inr e ↦ rw e (
          Writes->> _ _ (Writes-put (codes "Content-Length: "))
            (Writes->> _ _ (Writes-put_number (length body) fits) (Writes-put crlf)))
    ]

    connection_line :
        Writes
          (if not (any_name is_connection hs)
            then put (codes "Connection: keep-alive\r\n")
            else nothing)
          (if any_name is_connection hs then [] else codes "Connection: keep-alive\r\n")
    connection_line = elim (Bool-cases (any_name is_connection hs)) [
      | inl e ↦ rw e Writes-nothing
      | inr e ↦ rw e (Writes-put (codes "Connection: keep-alive\r\n"))
    ]

    body_text : (t : Bytes) → Writes (if not (is_empty t) then put t else nothing) t
    body_text [] = Writes-nothing
    body_text (c ∷ t) = Writes-put (c ∷ t)

-- `set_header` keeps the count of the headers.
abbrev pub IsCounted : Response → Type 0
IsCounted r = r.num_headers ≡ length r.headers

pub Writes-serialize_into :
    (r : Response) (date : Bytes)
    → IsCounted r
    → to_uint64 r.status < 2 ^ 64
    → length r.body < 2 ^ 64
    → Writes (serialize_into r date) (wire r date)
unfolding serialize_into
Writes-serialize_into r date counted fits_status fits_body =
    let all : take r.num_headers r.headers ≡ r.headers =
      take_all r.num_headers r.headers (omega arith) in
    rw all (
      Writes->> _ _ (Writes-status_line r.status fits_status) (
        Writes->> _ _ (Writes-put (codes "Server: Lundi\r\nDate: ")) (
          Writes->> _ _ (Writes-put date) (
            Writes->> _ _ (Writes-put crlf) (
              Writes->> _ _ (Writes-content_type r.preset_ct) (
                Writes-headers r.headers false false (put_end r.body) (ending r.headers r.body)
                  (Writes-end r.headers r.body fits_body)))))))

-- A response whose count is right is written without a fault, and what is sent is the status line, the
-- date, the content type, the headers in order, then a length and a connection line where no header
-- has that name, then the blank line and the body; the status and the length fit in 64 bits.
pub serialize-wire :
    (r : Response) (date : Bytes)
    → IsCounted r
    → to_uint64 r.status < 2 ^ 64
    → length r.body < 2 ^ 64
    → serialize r date ≡ some (wire r date)
unfolding serialize
serialize-wire r date counted fits_status fits_body =
    let (b, e, h) =
      Writes-serialize_into r date counted fits_status fits_body
        (empty_buffer (256 + length r.body)) [] (empty_buffer-Holds (256 + length r.body)) in
    rw (e, serialize) (ap some h.held)

-- Setting a header keeps the count right and adds one line behind the headers before it.
pub set_header-IsCounted :
    (name value : Bytes) (r : Response)
    → IsCounted r
    → IsCounted (set_header name value r)
      × (header_lines (set_header name value r).headers
          ≡ header_lines r.headers ++ (name ++ (codes ": " ++ (value ++ crlf))))
unfolding set_header
set_header-IsCounted name value r h = (
  omega (arith, h, length-append r.headers (record { name = name; value = value } ∷ [])),
  header_lines-append r.headers,
)
  where
    header_lines-append :
        (hs : List HeaderEntry)
        → header_lines (hs ++ record { name = name; value = value } ∷ [])
          ≡ header_lines hs ++ (name ++ (codes ": " ++ (value ++ crlf)))
    header_lines-append [] = simp append-nil
    header_lines-append (k ∷ hs) = simp (header_lines-append hs, append_assoc)
