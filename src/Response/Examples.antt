-- ===== src/Response/Examples.antt =====
-- Concrete responses and what `serialize` sends for them.
use lundicpp.Base.{Bytes, ◌≡◌, refl, arith, codes, some}
use lundicpp.Base.Int.{pos}
use lundicpp.Response.{Response, set_header, text_response, serialize}
use lundicpp.Response.Wire.{wire, serialize-wire}

abbrev today : Bytes
today = codes "Tue, 15 Nov 1994 08:12:31 GMT"

abbrev missing : Response
unfolding text_response set_header
missing =
    set_header (codes "connection") (codes "close") (text_response (codes "Not Found") (pos 404))

serialize-wire_example : serialize missing today ≡ some (wire missing today)
unfolding missing
serialize-wire_example = serialize-wire missing today refl (omega arith) (omega arith)

sent :
    wire missing today
    ≡ codes
        "HTTP/1.1 404 Not Found\r\nServer: Lundi\r\nDate: Tue, 15 Nov 1994 08:12:31 GMT\r\nContent-Type: text/plain; charset=utf-8\r\nconnection: close\r\nContent-Length: 9\r\n\r\nNot Found"
unfolding missing lundicpp.Base.Decimal.decimal lundicpp.Response.status_text lundicpp.Base.bytes_eq
sent = refl
