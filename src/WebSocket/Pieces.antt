-- ===== src/WebSocket/Pieces.antt =====
-- A hash fed in pieces, and the text of the handshake.
use lundicpp.Base.{
  ℕ, suc, ◌+◌, ◌%◌, ◌^◌, ◌<◌, ◌≡◌, refl, sym, ap, ◌∙◌, Bytes, [], ◌∷◌, ◌++◌, ◌==◌, if◌then◌else◌,
  length, arith, length-append, codes,
}
use lundicpp.Engine.Buffer.{Buffer, empty_buffer, append, contents}
use lundicpp.Engine.Buffer.Laws.{Holds, append-Holds, empty_buffer-Holds}
use lundicpp.Request.{Request}
use lundicpp.Request.Lookup.{header}
use lundicpp.Response.{raw}
use lundicpp.WebSocket.Sha1.{Sha1, new_sha1, update_loop, update, finalize}
use lundicpp.WebSocket.Base64.{base64_encode}
use lundicpp.WebSocket.Handshake.{magic, ws_accept_key, ws_handshake_response}

-- The lines of the answer up to the key.
abbrev pub response_lines : Bytes
response_lines =
    codes
      "HTTP/1.1 101 Switching Protocols\r\nUpgrade: websocket\r\nConnection: Upgrade\r\nSec-WebSocket-Accept: "

update_loop-append :
    (a b : Bytes) (idx : ℕ) (h : Sha1)
    → idx < 64
    → update_loop (a ++ b) idx h ≡ update_loop b ((idx + length a) % 64) (update_loop a idx h)
unfolding update_loop
update_loop-append [] b idx h lt = let same : (idx + 0) % 64 ≡ idx = omega arith in rw same refl
update_loop-append (x ∷ a) b idx h lt =
    let next : ℕ = if idx + 1 == 64 then 0 else idx + 1 in
    let small : next < 64 = ground arith in
    let same : (idx + suc (length a)) % 64 ≡ (next + length a) % 64 = ground arith in
    rw same (update_loop-append a b next _ small)

-- The count plays no part in the loop.
update_loop-count :
    (a : Bytes) (idx c : ℕ) (h : Sha1)
    → update_loop a idx (record h { count = c }) ≡ record (update_loop a idx h) { count = c }
unfolding update_loop
update_loop-count [] idx c h = refl
update_loop-count (x ∷ a) idx c h = update_loop-count a _ c _

-- Data fed in two pieces has the same effect as the whole, from every state of the hash.
pub update-append : (a b : Bytes) (h : Sha1) → update (a ++ b) h ≡ update b (update a h)
unfolding update
update-append a b h =
    let c1 = (h.count + length a) % 2 ^ 64 in
    let c2 = (h.count + length (a ++ b)) % 2 ^ 64 in
    let i = h.count % 64 in
    let total : (c1 + length b) % 2 ^ 64 ≡ c2 = omega (arith, length-append a b) in
    let index : c1 % 64 ≡ (i + length a) % 64 = omega arith in
    update_loop-append a b i (record h { count = c2 }) (omega arith)
    ∙ (rw (update_loop-count a i c2 h, update_loop-count a i c1 h, total, index) refl)

add-Holds : (t : Bytes) (b : Buffer) (s : Bytes) → Holds b s → Holds (append t b) (s ++ t)
add-Holds t b s h = rw (← h.held) (append-Holds t b h.valid)

six_appends :
    (o p q r s t : Bytes) (n : ℕ)
    → contents (append t (append s (append r (append q (append p (append o (empty_buffer n)))))))
      ≡ ((((([] ++ o) ++ p) ++ q) ++ r) ++ s) ++ t
six_appends o p q r s t n =
    (add-Holds t _ _ (
      add-Holds s _ _ (
        add-Holds r _ _
          (add-Holds q _ _ (add-Holds p _ _ (add-Holds o _ _ (empty_buffer-Holds n))))))).held

response_around :
    (accept : Bytes)
    → contents (
        append (raw (codes "\r\n\r\n") 4) (
          append accept (
            append (raw (codes "Sec-WebSocket-Accept: ") 22) (
              append (raw (codes "Connection: Upgrade\r\n") 21) (
                append (raw (codes "Upgrade: websocket\r\n") 20) (
                  append
                    (raw (codes "HTTP/1.1 101 Switching Protocols\r\n") 34)
                    (empty_buffer 256)))))))
      ≡ response_lines ++ (accept ++ codes "\r\n\r\n")
response_around accept = six_appends _ _ _ _ accept _ 256

accept_whole :
    (key : Bytes) → ws_accept_key key ≡ base64_encode (finalize (update (key ++ magic) new_sha1))
unfolding ws_accept_key
accept_whole key = ap (λ h. base64_encode (finalize h)) (sym (update-append key magic new_sha1))

-- The answer to an upgrade: the fixed lines, and the base64 of the hash of the client's key followed by
-- the constant, whatever the key.
pub ws_handshake_response-text :
    (req : Request)
    → ws_handshake_response req
      ≡ response_lines
        ++ (base64_encode
              (finalize (update (header (codes "sec-websocket-key") req.headers ++ magic) new_sha1))
            ++ codes "\r\n\r\n")
unfolding ws_handshake_response
ws_handshake_response-text req =
    let key = header (codes "sec-websocket-key") req.headers in
    response_around (ws_accept_key key)
    ∙ ap (λ a. response_lines ++ (a ++ codes "\r\n\r\n")) (accept_whole key)
