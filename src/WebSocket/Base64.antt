-- ===== src/WebSocket/Base64.antt =====
-- ws.hpp: `base64_encode`, with a decoder that gives the bytes back.
use lundicpp.Base.{ℕ, ◌+◌, ◌*◌, ◌/◌, ◌%◌, ◌^◌, Bytes, [], ◌∷◌, codes, get_or}

abbrev pub table : Bytes
table = codes "ABCDEFGHIJKLMNOPQRSTUVWXYZabcdefghijklmnopqrstuvwxyz0123456789+/"

-- `table[ n ]`.
unfoldable pub symbol : ℕ → ℕ
symbol n = get_or table n 0

-- The loop, three bytes a round and what is left in the last; `|` of disjoint fields is `+`.
unfoldable pub base64_encode : Bytes → Bytes
unfolding symbol
base64_encode [] = []
base64_encode (x ∷ []) =
    let n = x * 2 ^ 16 in symbol (n / 2 ^ 18 % 64) ∷ symbol (n / 2 ^ 12 % 64) ∷ b'=' ∷ b'=' ∷ []
base64_encode (x ∷ y ∷ []) =
    let n = x * 2 ^ 16 + y * 2 ^ 8 in
    symbol (n / 2 ^ 18 % 64) ∷ symbol (n / 2 ^ 12 % 64) ∷ symbol (n / 2 ^ 6 % 64) ∷ b'=' ∷ []
base64_encode (x ∷ y ∷ z ∷ rest) =
    let n = x * 2 ^ 16 + y * 2 ^ 8 + z in
    symbol (n / 2 ^ 18 % 64)
    ∷ symbol (n / 2 ^ 12 % 64)
    ∷ symbol (n / 2 ^ 6 % 64)
    ∷ symbol (n % 64)
    ∷ base64_encode rest
