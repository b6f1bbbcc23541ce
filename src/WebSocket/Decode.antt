-- ===== src/WebSocket/Decode.antt =====
-- Base64 taken apart, and digests of texts that are fed in pieces.
use lundicpp.Base.{
  ℕ, ◌+◌, ◌*◌, ◌/◌, ◌%◌, ◌^◌, ◌<◌, ◌≡◌, refl, ap, ◌∙◌, Bytes, [], ◌∷◌, false, not, none, some, ◌==◌,
  if◌then◌else◌, find_char, arith,
}
use lundicpp.Base.Bits.{every, every-true, same_table}
use lundicpp.Base.Find.{All}
use lundicpp.WebSocket.Base64.{table, symbol, base64_encode}

-- The six bits of a symbol.
unfoldable pub sextet : ℕ → ℕ
unfolding find_char
sextet c = elim (find_char c table) [ none ↦ 64 | some n ↦ n ]

sextet-symbol : (n : ℕ) → n < 64 → sextet (symbol n) ≡ n
unfolding every sextet find_char symbol
sextet-symbol = same_table 64 (λ n. sextet (symbol n)) (λ n. n) refl

symbol-pad : (n : ℕ) → n < 64 → (symbol n == b'=') ≡ false
unfolding every symbol
symbol-pad n h =
    let differs = every-true 64 (λ n. not (symbol n == b'=')) n refl h in ground (arith, differs)

-- A reader of base64: four symbols a round, with one or two `=` at the end.
unfoldable pub decode : Bytes → Bytes
unfolding sextet
decode (a ∷ b ∷ c ∷ d ∷ rest) =
    let n = sextet a * 2 ^ 18 + sextet b * 2 ^ 12 + sextet c * 2 ^ 6 + sextet d in
    let more = decode rest in
    if c == b'='
    then (sextet a * 4 + sextet b / 16) ∷ []
    else if d == b'='
    then (sextet a * 4 + sextet b / 16) ∷ (sextet b % 16 * 16 + sextet c / 4) ∷ []
    else n / 2 ^ 16 ∷ (n / 2 ^ 8) % 256 ∷ n % 256 ∷ more
decode _ = []

decode_one :
    (i j : ℕ) (rest : Bytes)
    → i < 64
    → j < 64
    → decode (symbol i ∷ symbol j ∷ b'=' ∷ b'=' ∷ rest) ≡ (i * 4 + j / 16) ∷ []
unfolding decode
decode_one i j rest hi hj = rw (sextet-symbol i hi, sextet-symbol j hj) refl

decode_two :
    (i j k : ℕ) (rest : Bytes)
    → i < 64
    → j < 64
    → k < 64
    → decode (symbol i ∷ symbol j ∷ symbol k ∷ b'=' ∷ rest)
      ≡ (i * 4 + j / 16) ∷ (j % 16 * 16 + k / 4) ∷ []
unfolding decode
decode_two i j k rest hi hj hk =
    rw (symbol-pad k hk, sextet-symbol i hi, sextet-symbol j hj, sextet-symbol k hk) refl

decode_three :
    (i j k l : ℕ) (rest : Bytes)
    → i < 64
    → j < 64
    → k < 64
    → l < 64
    → decode (symbol i ∷ symbol j ∷ symbol k ∷ symbol l ∷ rest) ≡ (
        let n = i * 2 ^ 18 + j * 2 ^ 12 + k * 2 ^ 6 + l in
        n / 2 ^ 16 ∷ (n / 2 ^ 8) % 256 ∷ n % 256 ∷ decode rest)
unfolding decode
decode_three i j k l rest hi hj hk hl =
    rw
      (
        symbol-pad k hk,
        symbol-pad l hl,
        sextet-symbol i hi,
        sextet-symbol j hj,
        sextet-symbol k hk,
        sextet-symbol l hl,
      )
      refl

-- Every text of bytes is read back from its base64.
pub decode-base64_encode : (s : Bytes) → All (λ c. c < 256) s → decode (base64_encode s) ≡ s
unfolding base64_encode
decode-base64_encode [] h = unfold decode in refl
decode-base64_encode (x ∷ []) (hx, _) =
    let n = x * 2 ^ 16 in
    let same : n / 2 ^ 18 % 64 * 4 + n / 2 ^ 12 % 64 / 16 ≡ x = omega arith in
    decode_one (n / 2 ^ 18 % 64) (n / 2 ^ 12 % 64) [] (omega arith) (omega arith)
    ∙ ap (λ (t : ℕ). t ∷ []) same
decode-base64_encode (x ∷ y ∷ []) (hx, (hy, _)) =
    let n = x * 2 ^ 16 + y * 2 ^ 8 in
    let same : n / 2 ^ 18 % 64 * 4 + n / 2 ^ 12 % 64 / 16 ≡ x = omega arith in
    let same' : n / 2 ^ 12 % 64 % 16 * 16 + n / 2 ^ 6 % 64 / 4 ≡ y = omega arith in
    decode_two (n / 2 ^ 18 % 64) (n / 2 ^ 12 % 64) (n / 2 ^ 6 % 64) [] (omega arith) (omega arith)
      (omega arith)
    ∙ rw (same, same') refl
decode-base64_encode (x ∷ y ∷ z ∷ rest) (hx, (hy, (hz, h))) =
    let n = x * 2 ^ 16 + y * 2 ^ 8 + z in
    let i = n / 2 ^ 18 % 64 in
    let j = n / 2 ^ 12 % 64 in
    let k = n / 2 ^ 6 % 64 in
    let l = n % 64 in
    let whole : i * 2 ^ 18 + j * 2 ^ 12 + k * 2 ^ 6 + l ≡ n = omega arith in
    let first : n / 2 ^ 16 ≡ x = omega arith in
    let second : (n / 2 ^ 8) % 256 ≡ y = omega arith in
    let third : n % 256 ≡ z = omega arith in
    decode_three i j k l (base64_encode rest) (omega arith) (omega arith) (omega arith)
      (omega arith)
    ∙ rw (whole, first, second, third, decode-base64_encode rest h) refl
