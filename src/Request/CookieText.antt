-- ===== src/Request/CookieText.antt =====
-- What `parse_cookies` reads from a cookie header that is written out.
use native.Mathlib.Numerals.{add-one}
use lundicpp.Base.{
  ℕ, zero, suc, ◌+◌, ◌≤◌, ◌≡◌, ◌≢◌, refl, sym, ap, ◌∙◌, Bytes, List, [], ◌∷◌, ◌++◌, Bool, true,
  false, Option, none, some, if◌then◌else◌, length, take, drop, replicate, find_char, is_empty,
  arith, append_assoc, bytes_eq, bytes_eq_refl, bytes_eq-true, Bool-cases, inl, inr, length-append,
}
use lundicpp.Base.Find.{
  All, Lacks, All-append, find_char-none, find_char-append, take-length_append,
  drop-length_append_suc,
}
use lundicpp.Request.Lookup.{first}
use lundicpp.Request.Cookies.{
  CookieMap, put_cookie, skip_spaces, trim_back, add_cookie, cookies_loop, parse_cookies,
}

-- A cookie with the blanks before its name and those between the name and the sign.
pub record Cookie : Type 0 where
  pub before : ℕ
  pub initial : ℕ
  pub tail : Bytes
  pub gap : ℕ
  pub value : Bytes

abbrev pub cookie_name : Cookie → Bytes
cookie_name c = c.initial ∷ c.tail

-- The pair behind the blanks.
abbrev pub pair_text : Cookie → Bytes
pair_text c = cookie_name c ++ (replicate c.gap 32 ++ b'=' ∷ c.value)

abbrev pub cookie_text : Cookie → Bytes
cookie_text c = replicate c.before 32 ++ pair_text c

-- No blank, sign or semicolon is in the name, and no semicolon in the value.
abbrev pub IsCookie : Cookie → Type 0
IsCookie c =
    Lacks 32 (cookie_name c)
    × Lacks b'=' (cookie_name c)
    × Lacks b';' (cookie_name c)
    × Lacks b';' c.value

abbrev pub cookies_text : List Cookie → Bytes
cookies_text [] = []
cookies_text (c ∷ []) = cookie_text c
cookies_text (c ∷ d ∷ cs) = cookie_text c ++ b';' ∷ cookies_text (d ∷ cs)

skip_spaces-replicate :
    (n x : ℕ) (s : Bytes) → x ≢ 32 → skip_spaces (replicate n 32 ++ x ∷ s) ≡ x ∷ s
unfolding skip_spaces
skip_spaces-replicate zero x s h = ground arith
skip_spaces-replicate (suc n) x s h = ground (arith, skip_spaces-replicate n x s h)

blanks-Lacks : (c n : ℕ) → 32 ≢ c → Lacks c (replicate n 32)
blanks-Lacks c zero h = tt
blanks-Lacks c (suc n) h = (h, blanks-Lacks c n h)

trim_back-blanks : (n : ℕ) → trim_back (replicate n 32) ≡ []
unfolding trim_back
trim_back-blanks zero = refl
trim_back-blanks (suc n) = rw (trim_back-blanks n) refl

trim_back-name : (s : Bytes) (n : ℕ) → Lacks 32 s → trim_back (s ++ replicate n 32) ≡ s
unfolding trim_back
trim_back-name [] n h = trim_back-blanks n
trim_back-name (c ∷ s) n (p, h) = rw (trim_back-name s n h) (ground arith)

-- The pair is not empty; its name loses the blanks behind it.
add_cookie-named :
    (name value : Bytes) (gap : ℕ) (cookies : CookieMap)
    → Lacks 32 name
    → Lacks b'=' name
    → add_cookie ((name ++ replicate gap 32) ++ b'=' ∷ value) cookies
      ≡ put_cookie name value cookies
unfolding add_cookie
add_cookie-named name value gap cookies blank sign =
    let named = name ++ replicate gap 32 in
    let found =
      find_char-append b'=' named value
        (All-append _ name _ sign (blanks-Lacks b'=' gap (omega arith))) in
    let full : is_empty (named ++ b'=' ∷ value) ≡ false = not_empty named in
    rw
      (
        full,
        add_cookie,
        found,
        add-one,
        take-length_append,
        drop-length_append_suc,
        trim_back-name name gap blank,
      )
      refl
  where
    not_empty : (p : Bytes) → is_empty (p ++ b'=' ∷ value) ≡ false
    not_empty [] = refl
    not_empty (c ∷ p) = refl

add_cookie-pair :
    (c : Cookie) (cookies : CookieMap)
    → IsCookie c
    → add_cookie (pair_text c) cookies ≡ put_cookie (cookie_name c) c.value cookies
add_cookie-pair c cookies (blank, sign, _, _) =
    rw (← append_assoc (cookie_name c) (replicate c.gap 32) (b'=' ∷ c.value))
      (add_cookie-named (cookie_name c) c.value c.gap cookies blank sign)

pair-Lacks : (c : Cookie) → IsCookie c → Lacks b';' (pair_text c)
pair-Lacks c (_, _, name, value) = All-append _ (cookie_name c) _ name (
    All-append _ (replicate c.gap 32) _ (blanks-Lacks b';' c.gap (omega arith))
      (omega arith, value))

abbrev put_all : CookieMap → List Cookie → CookieMap
put_all cookies [] = cookies
put_all cookies (c ∷ cs) = put_all (put_cookie (cookie_name c) c.value cookies) cs

-- A round of the loop, behind the blanks.
abbrev round : ℕ → Bytes → CookieMap → CookieMap
round fuel view cookies = elim (find_char b';' view) [
  | none ↦ add_cookie view cookies
  | some semi ↦ cookies_loop fuel (drop (semi + 1) view) (add_cookie (take semi view) cookies)
]

round-only :
    (fuel : ℕ) (p : Bytes) (cookies : CookieMap)
    → Lacks b';' p
    → round fuel p cookies ≡ add_cookie p cookies
round-only fuel p cookies h = rw (find_char-none b';' p h, round) refl

round-append :
    (fuel : ℕ) (p rest : Bytes) (cookies : CookieMap)
    → Lacks b';' p
    → round fuel (p ++ b';' ∷ rest) cookies ≡ cookies_loop fuel rest (add_cookie p cookies)
round-append fuel p rest cookies h =
    rw (find_char-append b';' p rest h, round, add-one, drop-length_append_suc, take-length_append)
      refl

loop_blanks :
    (fuel n x : ℕ) (s : Bytes) (cookies : CookieMap)
    → x ≢ 32
    → cookies_loop (suc fuel) (replicate n 32 ++ x ∷ s) cookies ≡ round fuel (x ∷ s) cookies
unfolding cookies_loop
loop_blanks fuel zero x s cookies h =
    ap (λ view. round fuel view cookies) (skip_spaces-replicate zero x s h)
loop_blanks fuel (suc n) x s cookies h =
    ap (λ view. round fuel view cookies) (skip_spaces-replicate (suc n) x s h)

loop-last :
    (fuel : ℕ) (c : Cookie) (cookies : CookieMap)
    → IsCookie c
    → cookies_loop (suc fuel) (cookie_text c) cookies ≡ put_cookie (cookie_name c) c.value cookies
loop-last fuel c cookies h =
    loop_blanks fuel c.before c.initial _ cookies h.0.0
    ∙ (round-only fuel (pair_text c) cookies (pair-Lacks c h) ∙ add_cookie-pair c cookies h)

loop-step :
    (fuel : ℕ) (c : Cookie) (rest : Bytes) (cookies : CookieMap)
    → IsCookie c
    → cookies_loop (suc fuel) (cookie_text c ++ b';' ∷ rest) cookies
      ≡ cookies_loop fuel rest (put_cookie (cookie_name c) c.value cookies)
loop-step fuel c rest cookies h =
    rw (append_assoc (replicate c.before 32) (pair_text c) (b';' ∷ rest)) (
      loop_blanks fuel c.before c.initial _ cookies h.0.0
      ∙ (round-append fuel (pair_text c) rest cookies (pair-Lacks c h)
          ∙ ap (cookies_loop fuel rest) (add_cookie-pair c cookies h)))

loop-cookies :
    (fuel : ℕ) (cs : List Cookie) (cookies : CookieMap)
    → length cs ≤ fuel
    → All IsCookie cs
    → cookies_loop fuel (cookies_text cs) cookies ≡ put_all cookies cs
loop-cookies zero [] cookies fits h = unfold cookies_loop in refl
loop-cookies (suc fuel) [] cookies fits h = unfold cookies_loop in refl
loop-cookies zero (c ∷ cs) cookies fits h = absurd (omega arith)
loop-cookies (suc fuel) (c ∷ []) cookies fits (p, _) = loop-last fuel c cookies p
loop-cookies (suc fuel) (c ∷ d ∷ cs) cookies fits (p, h) =
    loop-step fuel c (cookies_text (d ∷ cs)) cookies p
    ∙ loop-cookies fuel (d ∷ cs) (put_cookie (cookie_name c) c.value cookies) (omega arith) h

text_long : (cs : List Cookie) → length cs ≤ length (cookies_text cs)
text_long [] = omega arith
text_long (c ∷ []) = omega (arith, length-append (replicate c.before 32) (pair_text c))
text_long (c ∷ d ∷ cs) =
    omega (arith, text_long (d ∷ cs), length-append (cookie_text c) (b';' ∷ cookies_text (d ∷ cs)))

-- The value of the last cookie of a name.
abbrev pub last_value : Bytes → List Cookie → Option Bytes → Option Bytes
last_value name [] found = found
last_value name (c ∷ cs) found =
    last_value name cs (if bytes_eq (cookie_name c) name then some c.value else found)

first-put_cookie :
    (key name val : Bytes) (cookies : CookieMap)
    → first key (put_cookie name val cookies)
      ≡ (if bytes_eq name key then some val else first key cookies)
unfolding put_cookie
first-put_cookie key name val [] = refl
first-put_cookie key name val ((k, v) ∷ cookies) = elim (Bool-cases (bytes_eq k name)) [
  | inl e ↦
      let same : k ≡ name = bytes_eq-true k name e in
      let go : (b : Bool)
          → (if b then some val else first key cookies)
            ≡ (if b then some val else (if b then some v else first key cookies)) =
        λ b. ground arith in
      rw e (rw same (go (bytes_eq name key)))
  | inr e ↦
      rw (e, first-put_cookie key name val cookies)
        (elim (Bool-cases (bytes_eq k key)) [
          | inr f ↦ rw f refl
          | inl f ↦ elim (Bool-cases (bytes_eq name key)) [
            | inr g ↦ rw (f, g) refl
            | inl g ↦
                let both : k ≡ name = bytes_eq-true k key f ∙ sym (bytes_eq-true name key g) in
                let hit : bytes_eq k name ≡ true = rw (← both) (bytes_eq_refl k) in absurd (cc)
          ]
        ])
]

first-put_all :
    (name : Bytes) (cookies : CookieMap) (cs : List Cookie)
    → first name (put_all cookies cs) ≡ last_value name cs (first name cookies)
first-put_all name cookies [] = refl
first-put_all name cookies (c ∷ cs) =
    rw
      (
        first-put_all name (put_cookie (cookie_name c) c.value cookies) cs,
        first-put_cookie name (cookie_name c) c.value cookies,
      )
      refl

-- A cookie header that is written out, with any blanks before the names and behind them, is read into
-- a map that has under each name the value of the last cookie of that name, and nothing else.
pub parse_cookies-text :
    (cs : List Cookie) (name : Bytes)
    → All IsCookie cs
    → first name (parse_cookies (cookies_text cs)) ≡ last_value name cs none
unfolding parse_cookies
parse_cookies-text cs name h =
    rw (loop-cookies (length (cookies_text cs)) cs [] (text_long cs) h) (first-put_all name [] cs)
