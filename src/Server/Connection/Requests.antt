-- ===== src/Server/Connection/Requests.antt =====
-- A request without a body at the front of a text, and what a run does with it.
use lundicpp.Base.{
  ℕ, suc, ◌≤◌, ◌<◌, ◌≡◌, ◌⊎◌, refl, sym, ap, ◌∙◌, Bytes, List, [], ◌∷◌, ◌++◌, Bool, true, false,
  none, is_empty, codes, length, drop, arith, append-nil, length-append, inl, inr,
}
use mathlib.Core.Path.{subst}
use lundicpp.Engine.Scan.First.{IsFirstEnd}
use lundicpp.Request.{Request, parse_headers}
use lundicpp.Request.Lookup.{find_header_ci}
use lundicpp.Response.{Response}
use lundicpp.Response.Wire.{wire}
use lundicpp.Middleware.{Outcome, returned, thrown, thrown_other, Next}
use lundicpp.Server.Connection.{
  ServerOptions, StreamRoutes, Surroundings, Ending, closed, take_over, stays_open,
}
use lundicpp.Server.Connection.Spec.{
  closing, Head, Body, Refused, Silent, late, ended, long, garbled, Handled, Run, quiet, over,
  refusal, unsent, failed, escaped, last, more,
}
use lundicpp.Server.Connection.Heads.{
  Head-unique, Head-append, long_text, empty_without_length, refused_length,
}

is_returned : Outcome Response → Bool
is_returned (returned res) = true
is_returned (thrown what) = false
is_returned thrown_other = false

response_in : Response → Outcome Response → Response
response_in other (returned res) = res
response_in other (thrown what) = other
response_in other thrown_other = other

module _ {ℓ} {W : Type ℓ} (opts : ServerOptions) (routes : StreamRoutes) (around : Surroundings)
    (handler : Next W) where
  -- The text is a request without a body, of number `n + 1`, that the handler answers.
  pub record Asked (n : ℕ) (w : W) (text : Bytes) (res : Response) (w' : W) : Type ℓ where
    pub first : IsFirstEnd text 0 (length text)
    pub some_bytes : 0 < length text
    pub short : length text ≤ opts.max_header_size
    pub method : is_empty (parse_headers text).method ≡ false
    pub no_stream : take_over routes (around.date (suc n)) (parse_headers text) ≡ none
    pub no_length : find_header_ci (codes "content-length") (parse_headers text).headers ≡ none
    pub req' : Request
    pub answer : handler (parse_headers text) w ≡ (returned res, req', w')

  module _ (n : ℕ) (w w' : W) (text rest : Bytes) (res : Response)
      (asked : Asked n w text res w') where
    here : Head (text ++ rest) text rest
    here = Head-append text rest asked.first asked.some_bytes

    outcome_is :
        (req : Request) (rest' : Bytes) (k : ℕ) (out : Outcome Response × Request × W)
        → Handled opts around routes handler n w (text ++ rest) req rest' k out
        → (out ≡ (returned res, asked.req', w')) × (req ≡ parse_headers text) × (rest' ≡ rest)
    outcome_is req rest' k out done =
        let (eh, er) = Head-unique (text ++ rest) text rest done.h done.after here done.head in
        let same : req ≡ parse_headers text = sym done.parse ∙ ap parse_headers eh in
        let (k0, seen0) =
          empty_without_length opts around (suc n) (parse_headers text) done.after k done.seen
            asked.no_length
            (subst (λ r. Body opts around (suc n) r done.after k done.seen) same done.content) in
        (
          sym done.result ∙ (ap (λ r. handler r w) seen0 ∙ asked.answer),
          same,
          sym done.remains ∙ (ap (λ m. drop m done.after) k0 ∙ er),
        )

    never_still : around.headers_late ≡ false → ¬ (Silent opts around n (text ++ rest))
    never_still on_time (late _ is_late) = absurd (cc)
    never_still on_time (ended first) = omega (
      arith,
      long_text (text ++ rest) text rest (text ++ rest) [] here (sym (append-nil (text ++ rest)))
          first,
      length-append text rest,
    )
    never_still on_time (long t u e first size) =
        omega (arith, long_text (text ++ rest) text rest t u here e first, size, asked.short)
    never_still on_time (garbled h' rest' head no_method) =
        let same =
          ap (λ t. is_empty (parse_headers t).method)
            (Head-unique (text ++ rest) text rest h' rest' here head).0 in
        let method = asked.method in cc

    -- The run answers the request, and goes on with what is behind it or ends.
    abbrev pub Answered : ℕ → List Bytes → Ending → Type ℓ
    Answered k new e =
        ((stays_open opts around (suc n) (parse_headers text) ≡ false)
          × (new ≡ wire (closing res) (around.date (suc n)) ∷ [])
          × (e ≡ closed))
        ⊎ ((stays_open opts around (suc n) (parse_headers text) ≡ true)
            × ((k' : ℕ) × (later : List Bytes) × (k ≡ suc k')
                × (new ≡ wire res (around.date (suc n)) ∷ later)
                × Run opts around routes handler (suc n) w' k' rest later e))

    not_thrown :
        (req : Request) (rest' : Bytes) (k : ℕ) (out : Outcome Response × Request × W)
        → is_returned out.0 ≡ false
        → Handled opts around routes handler n w (text ++ rest) req rest' k out
        → ⊥
    unfolding is_returned
    not_thrown req rest' k out differs done =
        let same = ap (λ o. is_returned o.0) (outcome_is req rest' k out done).0 in cc

    pub Run-Answered :
        (k : ℕ) (new : List Bytes) (e : Ending)
        → around.headers_late ≡ false
        → 0 < k
        → Run opts around routes handler n w k (text ++ rest) new e
        → Answered k new e
    unfolding is_returned response_in
    Run-Answered k new e on_time lt (quiet silent) = absurd (never_still on_time silent)
    Run-Answered k new e on_time lt (over h' rest' upgrade e' head taken) =
        let same =
          ap (λ t. take_over routes (around.date (suc n)) (parse_headers t))
            (Head-unique (text ++ rest) text rest h' rest' here head).0 in
        let no_stream = asked.no_stream in absurd (cc)
    Run-Answered k new e on_time lt (refusal h' rest' err head r) =
        let (eh, er) = Head-unique (text ++ rest) text rest h' rest' here head in
        absurd (
          refused_length opts around (suc n) (parse_headers text) rest' err asked.no_length
            (subst (λ t. Refused opts around (suc n) (parse_headers t) rest' err) eh r))
    Run-Answered k new e on_time lt (unsent h' rest' head) = absurd (omega arith)
    Run-Answered k new e on_time lt (failed done) = absurd (not_thrown _ _ _ _ refl done)
    Run-Answered k new e on_time lt (escaped done) = absurd (not_thrown _ _ _ _ refl done)
    Run-Answered k new e on_time lt (last {res = res1} done stays) =
        let (out, same, behind) = outcome_is _ _ _ _ done in
        let same_res : res1 ≡ res = ap (λ o. response_in res o.0) out in
        inl (
          ap (stays_open opts around (suc n)) (sym same) ∙ stays,
          ap (λ r. wire (closing r) (around.date (suc n)) ∷ []) same_res,
          refl,
        )
    Run-Answered k new e on_time lt
          (more {w' = w1} {writes = k'} {rest = rest1} {res = res1} {sent = later} done stays run) =
        let (out, same, behind) = outcome_is _ _ _ _ done in
        let same_res : res1 ≡ res = ap (λ o. response_in res o.0) out in
        let same_world : w1 ≡ w' = ap (λ o. o.2) out in
        inr (
          ap (stays_open opts around (suc n)) (sym same) ∙ stays,
          (
            k',
            later,
            refl,
            ap (λ r. wire r (around.date (suc n)) ∷ later) same_res,
            rw (← same_world, ← behind) run,
          ),
        )
