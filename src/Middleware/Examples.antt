-- ===== src/Middleware/Examples.antt =====
-- A chain of the CORS middleware around a second layer.
use lundicpp.Base.{ℕ, Bytes, ◌+◌, ◌++◌, ◌≡◌, refl, List, [], ◌∷◌, codes}
use lundicpp.Base.Int.{pos}
use lundicpp.Request.{new_request}
use lundicpp.Response.{text_response, set_header}
use lundicpp.Middleware.{
  CorsOptions, MiddlewareFn, Next, returned, compile, call_compiled, logger, cors, arrow, micro,
}

abbrev options : CorsOptions
options = record {
  allow_origin = codes "*";
  allow_methods = codes "GET";
  allow_headers = codes "Content-Type";
  max_age = pos 60;
}

-- It answers by itself.
abbrev closed : MiddlewareFn ℕ
unfolding text_response
closed req next w = (returned (text_response (codes "closed") (pos 503)), req, w)

abbrev hello : Next ℕ
unfolding text_response
hello req w = (returned (text_response (codes "hello") (pos 200)), req, w)

abbrev layers : List (MiddlewareFn ℕ)
unfolding cors closed
layers = cors options ∷ closed ∷ []

answered : call_compiled hello layers (compile layers hello) new_request 0 ≡ (
  returned (
      set_header
        (codes "Access-Control-Allow-Origin")
        (codes "*")
        (text_response (codes "closed") (pos 503))),
  new_request,
  0,
)
unfolding compile call_compiled layers
answered = refl

-- A clock that the handlers' world holds, with the lines that were written.
abbrev slow : Next (ℕ × Bytes)
unfolding text_response
slow req (time, out) = (
  returned (text_response (codes "hello") (pos 200)),
  record req { method = codes "changed" },
  (time + 5400, out),
)

written :
    (logger
      (λ w. w.0)
      (λ line w. (w.0, w.1 ++ line))
      (record new_request { method = codes "GET"; raw_path = codes "/a" })
      slow
      (7, [])).2.1
    ≡ codes "[lundi] GET /a " ++ (arrow ++ (codes " 200 (5" ++ (micro ++ codes "s)\n")))
unfolding logger slow lundicpp.Base.Decimal.decimal
written = refl
