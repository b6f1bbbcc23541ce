-- ===== src/Middleware/Origin.antt =====
-- The header that the CORS middleware adds.
use lundicpp.Base.{◌≡◌, refl, List, [], ◌∷◌, ◌++◌, codes, bytes_eq, if_cases}
use lundicpp.Request.{Request}
use lundicpp.Response.{Response, HeaderEntry, set_header}
use lundicpp.Middleware.{
  CorsOptions, Outcome, returned, thrown, thrown_other, Next, preflight, allow, cors,
}

abbrev pub origin_entry : CorsOptions → HeaderEntry
origin_entry opts = record { name = codes "Access-Control-Allow-Origin"; value = opts.allow_origin }

-- A returned response has the header of the allowed origin.
abbrev pub IsAllowed : CorsOptions → Outcome Response → Type 0
IsAllowed opts (returned res) =
    (before : List HeaderEntry) × (after : List HeaderEntry) × (res.headers
      ≡ before ++ origin_entry opts ∷ after)
IsAllowed opts (thrown what) = Unit
IsAllowed opts thrown_other = Unit

preflight-IsAllowed : (opts : CorsOptions) → IsAllowed opts (returned (preflight opts))
unfolding preflight set_header
preflight-IsAllowed opts = ([], _, refl)

module _ {ℓ} {W : Type ℓ} where
  allow-IsAllowed :
      (opts : CorsOptions) (o : Outcome Response × Request × W) → IsAllowed opts (allow opts o).0
  unfolding allow set_header
  allow-IsAllowed opts (returned res, req, w) = (res.headers, [], refl)
  allow-IsAllowed opts (thrown what, req, w) = tt
  allow-IsAllowed opts (thrown_other, req, w) = tt

  -- Every response that the CORS middleware returns, to a preflight request or behind the rest of the
  -- chain, has a header that names the allowed origin, whatever the rest of the chain answers.
  pub cors-IsAllowed :
      (opts : CorsOptions) (req : Request) (inner : Next W) (w : W)
      → IsAllowed opts (cors opts req inner w).0
  unfolding cors
  cors-IsAllowed opts req inner w =
      if_cases (λ (o : Outcome Response × Request × W). IsAllowed opts o.0)
        (bytes_eq req.method (codes "OPTIONS")) {x = (returned (preflight opts), req, w)}
        (λ _. preflight-IsAllowed opts) (λ _. allow-IsAllowed opts (inner req w))
