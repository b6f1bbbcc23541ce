-- ===== src/Middleware.antt =====
-- middleware.hpp: `middleware_chain`, the CORS middleware and the logger, with what awaiting a handler
-- amounts to.
pub mod Laws
pub mod Origin
mod Examples
use lundicpp.Base.{
  ℕ, suc, ◌-◌, ◌/◌, Option, none, some, get_elem?, Bytes, List, [], ◌∷◌, ◌++◌, Bool, true, false,
  if◌then◌else◌, bytes_eq, codes,
}
use lundicpp.Base.Int.{ℤ, pos, decimal_int}
use lundicpp.Base.Decimal.{decimal}
use lundicpp.Request.{Request}
use lundicpp.Response.{Response, new_response, set_header}

-- What a coroutine ends with: `co_return`, an exception under `std::exception` with its `what()`, or
-- one that is not.
pub data Outcome {ℓ} (A : Type ℓ) : Type ℓ where
  returned : A → Outcome A
  thrown : Bytes → Outcome A
  thrown_other : Outcome A

-- `next_t`. The call may change the request and everything else that handlers share, `W`.
abbrev pub Next {ℓ} : Type ℓ → Type ℓ
Next W = Request → W → Outcome Response × Request × W

-- `middleware_t`.
abbrev pub MiddlewareFn {ℓ} : Type ℓ → Type ℓ
MiddlewareFn W = Request → Next W → W → Outcome Response × Request × W

module _ {ℓ} {W : Type ℓ} where
  -- `layers_.push_back`.
  unfoldable pub add_layer : MiddlewareFn W → List (MiddlewareFn W) → List (MiddlewareFn W)
  add_layer layer layers = layers ++ layer ∷ []

  -- `mw( mws... )`, from the vector so far.
  unfoldable pub mw_loop : List (MiddlewareFn W) → List (MiddlewareFn W) → List (MiddlewareFn W)
  mw_loop v [] = v
  mw_loop v (m ∷ mws) = mw_loop (v ++ m ∷ []) mws

  unfoldable pub mw : List (MiddlewareFn W) → List (MiddlewareFn W)
  unfolding mw_loop
  mw mws = mw_loop [] mws

abbrev pub rev {ℓ} : {A : Type ℓ} → List A → List A → List A
rev [] acc = acc
rev (m ∷ ms) acc = rev ms (m ∷ acc)

-- What `compile` returns: the handler, or a closure with a pointer to a layer and a copy of the chain so
-- far. The pointer is the position of the layer in `layers_`.
pub data Compiled {ℓ} (W : Type ℓ) : Type ℓ where
  inner : Next W → Compiled W
  around : ℕ → Compiled W → Compiled W

module _ {ℓ} {W : Type ℓ} where
  -- `&( *it )` for the layers from position `i` on.
  abbrev pub pointers : ℕ → List (MiddlewareFn W) → List ℕ
  pointers i [] = []
  pointers i (m ∷ ms) = i ∷ pointers (suc i) ms

  -- The loop from `rbegin()` to `rend()`: each layer is wrapped around the chain so far.
  unfoldable pub compile_loop : List ℕ → Compiled W → Compiled W
  compile_loop [] chain = chain
  compile_loop (i ∷ backwards) chain = compile_loop backwards (around i chain)

  unfoldable pub compile : List (MiddlewareFn W) → Next W → Compiled W
  unfolding compile_loop
  compile layers handler = compile_loop (rev (pointers 0 layers) []) (inner handler)

  -- A call of what was compiled, where `layers` is what is left of `layers_`. Nothing is known of a call
  -- through a pointer to a layer that was destroyed; it is the parameter `undefined`.
  abbrev pub through : Next W → Next W → Option (MiddlewareFn W) → Next W
  through undefined prev none = undefined
  through undefined prev (some layer) = λ r w. layer r prev w

  unfoldable pub call_compiled : Next W → List (MiddlewareFn W) → Compiled W → Next W
  call_compiled undefined layers (inner handler) = handler
  call_compiled undefined layers (around i prev) =
      through undefined (call_compiled undefined layers prev) (get_elem? layers i)

  -- `compile_route_handler` of server.hpp. The chain that it compiles is a local variable, so that none of
  -- its layers is left when the result is called.
  unfoldable pub compile_route_handler : Next W → List (MiddlewareFn W) → Next W → Next W
  unfolding compile call_compiled
  compile_route_handler undefined [] handler = handler
  compile_route_handler undefined (m ∷ ms) handler =
      call_compiled undefined [] (compile (m ∷ ms) handler)

pub record CorsOptions : Type 0 where
  pub allow_origin : Bytes
  pub allow_methods : Bytes
  pub allow_headers : Bytes
  pub max_age : ℤ

-- The answer to a preflight request.
unfoldable pub preflight : CorsOptions → Response
unfolding set_header
preflight opts = set_header (codes "Access-Control-Max-Age") (decimal_int opts.max_age) (
    set_header (codes "Access-Control-Allow-Headers") opts.allow_headers (
      set_header (codes "Access-Control-Allow-Methods") opts.allow_methods (
        set_header (codes "Access-Control-Allow-Origin") opts.allow_origin
          (record new_response { status = pos 204 }))))

module _ {ℓ} {W : Type ℓ} where
  -- What follows `co_await next( req )`; an exception passes through.
  unfoldable pub allow :
      CorsOptions → Outcome Response × Request × W → Outcome Response × Request × W
  unfolding set_header
  allow opts (returned res, req, w) =
      (returned (set_header (codes "Access-Control-Allow-Origin") opts.allow_origin res), req, w)
  allow opts (thrown what, req, w) = (thrown what, req, w)
  allow opts (thrown_other, req, w) = (thrown_other, req, w)

  unfoldable pub cors : CorsOptions → MiddlewareFn W
  unfolding preflight allow bytes_eq
  cors opts req next w =
      if bytes_eq req.method (codes "OPTIONS")
      then (returned (preflight opts), req, w)
      else allow opts (next req w)

-- The arrow and the small mu in UTF-8.
abbrev pub arrow : Bytes
arrow = 226 ∷ 134 ∷ 146 ∷ []

abbrev pub micro : Bytes
micro = 206 ∷ 188 ∷ []

-- The line that the logger writes, its time in microseconds.
unfoldable pub log_line : Bytes → Bytes → ℤ → ℕ → Bytes
log_line method path status us =
    codes "[lundi] "
    ++ (method
        ++ (codes " "
            ++ (path
                ++ (codes " "
                    ++ (arrow
                        ++ (codes " "
                            ++ (decimal_int status
                                ++ (codes " (" ++ (decimal us ++ (micro ++ codes "s)\n"))))))))))

-- What a logger uses: the steady clock, in nanoseconds, and the standard output.
module _ {ℓ} {W : Type ℓ} (now : W → ℕ) (print : Bytes → W → W) where
  -- Behind `co_await next( req )`; an exception passes through.
  unfoldable pub logged :
      Bytes → Bytes → ℕ → Outcome Response × Request × W → Outcome Response × Request × W
  unfolding log_line
  logged method path start (returned res, req, w) =
      (returned res, req, print (log_line method path res.status ((now w - start) / 1000)) w)
  logged method path start (thrown what, req, w) = (thrown what, req, w)
  logged method path start (thrown_other, req, w) = (thrown_other, req, w)

  unfoldable pub logger : MiddlewareFn W
  unfolding logged
  logger req next w = logged req.method req.raw_path (now w) (next req w)
