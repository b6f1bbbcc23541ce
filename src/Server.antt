-- ===== src/Server.antt =====
-- server.hpp: the class `app`, its registration of routes, `dispatch` and the choice of a worker.
pub mod Laws
pub mod Routes
pub mod Registration
pub mod Head
pub mod Read
pub mod Delivery
pub mod Workers
pub mod Listen
pub mod Threads
pub mod Timer
pub mod Survival
pub mod Connection
mod Examples
use lundicpp.Base.{
  ℕ, zero, suc, ◌+◌, ◌-◌, Bytes, List, [], ◌∷◌, ◌++◌, Bool, true, false, ◌&&◌, ◌||◌, not, Option,
  none, some, ltb, leb, ◌==◌, if◌then◌else◌, bytes_eq, codes, length, take, is_empty, get_or,
}
use lundicpp.Base.Int.{ℤ, pos}
use lundicpp.Request.{Request}
use lundicpp.Response.{Response, text_response}
use lundicpp.Router.{RouteEntry, resolve, add, ParamEntry, back}
use lundicpp.Middleware.{Outcome, returned, thrown, thrown_other, Next}

-- What `dispatch` asks of the static files: whether there are mounts, and `try_serve`, which
-- may throw.
pub record StaticFiles : Type 0 where
  pub has_mounts : Bool
  pub try_serve : Bytes → Request → Outcome (Option Response)

module _ {ℓ} {W : Type ℓ} where
  -- The `catch` behind the call of a matched handler.
  unfoldable pub internal_error : Outcome Response × Request × W → Outcome Response × Request × W
  unfolding text_response
  internal_error (thrown what, req, w) =
      (returned (text_response (codes "Internal Server Error: " ++ what) (pos 500)), req, w)
  internal_error (returned res, req, w) = (returned res, req, w)
  internal_error (thrown_other, req, w) = (thrown_other, req, w)

  -- The same for a HEAD request that a GET handler answers.
  unfoldable pub head_answer : Outcome Response × Request × W → Outcome Response × Request × W
  unfolding text_response
  head_answer (thrown what, req, w) = (returned (text_response [] (pos 500)), req, w)
  head_answer (returned res, req, w) = (returned (record res { body = [] }), req, w)
  head_answer (thrown_other, req, w) = (thrown_other, req, w)

  -- A file that was served, or what stands behind the test.
  unfoldable pub file_answer :
      Request → W → Outcome (Option Response) → Outcome Response × Request × W
  unfolding text_response bytes_eq
  file_answer req w (returned (some res)) = (
    returned (if bytes_eq req.method (codes "HEAD") then record res { body = [] } else res),
    req,
    w,
  )
  file_answer req w (returned none) =
      (returned (text_response (codes "Not Found") (pos 404)), req, w)
  file_answer req w (thrown what) = (thrown what, req, w)
  file_answer req w thrown_other = (thrown_other, req, w)

  module _ (routes : List (RouteEntry (Next W))) (static_files : StaticFiles) where
    -- Behind both lookups.
    unfoldable pub not_routed : Next W
    unfolding file_answer text_response bytes_eq
    not_routed req w =
        if (bytes_eq req.method (codes "GET") || bytes_eq req.method (codes "HEAD"))
          && static_files.has_mounts
        then file_answer req w (static_files.try_serve req.path req)
        else (returned (text_response (codes "Not Found") (pos 404)), req, w)

    -- The second lookup, of a HEAD request, with its result.
    unfoldable pub head_routed : Option (Next W) × List ParamEntry → Next W
    unfolding not_routed head_answer
    head_routed (some handler, params) req w =
        head_answer (handler (record req { params = params }) w)
    head_routed (none, params) req w = not_routed (record req { params = params }) w

    -- The first lookup with its result.
    unfoldable pub routed : Option (Next W) × List ParamEntry → Next W
    unfolding head_routed internal_error resolve
    routed (some handler, params) req w =
        internal_error (handler (record req { params = params }) w)
    routed (none, params) req w =
        let req' = record req { params = params } in
        if bytes_eq req.method (codes "HEAD")
        then head_routed (resolve routes (codes "GET") req.path params) req' w
        else not_routed req' w

    unfoldable pub dispatch : Next W
    unfolding routed resolve
    dispatch req w = routed (resolve routes req.method req.path req.params) req w

-- `route_group`'s constructor.
abbrev leading_slash : Bytes → Bytes
leading_slash [] = b'/' ∷ []
leading_slash (c ∷ s) = if not (c == b'/') then b'/' ∷ c ∷ s else c ∷ s

unfoldable pub group_prefix : Bytes → Bytes
group_prefix prefix =
    let slashed = leading_slash prefix in
    if ltb 1 (length slashed) && (back slashed == b'/')
    then take (length slashed - 1) slashed
    else slashed

-- The search of `accept_loop`, from worker `i` on.
unfoldable pub least_loop : ℕ → ℕ → ℕ → List ℕ → ℕ
least_loop i best best_count [] = best
least_loop i best best_count (c ∷ counts) =
    if ltb c best_count
    then least_loop (suc i) i c counts
    else least_loop (suc i) best best_count counts

-- The worker for a new connection; `listen` makes at least one.
unfoldable pub least_loaded : ℕ → List ℕ → ℕ
unfolding least_loop
least_loaded first counts = least_loop 1 0 first counts
