-- ===== src/Server/Routes.antt =====
-- server.hpp: the registration of handlers in `app` and in `app::route_group`.
use lundicpp.Base.{ℕ, zero, suc, max, Bytes, List, [], ◌∷◌, ◌++◌, codes}
use lundicpp.Base.Int.{ℤ, pos, negsuc}
use lundicpp.Router.{RouteEntry, add}
use lundicpp.Middleware.{
  MiddlewareFn, Next, add_layer, mw, compile, call_compiled, compile_route_handler,
}
use lundicpp.Server.{StaticFiles, dispatch, group_prefix}

-- The five members of the name of a method.
pub data Verb : Type 0 where
  get post put del patch : Verb

abbrev pub method_name : Verb → Bytes
method_name get = codes "GET"
method_name post = codes "POST"
method_name put = codes "PUT"
method_name del = codes "DELETE"
method_name patch = codes "PATCH"

module _ {ℓ} {W : Type ℓ} where
  -- `get( pattern, handler )` and the others.
  unfoldable pub register :
      Verb → Bytes → Next W → List (RouteEntry (Next W)) → List (RouteEntry (Next W))
  unfolding add
  register verb pattern handler routes = add (method_name verb) pattern handler routes

  -- `get( pattern, mws, handler )` and the others.
  unfoldable pub register_with :
      Next W
      → Verb
      → Bytes
      → List (MiddlewareFn W)
      → Next W
      → List (RouteEntry (Next W))
      → List (RouteEntry (Next W))
  unfolding add compile_route_handler
  register_with undefined verb pattern mws handler routes =
      add (method_name verb) pattern (compile_route_handler undefined mws handler) routes

  -- `get( pattern, handler, mws... )`.
  unfoldable pub get_with :
      Next W
      → Bytes
      → Next W
      → List (MiddlewareFn W)
      → List (RouteEntry (Next W))
      → List (RouteEntry (Next W))
  unfolding add compile_route_handler mw
  get_with undefined pattern handler mws routes =
      add (codes "GET") pattern (compile_route_handler undefined (mw mws) handler) routes

  -- `use`.
  unfoldable pub use_layer : MiddlewareFn W → List (MiddlewareFn W) → List (MiddlewareFn W)
  unfolding add_layer
  use_layer layer layers = add_layer layer layers

  -- The members of a group made with `prefix`.
  unfoldable pub group_register :
      Bytes → Verb → Bytes → Next W → List (RouteEntry (Next W)) → List (RouteEntry (Next W))
  unfolding register group_prefix
  group_register prefix verb pattern handler routes =
      register verb (group_prefix prefix ++ pattern) handler routes

  unfoldable pub group_register_with :
      Next W
      → Bytes
      → Verb
      → Bytes
      → List (MiddlewareFn W)
      → Next W
      → List (RouteEntry (Next W))
      → List (RouteEntry (Next W))
  unfolding register_with group_prefix
  group_register_with undefined prefix verb pattern mws handler routes =
      register_with undefined verb (group_prefix prefix ++ pattern) mws handler routes

-- `route_group::group`: the prefix of a group inside a group.
unfoldable pub sub_prefix : Bytes → Bytes → Bytes
unfolding group_prefix
sub_prefix prefix inner = group_prefix (prefix ++ inner)

-- The number of workers in `listen`, from `opts.threads` and what `hardware_concurrency` says.
unfoldable pub worker_count : ℤ → ℕ → ℕ
worker_count (pos zero) hardware = max hardware 1
worker_count (pos (suc n)) hardware = suc n
worker_count (negsuc n) hardware = max hardware 1

module _ {ℓ} {W : Type ℓ} where
  -- `compiled_handler_` or `dispatch`, as `listen` and the call in `handle_connection` choose. The chain is
  -- a member of the application, and its layers are there as long as it runs.
  unfoldable pub app_handler :
      Next W → List (MiddlewareFn W) → List (RouteEntry (Next W)) → StaticFiles → Next W
  unfolding compile call_compiled dispatch
  app_handler undefined [] routes static_files = dispatch routes static_files
  app_handler undefined (m ∷ ms) routes static_files =
      call_compiled undefined (m ∷ ms) (compile (m ∷ ms) (dispatch routes static_files))
