-- ===== src/Server/Registration.antt =====
-- What a request for a registered route runs, without middleware of its own and with it.
use lundicpp.Base.{◌≡◌, refl, sym, ap, ◌∙◌, Bytes, List, [], ◌∷◌, ◌++◌}
use lundicpp.Base.Find.{All}
use lundicpp.Base.{ℕ, codes}
use lundicpp.Base.Int.{pos}
use lundicpp.Request.{Request}
use lundicpp.Response.{Response, text, text_response}
use lundicpp.Router.{RouteEntry, add, parse_pattern, split_path_sv, ParamEntry}
use lundicpp.Router.Match.{Captures}
use lundicpp.Router.Resolve.{Refuses, Selects, hit, pass}
use lundicpp.Middleware.{
  MiddlewareFn, Next, Outcome, returned, thrown, thrown_other, compile_route_handler,
}
use lundicpp.Middleware.Laws.{nested, compile-nested, compile_route_handler-destroyed}
use lundicpp.Server.{StaticFiles, dispatch, internal_error, group_prefix}
use lundicpp.Server.Laws.{dispatch-Selects}
use lundicpp.Server.Routes.{
  app_handler, Verb, method_name, register, group_register, register_with, group_register_with,
}

-- A plain text of a status, without headers of its own.
abbrev pub plain : ℕ → Bytes → Response
plain status body = record {
  status = pos status;
  preset_ct = text;
  headers = [];
  num_headers = 0;
  body = body;
}

module _ {ℓ} {W : Type ℓ} where
  -- What becomes of what a handler does.
  abbrev pub answered : Outcome Response × Request × W → Outcome Response × Request × W
  answered (returned res, req, w) = (returned res, req, w)
  answered (thrown what, req, w) =
      (returned (plain 500 (codes "Internal Server Error: " ++ what)), req, w)
  answered (thrown_other, req, w) = (thrown_other, req, w)

  internal_error-answered : (o : Outcome Response × Request × W) → internal_error o ≡ answered o
  unfolding internal_error text_response
  internal_error-answered (returned res, req, w) = refl
  internal_error-answered (thrown what, req, w) = refl
  internal_error-answered (thrown_other, req, w) = refl

  behind :
      (method path : Bytes) (routes : List (RouteEntry (Next W))) (r : RouteEntry (Next W))
      (ps : List ParamEntry)
      → All (Refuses method path) routes
      → r.method ≡ method
      → Captures r.pattern (split_path_sv path) ps
      → Selects method path (routes ++ r ∷ []) r.handler ps
  behind method path [] r ps _ same c = hit same c refl
  behind method path (q ∷ routes) r ps (no_fit, rest) same c =
      pass no_fit (behind method path routes r ps rest same c)

  -- A request that no earlier route fits, with the method of the registration and a path that the
  -- pattern behind the group's prefix captures.
  pub record IsFor (prefix pattern : Bytes) (verb : Verb) (routes : List (RouteEntry (Next W)))
      (req : Request) (ps : List ParamEntry) : Type 0 where
    pub others : All (Refuses req.method req.path) routes
    pub same_method : req.method ≡ method_name verb
    pub captures :
        Captures (parse_pattern (group_prefix prefix ++ pattern)) (split_path_sv req.path) ps

  -- Such a request runs the handler, with the captured parameters, and its response is the answer; an exception
  -- of `std::exception` becomes the response with status 500 and the text of the exception, and any
  -- other goes through.
  pub group_register-dispatch :
      (prefix pattern : Bytes) (verb : Verb) (handler : Next W)
      (routes : List (RouteEntry (Next W))) (static_files : StaticFiles) (req : Request) (w : W)
      (ps : List ParamEntry)
      → IsFor prefix pattern verb routes req ps
      → dispatch (group_register prefix verb pattern handler routes) static_files req w
        ≡ answered (handler (record req { params = ps }) w)
  unfolding group_register register add
  group_register-dispatch prefix pattern verb handler routes static_files req w ps h =
      dispatch-Selects _ static_files req w handler ps
        (behind req.method req.path routes _ ps h.others (sym h.same_method) h.captures)
      ∙ internal_error-answered (handler (record req { params = ps }) w)

  -- Where the route was registered with middleware, such a request calls a layer that was destroyed when the
  -- registration returned, whatever the layers and the handler.
  pub group_register_with-destroyed :
      (undefined : Next W) (prefix pattern : Bytes) (verb : Verb) (m : MiddlewareFn W)
      (mws : List (MiddlewareFn W)) (handler : Next W) (routes : List (RouteEntry (Next W)))
      (static_files : StaticFiles) (req : Request) (w : W) (ps : List ParamEntry)
      → IsFor prefix pattern verb routes req ps
      → dispatch
          (group_register_with undefined prefix verb pattern (m ∷ mws) handler routes)
          static_files
          req
          w
        ≡ internal_error (undefined (record req { params = ps }) w)
  unfolding group_register_with register_with add
  group_register_with-destroyed undefined prefix pattern verb m mws handler routes static_files req
        w ps h =
      dispatch-Selects _ static_files req w (compile_route_handler undefined (m ∷ mws) handler) ps
        (behind req.method req.path routes _ ps h.others (sym h.same_method) h.captures)
      ∙ ap (λ (t : Next W). internal_error (t (record req { params = ps }) w))
          (compile_route_handler-destroyed undefined handler m mws)

  -- Global middleware runs in the order in which it was added, around the dispatch of the request, and
  -- where there is none the request is dispatched at once; no layer that was destroyed is called.
  pub app_handler-nested :
      (undefined : Next W) (layers : List (MiddlewareFn W)) (routes : List (RouteEntry (Next W)))
      (static_files : StaticFiles)
      → app_handler undefined layers routes static_files
        ≡ nested layers (dispatch routes static_files)
  unfolding app_handler
  app_handler-nested undefined [] routes static_files = refl
  app_handler-nested undefined (m ∷ ms) routes static_files =
      compile-nested undefined (dispatch routes static_files) (m ∷ ms)
