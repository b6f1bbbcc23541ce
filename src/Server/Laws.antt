-- ===== src/Server/Laws.antt =====
-- What `dispatch` answers.
use lundicpp.Base.{
  ◌≡◌, refl, Bytes, List, ◌&&◌, ◌||◌, Option, none, some, bytes_eq, codes, Bool-cases, if_cases,
  inl, inr,
}
use lundicpp.Base.Find.{All}
use lundicpp.Request.{Request}
use lundicpp.Response.{Response}
use lundicpp.Router.{RouteEntry, resolve, ParamEntry}
use lundicpp.Router.Resolve.{Selects, hit, pass, resolve_iff}
use lundicpp.Middleware.{Outcome, returned, thrown, thrown_other, Next}
use lundicpp.Server.{
  StaticFiles, internal_error, head_answer, file_answer, not_routed, head_routed, routed, dispatch,
}

module _ {ℓ} {A : Type ℓ} where
  abbrev pub IsReturned : Outcome A → Type 0
  IsReturned (returned a) = Unit
  IsReturned (thrown what) = ⊥
  IsReturned thrown_other = ⊥

  -- What `catch ( const std::exception& )` takes care of.
  abbrev pub IsCaught : Outcome A → Type 0
  IsCaught thrown_other = ⊥
  IsCaught (returned a) = Unit
  IsCaught (thrown what) = Unit

module _ {ℓ} {W : Type ℓ} where
  abbrev pub IsTame : RouteEntry (Next W) → Type ℓ
  IsTame route = (req : Request) (w : W) → IsCaught (route.handler req w).0

  selected-IsTame :
      {method path : Bytes} {rs : List (RouteEntry (Next W))} {h : Next W} {ps : List ParamEntry}
      → Selects method path rs h ps
      → All IsTame rs
      → (req : Request) (w : W) → IsCaught (h req w).0
  selected-IsTame (hit same c is) (t, ts) = rw (← is) t
  selected-IsTame (pass no_fit s) (t, ts) = selected-IsTame s ts

  internal_error-IsReturned :
      (o : Outcome Response × Request × W) → IsCaught o.0 → IsReturned (internal_error o).0
  unfolding internal_error
  internal_error-IsReturned (returned res, _, _) h = tt
  internal_error-IsReturned (thrown what, _, _) h = tt
  internal_error-IsReturned (thrown_other, _, _) h = h

  head_answer-IsReturned :
      (o : Outcome Response × Request × W) → IsCaught o.0 → IsReturned (head_answer o).0
  unfolding head_answer
  head_answer-IsReturned (returned res, _, _) h = tt
  head_answer-IsReturned (thrown what, _, _) h = tt
  head_answer-IsReturned (thrown_other, _, _) h = h

  file_answer-IsReturned :
      (req : Request) (w : W) (o : Outcome (Option Response))
      → IsReturned o
      → IsReturned (file_answer req w o).0
  unfolding file_answer
  file_answer-IsReturned req w (returned none) h = tt
  file_answer-IsReturned req w (returned (some res)) h = tt
  file_answer-IsReturned req w (thrown what) h = h
  file_answer-IsReturned req w thrown_other h = h

  module _ (routes : List (RouteEntry (Next W))) (static_files : StaticFiles) where
    -- A request whose path a route selects is answered by that route's handler, with the parameters of
    -- the match, and an exception of the handler becomes a response with status 500.
    pub dispatch-Selects :
        (req : Request) (w : W) (h : Next W) (ps : List ParamEntry)
        → Selects req.method req.path routes h ps
        → dispatch routes static_files req w ≡ internal_error (h (record req { params = ps }) w)
    unfolding dispatch
    dispatch-Selects req w h ps s =
        rw ((resolve_iff req.method req.path routes req.params ps h).1 s, dispatch, routed) refl

    not_routed-IsReturned :
        (req : Request) (w : W)
        → IsReturned (static_files.try_serve req.path req)
        → IsReturned (not_routed routes static_files req w).0
    unfolding not_routed
    not_routed-IsReturned req w served =
        elim (Bool-cases (
          (bytes_eq req.method (codes "GET") || bytes_eq req.method (codes "HEAD"))
          && static_files.has_mounts)) [
            | inl e ↦ rw e (file_answer-IsReturned req w _ served)
            | inr e ↦ rw e tt
          ]

    head_routed-IsReturned :
        (req : Request) (w : W) (p : Option (Next W) × List ParamEntry)
        → resolve routes (codes "GET") req.path req.params ≡ p
        → All IsTame routes
        → ((r : Request) → IsReturned (static_files.try_serve r.path r))
        → IsReturned (head_routed routes static_files p req w).0
    unfolding head_routed
    head_routed-IsReturned req w (some h, ps) e tame served =
        head_answer-IsReturned (h (record req { params = ps }) w)
          (selected-IsTame ((resolve_iff _ _ routes req.params ps h).0 e) tame _ w)
    head_routed-IsReturned req w (none, ps) e tame served =
        not_routed-IsReturned (record req { params = ps }) w (served _)

    routed-IsReturned :
        (req : Request) (w : W) (p : Option (Next W) × List ParamEntry)
        → resolve routes req.method req.path req.params ≡ p
        → All IsTame routes
        → ((r : Request) → IsReturned (static_files.try_serve r.path r))
        → IsReturned (routed routes static_files p req w).0
    unfolding routed
    routed-IsReturned req w (some h, ps) e tame served =
        internal_error-IsReturned (h (record req { params = ps }) w)
          (selected-IsTame ((resolve_iff _ _ routes req.params ps h).0 e) tame _ w)
    routed-IsReturned req w (none, ps) e tame served =
        if_cases (λ (o : Outcome Response × Request × W). IsReturned o.0)
          (bytes_eq req.method (codes "HEAD"))
          (λ _. head_routed-IsReturned (record req { params = ps }) w _ refl tame served)
          (λ _. not_routed-IsReturned (record req { params = ps }) w (served _))

    -- Where no handler ends with an exception outside `std::exception` and the static files throw
    -- nothing, every request gets a response, whatever its method and path and whatever else the
    -- handlers throw.
    pub dispatch-IsReturned :
        (req : Request) (w : W)
        → All IsTame routes
        → ((r : Request) → IsReturned (static_files.try_serve r.path r))
        → IsReturned (dispatch routes static_files req w).0
    unfolding dispatch
    dispatch-IsReturned req w tame served = routed-IsReturned req w _ refl tame served
