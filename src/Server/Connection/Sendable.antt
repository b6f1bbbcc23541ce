-- ===== src/Server/Connection/Sendable.antt =====
-- What `dispatch` returns can be sent, where what the handlers return can.
use lundicpp.Base.{
  ◌+◌, ◌^◌, ◌<◌, ◌≡◌, refl, Bytes, List, [], Option, none, some, ◌&&◌, ◌||◌, arith, codes, length,
  length-append, if_cases, bytes_eq,
}
use lundicpp.Base.Int.{pos}
use lundicpp.Base.Find.{All}
use lundicpp.Request.{Request}
use lundicpp.Response.{Response, text_response}
use lundicpp.Router.{RouteEntry, ParamEntry, resolve}
use lundicpp.Router.Resolve.{Selects, hit, pass, resolve_iff}
use lundicpp.Middleware.{Outcome, returned, thrown, thrown_other, Next}
use lundicpp.Server.{
  StaticFiles, internal_error, head_answer, file_answer, not_routed, head_routed, routed, dispatch,
}
use lundicpp.Server.Connection.Spec.{IsSendable, SendsWhole}

-- A response that can be sent, or a message of an exception that fits into one.
abbrev pub IsFitting : Outcome Response → Type 0
IsFitting (returned res) = IsSendable res
IsFitting (thrown what) = length what + 23 < 2 ^ 64
IsFitting thrown_other = Unit

abbrev pub IsFile : Outcome (Option Response) → Type 0
IsFile (returned (some res)) = IsSendable res
IsFile (returned none) = Unit
IsFile (thrown what) = Unit
IsFile thrown_other = Unit

not_found-IsSendable : IsSendable (text_response (codes "Not Found") (pos 404))
unfolding text_response
not_found-IsSendable = (refl, omega arith, omega arith)

without_body : (res : Response) → IsSendable res → IsSendable (record res { body = [] })
without_body res (counted, status, _) = (counted, status, omega arith)

module _ {ℓ} {W : Type ℓ} where
  abbrev pub IsPolite : RouteEntry (Next W) → Type ℓ
  IsPolite route = (req : Request) (w : W) → IsFitting (route.handler req w).0

  selected-IsPolite :
      {method path : Bytes} {rs : List (RouteEntry (Next W))} {h : Next W} {ps : List ParamEntry}
      → Selects method path rs h ps
      → All IsPolite rs
      → (req : Request) (w : W) → IsFitting (h req w).0
  selected-IsPolite (hit same c is) (t, ts) = rw (← is) t
  selected-IsPolite (pass no_fit s) (t, ts) = selected-IsPolite s ts

  internal_error-SendsWhole :
      (o : Outcome Response × Request × W) → IsFitting o.0 → SendsWhole (internal_error o)
  unfolding internal_error text_response
  internal_error-SendsWhole (returned res, _, _) h = h
  internal_error-SendsWhole (thrown what, _, _) h =
      (refl, omega arith, omega (arith, h, length-append (codes "Internal Server Error: ") what))
  internal_error-SendsWhole (thrown_other, _, _) h = h

  head_answer-SendsWhole :
      (o : Outcome Response × Request × W) → IsFitting o.0 → SendsWhole (head_answer o)
  unfolding head_answer text_response
  head_answer-SendsWhole (returned res, _, _) h = without_body res h
  head_answer-SendsWhole (thrown what, _, _) h = (refl, omega arith, omega arith)
  head_answer-SendsWhole (thrown_other, _, _) h = h

  file_answer-SendsWhole :
      (req : Request) (w : W) (o : Outcome (Option Response))
      → IsFile o
      → SendsWhole (file_answer req w o)
  unfolding file_answer
  file_answer-SendsWhole req w (returned none) h = not_found-IsSendable
  file_answer-SendsWhole req w (returned (some res)) h =
      if_cases IsSendable (bytes_eq req.method (codes "HEAD")) (λ _. without_body res h) (λ _. h)
  file_answer-SendsWhole req w (thrown what) h = h
  file_answer-SendsWhole req w thrown_other h = h

  module _ (routes : List (RouteEntry (Next W))) (static_files : StaticFiles)
      (polite : All IsPolite routes)
      (served : (r : Request) → IsFile (static_files.try_serve r.path r)) where
    not_routed-SendsWhole :
        (req : Request) (w : W) → SendsWhole (not_routed routes static_files req w)
    unfolding not_routed
    not_routed-SendsWhole req w =
        if_cases SendsWhole
          ((bytes_eq req.method (codes "GET") || bytes_eq req.method (codes "HEAD"))
            && static_files.has_mounts)
          {y = (returned (text_response (codes "Not Found") (pos 404)), req, w)}
          (λ _. file_answer-SendsWhole req w (static_files.try_serve req.path req) (served req))
          (λ _. not_found-IsSendable)

    head_routed-SendsWhole :
        (req : Request) (w : W) (p : Option (Next W) × List ParamEntry)
        → resolve routes (codes "GET") req.path req.params ≡ p
        → SendsWhole (head_routed routes static_files p req w)
    unfolding head_routed
    head_routed-SendsWhole req w (some h, ps) e =
        head_answer-SendsWhole (h (record req { params = ps }) w)
          (selected-IsPolite ((resolve_iff _ _ routes req.params ps h).0 e) polite _ w)
    head_routed-SendsWhole req w (none, ps) e = not_routed-SendsWhole (record req { params = ps }) w

    routed-SendsWhole :
        (req : Request) (w : W) (p : Option (Next W) × List ParamEntry)
        → resolve routes req.method req.path req.params ≡ p
        → SendsWhole (routed routes static_files p req w)
    unfolding routed
    routed-SendsWhole req w (some h, ps) e =
        internal_error-SendsWhole (h (record req { params = ps }) w)
          (selected-IsPolite ((resolve_iff _ _ routes req.params ps h).0 e) polite _ w)
    routed-SendsWhole req w (none, ps) e =
        if_cases SendsWhole (bytes_eq req.method (codes "HEAD"))
          (λ _. head_routed-SendsWhole (record req { params = ps }) w _ refl)
          (λ _. not_routed-SendsWhole (record req { params = ps }) w)

    -- Whatever is asked for, the response can be sent.
    pub dispatch-SendsWhole :
        (req : Request) (w : W) → SendsWhole (dispatch routes static_files req w)
    unfolding dispatch
    dispatch-SendsWhole req w = routed-SendsWhole req w _ refl
