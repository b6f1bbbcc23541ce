-- ===== src/Server/Head.antt =====
-- What `dispatch` answers to a HEAD request that no route of that method takes.
use lundicpp.Base.{
  ◌≡◌, refl, List, [], true, false, ◌&&◌, ◌||◌, Option, none, some, arith, bytes_eq, bytes_eq_refl,
  codes, Bool-cases, inl, inr,
}
use lundicpp.Base.Find.{All}
use lundicpp.Request.{Request}
use lundicpp.Response.{Response, text_response}
use lundicpp.Router.{RouteEntry, resolve, ParamEntry}
use lundicpp.Router.Resolve.{Refuses, Selects, resolve_iff, resolve-none_iff}
use lundicpp.Middleware.{Outcome, returned, thrown, thrown_other, Next}
use lundicpp.Server.{
  StaticFiles, head_answer, file_answer, not_routed, head_routed, routed, dispatch,
}
use lundicpp.Server.Registration.{plain}

abbrev pub without_body : Response → Response
without_body res = record res { body = [] }

-- What becomes of what a GET handler does.
abbrev pub handler_head : Outcome Response → Outcome Response
handler_head (returned res) = returned (without_body res)
handler_head (thrown what) = returned (plain 500 [])
handler_head thrown_other = thrown_other

-- What becomes of what the static files answer.
abbrev pub file_head : Outcome (Option Response) → Outcome Response
file_head (returned (some res)) = returned (without_body res)
file_head (returned none) = returned (plain 404 (codes "Not Found"))
file_head (thrown what) = thrown what
file_head thrown_other = thrown_other

module _ {ℓ} {W : Type ℓ} where
  -- The answer to a HEAD request: by the first route for GET that fits, with its parameters and without the body
  -- of its response; where there is none by the static files, without the body of a file; and by the text
  -- with status 404 where there are no mounts.
  pub data HeadAnswer (routes : List (RouteEntry (Next W))) (static_files : StaticFiles)
      (req : Request) (w : W) : Outcome Response × Request × W → Type ℓ where
    by_handler :
        {h : Next W} {ps : List ParamEntry} {o : Outcome Response} {r : Request} {w' : W}
        → Selects (codes "GET") req.path routes h ps
        → h (record req { params = ps }) w ≡ (o, r, w')
        → HeadAnswer routes static_files req w (handler_head o, r, w')
    by_files :
        {ps : List ParamEntry}
        → All (Refuses (codes "GET") req.path) routes
        → static_files.has_mounts ≡ true
        → HeadAnswer routes static_files req w (
          file_head (static_files.try_serve req.path (record req { params = ps })),
          record req { params = ps },
          w,
        )
    by_nothing :
        {ps : List ParamEntry}
        → All (Refuses (codes "GET") req.path) routes
        → static_files.has_mounts ≡ false
        → HeadAnswer routes static_files req w
            (returned (plain 404 (codes "Not Found")), record req { params = ps }, w)

  head_answer-handler_head :
      (o : Outcome Response × Request × W) → head_answer o ≡ (handler_head o.0, o.1, o.2)
  unfolding head_answer text_response
  head_answer-handler_head (returned res, r, w) = refl
  head_answer-handler_head (thrown what, r, w) = refl
  head_answer-handler_head (thrown_other, r, w) = refl

  file_answer-file_head :
      (req : Request) (w : W) (o : Outcome (Option Response))
      → bytes_eq req.method (codes "HEAD") ≡ true
      → file_answer req w o ≡ (file_head o, req, w)
  unfolding file_answer text_response
  file_answer-file_head req w (returned none) h = refl
  file_answer-file_head req w (returned (some res)) h = rw h refl
  file_answer-file_head req w (thrown what) h = refl
  file_answer-file_head req w thrown_other h = refl

  module _ (routes : List (RouteEntry (Next W))) (static_files : StaticFiles) where
    not_routed-mounts :
        (req : Request) (w : W)
        → req.method ≡ codes "HEAD"
        → static_files.has_mounts ≡ true
        → not_routed routes static_files req w
          ≡ (file_head (static_files.try_serve req.path req), req, w)
    unfolding not_routed
    not_routed-mounts req w head mounts =
        let same : bytes_eq req.method (codes "HEAD") ≡ true =
          rw head (bytes_eq_refl (codes "HEAD")) in
        let guard : ((bytes_eq req.method (codes "GET") || bytes_eq req.method (codes "HEAD"))
              && static_files.has_mounts)
            ≡ true =
          ground (arith, same, mounts) in
        rw guard (file_answer-file_head req w (static_files.try_serve req.path req) same)

    not_routed-no_mounts :
        (req : Request) (w : W)
        → req.method ≡ codes "HEAD"
        → static_files.has_mounts ≡ false
        → not_routed routes static_files req w ≡ (returned (plain 404 (codes "Not Found")), req, w)
    unfolding not_routed text_response
    not_routed-no_mounts req w head mounts =
        let guard : ((bytes_eq req.method (codes "GET") || bytes_eq req.method (codes "HEAD"))
              && static_files.has_mounts)
            ≡ false =
          ground (arith, mounts) in
        rw guard refl

    head_routed-HeadAnswer :
        (req : Request) (w : W) (params : List ParamEntry) (p : Option (Next W) × List ParamEntry)
        → req.method ≡ codes "HEAD"
        → resolve routes (codes "GET") req.path params ≡ p
        → HeadAnswer routes static_files req w
            (head_routed routes static_files p (record req { params = params }) w)
    unfolding head_routed
    head_routed-HeadAnswer req w params (some h, ps) head e =
        let run = h (record req { params = ps }) w in
        rw (head_answer-handler_head run)
          (by_handler ((resolve_iff (codes "GET") req.path routes params ps h).0 e) refl)
    head_routed-HeadAnswer req w params (none, ps) head e =
        let refused = (resolve-none_iff (codes "GET") req.path routes params).0 (rw e refl) in
        elim (Bool-cases static_files.has_mounts) [
          | inl mounts ↦
              rw (not_routed-mounts (record req { params = ps }) w head mounts)
                (by_files refused mounts)
          | inr mounts ↦
              rw (not_routed-no_mounts (record req { params = ps }) w head mounts)
                (by_nothing refused mounts)
        ]

    routed-HeadAnswer :
        (req : Request) (w : W) (p : Option (Next W) × List ParamEntry)
        → req.method ≡ codes "HEAD"
        → p.0 ≡ none
        → HeadAnswer routes static_files req w (routed routes static_files p req w)
    unfolding routed
    routed-HeadAnswer req w (some h, ps) head n = absurd (ground (arith, n))
    routed-HeadAnswer req w (none, ps) head n =
        let same : bytes_eq req.method (codes "HEAD") ≡ true =
          rw head (bytes_eq_refl (codes "HEAD")) in
        rw same
          (head_routed-HeadAnswer req w ps (resolve routes (codes "GET") req.path ps) head refl)

    -- A HEAD request that no route of that method fits is answered by the first route for GET that fits, with
    -- what its handler returns without the body, or with status 500 and no body where the handler throws a
    -- `std::exception`; else by the static files where any are mounted, with a file without its body or
    -- with what they throw; else by the text that says 404, which has a body.
    pub dispatch-HeadAnswer :
        (req : Request) (w : W)
        → req.method ≡ codes "HEAD"
        → All (Refuses (codes "HEAD") req.path) routes
        → HeadAnswer routes static_files req w (dispatch routes static_files req w)
    unfolding dispatch
    dispatch-HeadAnswer req w head refused =
        let missing : (resolve routes req.method req.path req.params).0 ≡ none =
          rw head ((resolve-none_iff (codes "HEAD") req.path routes req.params).1 refused) in
        routed-HeadAnswer req w (resolve routes req.method req.path req.params) head missing
