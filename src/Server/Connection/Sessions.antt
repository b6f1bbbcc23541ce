-- ===== src/Server/Connection/Sessions.antt =====
-- Requests as a client writes them, from their bytes through the parser and the router to the bytes of
-- their responses.
use lundicpp.Base.{
  ℕ, suc, ◌≤◌, ◌<◌, ◌≡◌, refl, ap, ◌∙◌, Bytes, List, [], ◌∷◌, ◌++◌, true, false, none, some, map,
  is_empty, codes, length, arith,
}
use lundicpp.Base.Find.{All, Lacks, All-append}
use lundicpp.Engine.Scan.First.{IsFirstEnd}
use lundicpp.Request.{Request, parse_headers}
use lundicpp.Request.Lookup.{find_header_ci}
use lundicpp.Request.Lines.{Line, IsLine}
use lundicpp.Request.Parse.{
  Target, Inline, IsTarget, bare, with_query, target_text, target-Inline, first_line, line_bytes,
  request_text, meant_request, parse_headers-text,
}
use lundicpp.Response.{Response}
use lundicpp.Router.{RouteEntry, ParamEntry}
use lundicpp.Router.Resolve.{Selects}
use lundicpp.Middleware.{returned, Next}
use lundicpp.Server.{StaticFiles, internal_error}
use lundicpp.Server.Laws.{dispatch-Selects}
use lundicpp.Server.Routes.{app_handler}
use lundicpp.Server.Delivery.{concat}
use lundicpp.Server.Connection.{
  ServerOptions, StreamRoutes, Surroundings, closed, Connection, take_over, stays_open,
  handle_connection,
}
use lundicpp.Server.Connection.Sendable.{IsPolite, IsFile, dispatch-SendsWhole}
use lundicpp.Server.Connection.Ends.{text-IsFirstEnd}
use lundicpp.Server.Connection.Requests.{Asked}
use lundicpp.Server.Connection.Pipelines.{
  Pipeline, ends_with, goes_on, wires, handle_connection-Pipeline,
}

-- A request, which is sent without a body.
pub record Written : Type 0 where
  pub method : Bytes
  pub target : Target
  pub version : Bytes
  pub lines : List Line

abbrev pub text_of : Written → Bytes
text_of r = request_text r.method r.target r.version r.lines []

-- The request that the parser reads from it.
abbrev pub meaning : Written → Request
meaning r = meant_request r.method r.target r.lines

-- It is written as HTTP has it, and its headers are within the limit of the options.
pub record IsWritten (opts : ServerOptions) (r : Written) : Type 0 where
  pub has_method : 0 < length r.method
  pub method_inline : Inline r.method
  pub version_inline : Lacks 13 r.version
  pub target_inline : IsTarget r.target
  pub are_lines : All IsLine r.lines
  pub short : length (text_of r) ≤ opts.max_header_size

parsed_text :
    (opts : ServerOptions) (r : Written) → IsWritten opts r → parse_headers (text_of r) ≡ meaning r
parsed_text opts r h =
    parse_headers-text r.method r.version r.target r.lines [] h.method_inline h.version_inline
      h.target_inline h.are_lines

has_end :
    (opts : ServerOptions) (r : Written)
    → IsWritten opts r
    → IsFirstEnd (text_of r) 0 (length (text_of r)) × (0 < length (text_of r))
has_end opts r h =
    let (ts, tr) = target-Inline r.target h.target_inline in
    text-IsFirstEnd (line_bytes r.method r.target r.version) r.lines
      (All-append _ r.method _ h.method_inline.1
        (omega arith, All-append _ (target_text r.target) _ tr (omega arith, h.version_inline)))
      h.are_lines

first_line-method : (method : Bytes) (t : Target) → (first_line method t).method ≡ method
first_line-method method (bare p) = refl
first_line-method method (with_query p q) = refl

is_empty-long : (s : Bytes) → 0 < length s → is_empty s ≡ false
is_empty-long [] h = absurd (omega arith)
is_empty-long (c ∷ s) h = refl

module _ {ℓ} {W : Type ℓ} (opts : ServerOptions) (routes : StreamRoutes) (around : Surroundings)
    (undefined : Next W) (table : List (RouteEntry (Next W))) (static_files : StaticFiles) where
  -- The request of number `n + 1` selects a route of the table, whose handler answers it with `res`.
  pub record Exchange (n : ℕ) (w : W) (r : Written) (res : Response) (w' : W) : Type ℓ where
    pub written : IsWritten opts r
    pub handler : Next W
    pub params : List ParamEntry
    pub selects : Selects (meaning r).method (meaning r).path table handler params
    pub no_length : find_header_ci (codes "content-length") (meaning r).headers ≡ none
    pub req' : Request
    pub result :
        internal_error (handler (record (meaning r) { params = params }) w)
        ≡ (returned res, req', w')
    pub no_stream : take_over routes (around.date (suc n)) (meaning r) ≡ none

  abbrev app : Next W
  app = app_handler undefined [] table static_files

  -- It is a request that the application answers.
  abbrev as_asked :
      (n : ℕ) (w w' : W) (r : Written) (res : Response)
      → Exchange n w r res w'
      → Asked opts routes around app n w (text_of r) res w'
  unfolding app_handler
  as_asked n w w' r res x =
      let parse = parsed_text opts r x.written in
      let (first, some_bytes) = has_end opts r x.written in
      record {
        first = first;
        some_bytes = some_bytes;
        short = x.written.short;
        method =
            ap (λ (q : Request). is_empty q.method) parse
            ∙ (ap is_empty (first_line-method r.method r.target)
                ∙ is_empty-long r.method x.written.has_method);
        no_stream = ap (take_over routes (around.date (suc n))) parse ∙ x.no_stream;
        no_length =
            ap (λ (q : Request). find_header_ci (codes "content-length") q.headers) parse
            ∙ x.no_length;
        req' = x.req';
        answer =
            ap (λ (q : Request). app q w) parse
            ∙ (dispatch-Selects table static_files (meaning r) w x.handler x.params x.selects
                ∙ x.result);
      }

  -- Exchanges one after the other, of which the last closes the connection.
  pub data Session : ℕ → W → List Written → List Response → Type ℓ where
    closes :
        {n : ℕ} {w w' : W} {r : Written} {res : Response}
        → Exchange n w r res w'
        → stays_open opts around (suc n) (meaning r) ≡ false
        → Session n w (r ∷ []) (res ∷ [])
    keeps :
        {n : ℕ} {w w' : W} {r : Written} {res : Response} {rs : List Written} {ress : List Response}
        → Exchange n w r res w'
        → stays_open opts around (suc n) (meaning r) ≡ true
        → Session (suc n) w' rs ress
        → Session n w (r ∷ rs) (res ∷ ress)

  still_open :
      (n : ℕ) (w w' : W) (r : Written) (res : Response)
      → Exchange n w r res w'
      → stays_open opts around (suc n) (parse_headers (text_of r))
        ≡ stays_open opts around (suc n) (meaning r)
  still_open n w w' r res x = ap (stays_open opts around (suc n)) (parsed_text opts r x.written)

  Session-Pipeline :
      (n : ℕ) (w : W) (rs : List Written) (ress : List Response)
      → Session n w rs ress
      → Pipeline opts routes around app n w (map text_of rs) ress
  unfolding as_asked
  Session-Pipeline n w [] ress s = elim s [ ]
  Session-Pipeline n w (r ∷ rs) [] s = elim s [ ]
  Session-Pipeline n w (r ∷ []) (res ∷ []) (closes {w' = w'} x e) =
      ends_with (as_asked n w w' r res x) (still_open n w w' r res x ∙ e)
  Session-Pipeline n w (r ∷ rs) (res ∷ ress) (keeps {w' = w'} x e s) =
      goes_on (as_asked n w w' r res x) (still_open n w w' r res x ∙ e)
        (Session-Pipeline (suc n) w' rs ress s)

  -- Requests without a body that a client writes one behind the other, each of which selects a route, get
  -- the responses of the handlers of these routes, each run with the request as it was written, the
  -- parameters captured from its path and what the handlers before it left; they are sent in order, in
  -- whatever pieces the network brings the requests, and the last one closes the connection. The
  -- application has no global middleware, the client sends the first headers in time and takes the
  -- responses, no headers are longer than the limit, and what the handlers and the static files return
  -- can be sent: as many headers as it counts, and sizes of 64 bits.
  pub handle_connection-Session :
      (w : W) (rs : List Written) (ress : List Response) (after : Bytes) (incoming : List Bytes)
      (writes : ℕ)
      → All IsPolite table
      → ((r : Request) → IsFile (static_files.try_serve r.path r))
      → around.headers_late ≡ false
      → Session 0 w rs ress
      → length rs ≤ writes
      → concat incoming ≡ concat (map text_of rs) ++ after
      → (c : Connection W) × (handle_connection opts routes around
            (app_handler undefined [] table static_files)
            w
            incoming
            writes
          ≡ some (closed, c))
        × (c.sent ≡ wires opts routes around (app_handler undefined [] table static_files) 0 ress)
  unfolding app_handler
  handle_connection-Session w rs ress after incoming writes polite served on_time s le joined =
      handle_connection-Pipeline opts routes around (app_handler undefined [] table static_files) w
        (map text_of rs) ress after incoming writes
        (dispatch-SendsWhole table static_files polite served) on_time
        (Session-Pipeline 0 w rs ress s) (omega (arith, le, as_many rs)) joined
    where
      as_many : (rs : List Written) → length (map text_of rs) ≡ length rs
      as_many [] = refl
      as_many (r ∷ rs) = omega (arith, as_many rs)
