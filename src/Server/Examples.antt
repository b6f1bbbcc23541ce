-- ===== src/Server/Examples.antt =====
-- A small application, the reads of one request, and the workers of a server.
use lundicpp.Base.{ℕ, ◌+◌, ◌≡◌, refl, Bytes, List, [], ◌∷◌, codes, none, false}
use lundicpp.Base.Int.{pos}
use lundicpp.Engine.Buffer.{Buffer, empty_buffer}
use lundicpp.Engine.Buffer.Laws.{empty_buffer-Holds}
use lundicpp.Request.{Request, new_request}
use lundicpp.Response.{text_response}
use lundicpp.Router.{RouteEntry, add, resolve, match_route}
use lundicpp.Middleware.{MiddlewareFn}
use lundicpp.Middleware.{returned, thrown, Next}
use lundicpp.Server.{StaticFiles, dispatch, least_loaded, group_prefix}
use lundicpp.Router.{parse_pattern}
use lundicpp.Router.Match.{same, next, done}
use lundicpp.Middleware.Laws.{nested}
use lundicpp.Server.{internal_error}
use lundicpp.Server.Routes.{app_handler, get, group_register, group_register_with}
use lundicpp.Server.Registration.{
  IsFor, plain, app_handler-nested, group_register-dispatch, group_register_with-destroyed,
}
use lundicpp.Server.Laws.{IsReturned, dispatch-IsReturned}
use lundicpp.Server.Head.{HeadAnswer, dispatch-HeadAnswer}
use lundicpp.Server.Read.{read_headers}
use lundicpp.Server.Delivery.{IsDelivered, read_headers-IsDelivered}

abbrev failing : Next ℕ
failing req w = (thrown (codes "boom"), req, w)

abbrev hello : Next ℕ
unfolding text_response
hello req w = (returned (text_response (codes "hello") (pos 200)), req, w)

abbrev routes : List (RouteEntry (Next ℕ))
unfolding add hello
routes = add (codes "GET") (codes "/hello") hello (add (codes "GET") (codes "/boom") failing [])

abbrev no_files : StaticFiles
no_files = record { has_mounts = false; try_serve = λ path req. returned none }

abbrev head_hello : Request
head_hello = record new_request { method = codes "HEAD"; path = codes "/hello" }

abbrev get_boom : Request
get_boom = record new_request { method = codes "GET"; path = codes "/boom" }

dispatch-IsReturned_example : IsReturned (dispatch routes no_files get_boom 0).0
unfolding routes hello
dispatch-IsReturned_example =
    dispatch-IsReturned routes no_files get_boom 0 ((λ req w. tt), ((λ req w. tt), tt)) (λ r. tt)

caught :
    (dispatch routes no_files get_boom 0).0
    ≡ returned (text_response (codes "Internal Server Error: boom") (pos 500))
unfolding dispatch routes match_route
caught = refl

dispatch-HeadAnswer_example :
    HeadAnswer routes no_files head_hello 0 (dispatch routes no_files head_hello 0)
unfolding routes
dispatch-HeadAnswer_example =
    dispatch-HeadAnswer routes no_files head_hello 0 refl
      ((λ same ps c. absurd (cc same)), ((λ same ps c. absurd (cc same)), tt))

emptied : (dispatch routes no_files head_hello 0).0 ≡ returned (text_response [] (pos 200))
unfolding dispatch routes text_response match_route
emptied = refl

-- The end of the headers is cut between two reads.
abbrev reads : List Bytes
reads = codes "GET / HTTP/1.1\r\n\r" ∷ codes "\nbody" ∷ []

abbrev fresh : Buffer
unfolding empty_buffer
fresh = empty_buffer 8

read_headers-IsDelivered_example : IsDelivered 64 [] reads (read_headers 64 reads fresh)
unfolding fresh
read_headers-IsDelivered_example = read_headers-IsDelivered 64 reads fresh [] (empty_buffer-Holds 8)

second : least_loaded 3 (1 ∷ 2 ∷ 1 ∷ []) ≡ 1
unfolding least_loaded
second = refl

grouped : group_prefix (codes "api/") ≡ codes "/api"
unfolding group_prefix
grouped = refl

abbrev grouped_hello : Request
grouped_hello = record new_request { method = codes "GET"; path = codes "/api/hello" }

hello-IsFor : IsFor {W = ℕ} (codes "api/") (codes "/hello") get [] grouped_hello []
unfolding group_prefix parse_pattern lundicpp.Router.split_path_sv
hello-IsFor = record {
  others = tt;
  same_method = refl;
  captures = next (same refl) (next (same refl) done);
}

group_register-dispatch_example :
    dispatch
      (group_register (codes "api/") get (codes "/hello") failing [])
      no_files
      grouped_hello
      0
    ≡ (returned (plain 500 (codes "Internal Server Error: boom")), grouped_hello, 0)
group_register-dispatch_example =
    group_register-dispatch (codes "api/") (codes "/hello") get failing [] no_files grouped_hello 0
      [] hello-IsFor

answered :
    (dispatch
      (group_register (codes "api/") get (codes "/hello") hello [])
      no_files
      grouped_hello
      0).0
    ≡ returned (text_response (codes "hello") (pos 200))
unfolding dispatch group_register match_route hello
answered = refl

-- A layer that counts the requests and hands them on.
abbrev counting : MiddlewareFn ℕ
counting req inner w = inner req (w + 1)

app_handler-nested_example :
    app_handler failing (counting ∷ counting ∷ []) routes no_files
    ≡ nested (counting ∷ counting ∷ []) (dispatch routes no_files)
app_handler-nested_example = app_handler-nested failing (counting ∷ counting ∷ []) routes no_files

counted : (app_handler failing (counting ∷ counting ∷ []) routes no_files get_boom 0).2 ≡ 2
unfolding app_handler routes match_route
counted = refl

-- A layer of a group's route, where a call of what was destroyed should be taken to throw.
group_register_with-destroyed_example :
    dispatch
      (group_register_with failing (codes "api/") get (codes "/hello") (counting ∷ []) hello [])
      no_files
      grouped_hello
      0
    ≡ internal_error (failing grouped_hello 0)
group_register_with-destroyed_example =
    group_register_with-destroyed failing (codes "api/") (codes "/hello") get counting [] hello []
      no_files grouped_hello 0 [] hello-IsFor
