-- ===== src/Static/Examples.antt =====
-- A mount with one file, and a link in it that leads elsewhere.
use lundicpp.Base.{
  ℕ, ◌≡◌, ◌≢◌, refl, Option, if_cases, Bytes, [], ◌∷◌, List, true, none, some, bytes_eq, codes,
  if◌then◌else◌, ◌||◌,
}
use lundicpp.Base.Int.{pos}
use lundicpp.Url.{lower}
use lundicpp.Middleware.{returned}
use lundicpp.Request.{Request, new_request}
use lundicpp.Request.Lookup.{find_header_ci}
use lundicpp.Response.{Response}
use lundicpp.Static.{
  FileSystem, StaticOptions, StaticMount, mount, try_serve, try_mount, whole_file, make_etag,
}
use lundicpp.Static.Headers.{HasHeader}
use lundicpp.Static.Revalidate.{IsNotModified, try_mount-revalidates}
use lundicpp.Static.Mime.{extension_lower, mime_for_extension}
use lundicpp.Static.Laws.{Answers}
use lundicpp.Static.Mounts.{Mounted, no_mounts, mounted, IsContained, try_serve-IsContained}

abbrev page : Bytes
page = codes "/srv/www/a.HTML"

abbrev link : Bytes
link = codes "/srv/www/link"

abbrev fs : FileSystem
fs = record {
  Time = ℕ;
  is_regular_file = λ p. bytes_eq p page || bytes_eq p link;
  is_directory = λ p. true;
  canonical = λ p. elim p [
    | [] ↦ none
    | c ∷ s ↦ if bytes_eq (c ∷ s) link then some (codes "/etc/passwd") else some (c ∷ s)
  ];
  file_size = λ p. some 2;
  last_write_time = λ p. some 255;
  read = λ p n. some (codes "hi");
  seconds = λ t. t;
  to_time_t = λ t. pos t;
  http_text = λ t. codes "date";
  http_time = λ s. none;
}

abbrev opts : StaticOptions
opts = record {
  max_age = pos 3600;
  etag = true;
  last_modified = true;
  index = codes "index.html";
  max_file_size = 100;
}

abbrev mounts : List StaticMount
mounts = record { prefix = codes "/"; directory = codes "/srv/www/"; options = opts } ∷ []

one_mount : mount fs (codes "/") (codes "/srv/www") opts [] ≡ returned mounts
unfolding mount bytes_eq
one_mount = refl

-- The link leads out of the directory.
link_refused : try_serve fs mounts (codes "/link") new_request ≡ returned none
unfolding try_serve bytes_eq
link_refused = refl

html_type : mime_for_extension (extension_lower page) ≡ codes "text/html; charset=utf-8"
unfolding mime_for_extension extension_lower bytes_eq lower
html_type = refl

absolute : (p : Bytes) → fs.canonical p ≢ some []
absolute [] = λ e. cc
absolute (c ∷ s) =
    if_cases (λ (o : Option Bytes). o ≢ some []) (bytes_eq (c ∷ s) link)
      {x = some (codes "/etc/passwd")} {y = some (c ∷ s)} (λ _ e. cc) (λ _ e. cc)

mounts-Mounted : Mounted fs mounts
unfolding mount bytes_eq
mounts-Mounted = mounted (codes "/") (codes "/srv/www") opts no_mounts refl

try_serve-IsContained_example :
    Answers (IsContained fs) (try_serve fs mounts (codes "/a.HTML") new_request)
try_serve-IsContained_example =
    try_serve-IsContained fs absolute mounts (codes "/a.HTML") new_request mounts-Mounted

abbrev www : StaticMount
www = record { prefix = codes "/"; directory = codes "/srv/www/"; options = opts }

abbrev page_response : Response
unfolding whole_file make_etag
page_response = whole_file opts page (make_etag 2 255) (codes "date") (codes "hi")

page_served : try_mount fs www (codes "/a.HTML") new_request ≡ returned (some page_response)
unfolding try_mount bytes_eq page_response
page_served = refl

try_mount-revalidates_example :
    (tag : Bytes) × HasHeader (codes "ETag") tag page_response
    × ((again : Request)
        → find_header_ci (codes "if-none-match") again.headers ≡ some tag
        → IsNotModified tag (try_mount fs www (codes "/a.HTML") again))
unfolding page_response
try_mount-revalidates_example =
    try_mount-revalidates fs www (codes "/a.HTML") new_request page_response refl page_served refl
