-- ===== src/Static/Headers.antt =====
-- The headers that the answers of the static files keep.
use lundicpp.Base.{
  ℕ, ◌≡◌, refl, ap, ◌∙◌, Bytes, List, [], ◌∷◌, ◌++◌, codes, zero, suc, append_assoc, if_cases,
  is_empty,
}
use lundicpp.Base.Int.{ℤ, pos, negsuc}
use lundicpp.Response.{Response, HeaderEntry, new_response, set_header}
use lundicpp.Static.{
  StaticOptions, etag_answer, whole_file, make_etag, add_max_age, add_if_some, add_cache_control,
}
use lundicpp.Static.Mime.{extension_lower, mime_for_extension}

-- The response has this header.
abbrev pub HasHeader : Bytes → Bytes → Response → Type 0
HasHeader name value res =
    (before : List HeaderEntry) × (after : List HeaderEntry) × (res.headers
      ≡ before ++ record { name = name; value = value } ∷ after)

set_header-there :
    (name value : Bytes) (r : Response) → HasHeader name value (set_header name value r)
unfolding set_header
set_header-there name value r = (r.headers, [], refl)

set_header-keeps :
    (name value n v : Bytes) (r : Response)
    → HasHeader name value r
    → HasHeader name value (set_header n v r)
unfolding set_header
set_header-keeps name value n v r (before, after, e) = (
  before,
  after ++ record { name = n; value = v } ∷ [],
  ap (λ hs. hs ++ record { name = n; value = v } ∷ []) e ∙ append_assoc before _ _,
)

add_max_age-keeps :
    (name value : Bytes) (age : ℤ) (r : Response)
    → HasHeader name value r
    → HasHeader name value (add_max_age age r)
unfolding add_max_age
add_max_age-keeps name value (pos zero) r h = h
add_max_age-keeps name value (pos (suc n)) r h = set_header-keeps name value _ _ r h
add_max_age-keeps name value (negsuc n) r h = h

add_cache_control-keeps :
    (name value : Bytes) (age : ℤ) (r : Response)
    → HasHeader name value r
    → HasHeader name value (add_cache_control age r)
unfolding add_cache_control
add_cache_control-keeps name value (pos zero) r h = set_header-keeps name value _ _ r h
add_cache_control-keeps name value (pos (suc n)) r h =
    add_max_age-keeps name value (pos (suc n)) r h
add_cache_control-keeps name value (negsuc n) r h = set_header-keeps name value _ _ r h

add_if_some-keeps :
    (name value n v : Bytes) (r : Response)
    → HasHeader name value r
    → HasHeader name value (add_if_some n v r)
unfolding add_if_some
add_if_some-keeps name value n v r h =
    if_cases (HasHeader name value) (is_empty v) (λ _. h) (λ _. set_header-keeps name value n v r h)

pub etag_answer-HasHeader :
    (opts : StaticOptions) (etag : Bytes) → HasHeader (codes "ETag") etag (etag_answer opts etag)
unfolding etag_answer
etag_answer-HasHeader opts etag =
    let plain : Response = record new_response { status = pos 304 } in
    add_max_age-keeps (codes "ETag") etag opts.max_age (set_header (codes "ETag") etag plain)
      (set_header-there (codes "ETag") etag plain)

pub whole_file-HasHeader :
    (opts : StaticOptions) (file last_mod body : Bytes) (size seconds : ℕ)
    → HasHeader
        (codes "ETag")
        (make_etag size seconds)
        (whole_file opts file (make_etag size seconds) last_mod body)
unfolding whole_file make_etag add_if_some
whole_file-HasHeader opts file last_mod body size seconds =
    let tag = make_etag size seconds in
    let plain : Response =
      set_header (codes "Content-Type") (mime_for_extension (extension_lower file))
        (record new_response { status = pos 200; body = body }) in
    let tagged = set_header (codes "ETag") tag plain in
    add_cache_control-keeps (codes "ETag") tag opts.max_age
      (add_if_some (codes "Last-Modified") last_mod tagged)
      (add_if_some-keeps (codes "ETag") tag (codes "Last-Modified") last_mod tagged
        (set_header-there (codes "ETag") tag plain))
