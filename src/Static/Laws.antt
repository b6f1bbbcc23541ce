-- ===== src/Static/Laws.antt =====
-- Every file that is served stands under the directory of a mount.
use lundicpp.Base.{
  ℕ, zero, suc, ◌≤◌, ◌≡◌, ◌⊎◌, refl, sym, ap, ◌∙◌, Bytes, List, [], ◌∷◌, ◌++◌, true, Option, none,
  some, ltb, if_cases, length, drop, arith, inl, inr, starts_with, find_str, codes,
}
use lundicpp.Base.Int.{ℤ, pos, negsuc}
use lundicpp.Request.{Request}
use lundicpp.Request.Lookup.{find_header_ci}
use lundicpp.Response.{Response, new_response, set_header}
use lundicpp.Middleware.{Outcome, returned, thrown, thrown_other}
use lundicpp.Static.Mime.{extension_lower, mime_for_extension}
use lundicpp.Static.{
  FileSystem, StaticOptions, StaticMount, prefix_fits, relative, with_index, strip_slash, join,
  add_max_age, add_cache_control, add_if_some, etag_answer, modified_answer, whole_file, has_tag,
  make_etag, format_http_date, parse_http_date, unmodified, read_file, if_modified, if_none_match,
  checked, located, named, try_mount, try_serve,
}

-- What holds of both cases of an option holds of the choice between them.
pub option_cases {ℓ κ μ} :
    {A : Type ℓ} {B : Type κ} (P : B → Type μ) (o : Option A) {x : B} {y : A → B}
    → P x
    → ((a : A) → o ≡ some a → P (y a))
    → P (elim o as (λ _. B) [ none ↦ x | some a ↦ y a ])
option_cases P none absent present = absent
option_cases P (some a) absent present = present a refl

starts_with-append : (p s : Bytes) → starts_with p s ≡ true → s ≡ p ++ drop (length p) s
unfolding starts_with
starts_with-append [] s h = refl
starts_with-append (x ∷ p) [] h = absurd (cc)
starts_with-append (x ∷ p) (y ∷ s) h =
    let same : x ≡ y = ground (arith, h) in
    let rest : starts_with p s ≡ true = ground (arith, h) in
    rw same (ap (λ t. y ∷ t) (starts_with-append p s rest))

-- The two have the same status and body.
abbrev SameAnswer : Response → Response → Type 0
SameAnswer r r' = (r.status ≡ r'.status) × (r.body ≡ r'.body)

add_max_age-SameAnswer : (age : ℤ) (r : Response) → SameAnswer (add_max_age age r) r
unfolding add_max_age set_header
add_max_age-SameAnswer (pos zero) r = (refl, refl)
add_max_age-SameAnswer (pos (suc n)) r = (refl, refl)
add_max_age-SameAnswer (negsuc n) r = (refl, refl)

add_cache_control-SameAnswer : (age : ℤ) (r : Response) → SameAnswer (add_cache_control age r) r
unfolding add_cache_control add_max_age set_header
add_cache_control-SameAnswer (pos zero) r = (refl, refl)
add_cache_control-SameAnswer (pos (suc n)) r = (refl, refl)
add_cache_control-SameAnswer (negsuc n) r = (refl, refl)

add_if_some-SameAnswer :
    (name value : Bytes) (r : Response) → SameAnswer (add_if_some name value r) r
unfolding add_if_some set_header
add_if_some-SameAnswer name [] r = (refl, refl)
add_if_some-SameAnswer name (c ∷ value) r = (refl, refl)

whole_file-SameAnswer :
    (opts : StaticOptions) (file etag last_mod body : Bytes)
    → ((whole_file opts file etag last_mod body).status ≡ pos 200)
      × ((whole_file opts file etag last_mod body).body ≡ body)
unfolding whole_file set_header
whole_file-SameAnswer opts file etag last_mod body =
    let r =
      set_header (codes "Content-Type") (mime_for_extension (extension_lower file))
        (record new_response { status = pos 200; body = body }) in
    let tagged = add_if_some (codes "ETag") etag r in
    let dated = add_if_some (codes "Last-Modified") last_mod tagged in
    let cached = add_cache_control-SameAnswer opts.max_age dated in
    let dates = add_if_some-SameAnswer (codes "Last-Modified") last_mod tagged in
    let tags = add_if_some-SameAnswer (codes "ETag") etag r in
    (cached.0 ∙ (dates.0 ∙ tags.0), cached.1 ∙ (dates.1 ∙ tags.1))

pub etag_answer-SameAnswer :
    (opts : StaticOptions) (etag : Bytes)
    → ((etag_answer opts etag).status ≡ pos 304) × ((etag_answer opts etag).body ≡ [])
unfolding etag_answer set_header
etag_answer-SameAnswer opts etag =
    add_max_age-SameAnswer opts.max_age
      (set_header (codes "ETag") etag (record new_response { status = pos 304 }))

pub modified_answer-SameAnswer :
    (opts : StaticOptions) (etag last_mod : Bytes)
    → ((modified_answer opts etag last_mod).status ≡ pos 304)
      × ((modified_answer opts etag last_mod).body ≡ [])
unfolding modified_answer
modified_answer-SameAnswer opts etag last_mod =
    let r = record new_response { status = pos 304 } in
    let dated = add_if_some (codes "Last-Modified") last_mod r in
    let tagged = add_if_some (codes "ETag") etag dated in
    let cached = add_max_age-SameAnswer opts.max_age tagged in
    let tags = add_if_some-SameAnswer (codes "ETag") etag dated in
    let dates = add_if_some-SameAnswer (codes "Last-Modified") last_mod r in
    (cached.0 ∙ (tags.0 ∙ dates.0), cached.1 ∙ (tags.1 ∙ dates.1))

-- What holds of the value that is returned; an exception is none.
abbrev pub Answers : (Option Response → Type 0) → Outcome (Option Response) → Type 0
Answers P (returned r) = P r
Answers P (thrown what) = Unit
Answers P thrown_other = Unit

module _ (fs : FileSystem) (m : StaticMount) where
  -- The path `full` resolves to a regular file under the directory of the mount, of a size that is allowed.
  pub record Found (file : Bytes) (size : ℕ) : Type 0 where
    pub full : Bytes
    pub below : Bytes
    pub regular : fs.is_regular_file full ≡ true
    pub resolved : fs.canonical full ≡ some file
    pub under : file ≡ m.directory ++ below
    pub sized : fs.file_size file ≡ some size
    pub allowed : size ≤ m.options.max_file_size

  -- The answer is the whole of such a file, or it says that it has not changed and has no body.
  abbrev pub IsServed : Option Response → Type 0
  IsServed none = Unit
  IsServed (some res) =
      (file : Bytes) × (size : ℕ) × Found file size
      × (((res.status ≡ pos 304) × (res.body ≡ []))
          ⊎ ((res.status ≡ pos 200) × (fs.read file size ≡ some res.body)))

  module _ (file : Bytes) (size : ℕ) (found : Found file size) where
    unchanged : (res : Response) → res.status ≡ pos 304 → res.body ≡ [] → IsServed (some res)
    unchanged res status body = (file, size, found, inl (status, body))

    read_file-IsServed :
        (etag last_mod : Bytes) → IsServed (read_file fs m.options file size etag last_mod)
    unfolding read_file
    read_file-IsServed etag last_mod = option_cases IsServed (fs.read file size) tt (λ body e.
        let kept = whole_file-SameAnswer m.options file etag last_mod body in
        (file, size, found, inr (kept.0, e ∙ ap some (sym kept.1))))

    if_modified-IsServed :
        (mtime : fs.Time) (etag : Bytes) (req : Request)
        → IsServed (if_modified fs m.options file size mtime etag req)
    unfolding if_modified
    if_modified-IsServed mtime etag req =
        let date = format_http_date fs mtime in
        if_cases IsServed m.options.last_modified
          (λ _.
            option_cases IsServed (find_header_ci (codes "if-modified-since") req.headers)
              (read_file-IsServed etag date)
              (λ ims _.
                if_cases IsServed (unmodified (fs.to_time_t mtime) (parse_http_date fs ims))
                  (λ _.
                    let kept = modified_answer-SameAnswer m.options etag date in
                    unchanged (modified_answer m.options etag date) kept.0 kept.1)
                  (λ _. read_file-IsServed etag date)))
          (λ _. read_file-IsServed etag [])

    if_none_match-IsServed :
        (mtime : fs.Time) (req : Request)
        → IsServed (if_none_match fs m.options file size mtime req)
    unfolding if_none_match
    if_none_match-IsServed mtime req =
        let etag = make_etag size (fs.seconds mtime) in
        if_cases IsServed m.options.etag
          (λ _.
            if_cases IsServed (has_tag etag (find_header_ci (codes "if-none-match") req.headers))
              (λ _.
                let kept = etag_answer-SameAnswer m.options etag in
                unchanged (etag_answer m.options etag) kept.0 kept.1)
              (λ _. if_modified-IsServed mtime etag req))
          (λ _. if_modified-IsServed mtime [] req)

  located-IsServed : (full : Bytes) (req : Request) → IsServed (located fs m full req)
  unfolding located checked
  located-IsServed full req =
      if_cases IsServed (fs.is_regular_file full)
        (λ regular. option_cases IsServed (fs.canonical full) tt (λ file resolved.
          if_cases IsServed (starts_with m.directory file)
            (λ under. option_cases IsServed (fs.file_size file) tt (λ size sized.
              if_cases IsServed (ltb m.options.max_file_size size) (λ _. tt)
                (λ allowed. option_cases IsServed (fs.last_write_time file) tt (λ mtime _.
                  if_none_match-IsServed file size
                    (record {
                      full = full;
                      below = drop (length m.directory) file;
                      regular = regular;
                      resolved = resolved;
                      under = starts_with-append m.directory file under;
                      sized = sized;
                      allowed = ground (arith, allowed);
                    })
                    mtime req))))
            (λ _. tt)))
        (λ _. tt)

  named-IsServed : (rel : Bytes) (req : Request) → IsServed (named fs m rel req)
  unfolding named
  named-IsServed rel req = by_dots (find_str (codes "..") rel)
    where
      by_dots :
          (o : Option ℕ)
          → IsServed (elim o as (λ _. Option Response) [
            | some n ↦ none
            | none ↦ located fs m (join m.directory rel) req
          ])
      by_dots none = located-IsServed (join m.directory rel) req
      by_dots (some n) = tt

  try_mount-IsServed :
      (req_path : Bytes) (req : Request) → Answers IsServed (try_mount fs m req_path req)
  unfolding try_mount
  try_mount-IsServed req_path req =
      if_cases (Answers IsServed) (prefix_fits m.prefix req_path)
        (λ _. option_cases (Answers IsServed) (relative m.prefix req_path) tt (λ rel _.
          option_cases (Answers IsServed) (with_index m.options.index rel) tt
            (λ rel' _. named-IsServed (strip_slash rel') req)))
        (λ _. tt)

module _ (fs : FileSystem) where
  -- The mount is one of these.
  abbrev pub Among : (StaticMount → Type 0) → List StaticMount → Type 0
  Among P [] = ⊥
  Among P (m ∷ mounts) = P m ⊎ Among P mounts

  -- The answer, if there is one, is of one of the mounts.
  abbrev pub IsAnswered : List StaticMount → Option Response → Type 0
  IsAnswered mounts none = Unit
  IsAnswered mounts (some res) = Among (λ m. IsServed fs m (some res)) mounts

  later_mount :
      (m : StaticMount) (mounts : List StaticMount) (r : Outcome (Option Response))
      → Answers (IsAnswered mounts) r
      → Answers (IsAnswered (m ∷ mounts)) r
  later_mount m mounts (returned none) h = tt
  later_mount m mounts (returned (some res)) h = inr h
  later_mount m mounts (thrown what) h = tt
  later_mount m mounts thrown_other h = tt

  first_answer :
      (m : StaticMount) (mounts : List StaticMount) (r rest : Outcome (Option Response))
      → Answers (IsServed fs m) r
      → Answers (IsAnswered mounts) rest
      → Answers (IsAnswered (m ∷ mounts)) (elim r as (λ _. Outcome (Option Response)) [
        | thrown what ↦ thrown what
        | thrown_other ↦ thrown_other
        | returned r ↦ elim r as (λ _. Outcome (Option Response)) [
          | some res ↦ returned (some res)
          | none ↦ rest
        ]
      ])
  first_answer m mounts (returned (some res)) rest h later = inl h
  first_answer m mounts (returned none) rest h later = later_mount m mounts rest later
  first_answer m mounts (thrown what) rest h later = tt
  first_answer m mounts thrown_other rest h later = tt

  -- Whatever the path and the links in the file system, a response that the static files give is of a
  -- regular file whose resolved name begins with the directory of one of the mounts and whose size that
  -- mount allows, and it is the whole content of that file with status 200, or an
  -- empty body with status 304.
  pub try_serve-IsAnswered :
      (mounts : List StaticMount) (req_path : Bytes) (req : Request)
      → Answers (IsAnswered mounts) (try_serve fs mounts req_path req)
  unfolding try_serve
  try_serve-IsAnswered [] req_path req = tt
  try_serve-IsAnswered (m ∷ mounts) req_path req =
      first_answer m mounts (try_mount fs m req_path req) (try_serve fs mounts req_path req)
        (try_mount-IsServed fs m req_path req) (try_serve-IsAnswered mounts req_path req)
