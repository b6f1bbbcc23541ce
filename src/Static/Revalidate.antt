-- ===== src/Static/Revalidate.antt =====
-- Conditional requests: what a client got with a file is good for asking again.
use lundicpp.Base.{
  ℕ, arith, ◌≡◌, ◌⊎◌, refl, sym, ap, ◌∙◌, Bytes, [], Bool, true, false, Option, none, some,
  if◌then◌else◌, codes, inl, inr, starts_with, ltb, find_str, bytes_eq_refl, if_cases,
}
use lundicpp.Base.Int.{ℤ, pos, negsuc}
use lundicpp.Request.{Request}
use lundicpp.Request.Lookup.{find_header_ci}
use lundicpp.Response.{Response}
use lundicpp.Middleware.{Outcome, returned, thrown, thrown_other}
use lundicpp.Static.{
  FileSystem, StaticMount, prefix_fits, relative, with_index, strip_slash, join, named, located,
  checked, if_none_match, if_modified, read_file, etag_answer, make_etag, has_tag, try_mount,
  format_http_date, parse_http_date, unmodified,
}
use mathlib.Core.Path.{subst}
use lundicpp.Static.Headers.{HasHeader, etag_answer-HasHeader, whole_file-HasHeader}
use lundicpp.Static.Laws.{option_cases, etag_answer-SameAnswer, modified_answer-SameAnswer}

-- What the mount does with a path, whatever else the request says: it throws, it has no such file, or
-- it goes on with a file, its size and its time.
module _ (fs : FileSystem) (m : StaticMount) where
  abbrev Reaches : (Request → Option Response) → Type 0
  Reaches f =
      ((req : Request) → f req ≡ none)
      ⊎ ((file : Bytes) × (size : ℕ) × (mtime : fs.Time) × ((req : Request)
            → f req ≡ if_none_match fs m.options file size mtime req))

  under_if :
      (b : Bool) {x y : Request → Option Response}
      → Reaches x
      → Reaches y
      → Reaches (λ req. if b then x req else y req)
  under_if true p q = p
  under_if false p q = q

  under_option {ℓ} :
      {A : Type ℓ} (o : Option A) {f : A → Request → Option Response}
      → ((a : A) → Reaches (f a))
      → Reaches (λ req. elim o [ none ↦ none | some a ↦ f a req ])
  under_option none p = inl (λ req. refl)
  under_option (some a) p = p a

  located-Reaches : (full : Bytes) → Reaches (located fs m full)
  unfolding located checked
  located-Reaches full =
      under_if (fs.is_regular_file full)
        (under_option (fs.canonical full) (λ file.
          under_if (starts_with m.directory file)
            (under_option (fs.file_size file) (λ size.
              under_if (ltb m.options.max_file_size size) (inl (λ req. refl)) (
                under_option (fs.last_write_time file)
                  (λ mtime. inr (file, size, mtime, λ req. refl)))))
            (inl (λ req. refl))))
        (inl (λ req. refl))

  named-Reaches : (rel : Bytes) → Reaches (named fs m rel)
  unfolding named
  named-Reaches rel = by_dots (find_str (codes "..") rel)
    where
      by_dots :
          (o : Option ℕ)
          → Reaches (λ req. elim o as (λ _. Option Response) [
            | some n ↦ none
            | none ↦ located fs m (join m.directory rel) req
          ])
      by_dots none = located-Reaches (join m.directory rel)
      by_dots (some n) = inl (λ req. refl)

  -- The same before the name of the file is known.
  abbrev Tries : (Request → Outcome (Option Response)) → Type 0
  Tries g =
      ((what : Bytes) × ((req : Request) → g req ≡ thrown what))
      ⊎ ((f : Request → Option Response) × Reaches f × ((req : Request) → g req ≡ returned (f req)))

  try_mount-Tries : (req_path : Bytes) → Tries (try_mount fs m req_path)
  unfolding try_mount
  try_mount-Tries req_path = by_prefix (prefix_fits m.prefix req_path) (relative m.prefix req_path)
    where
      by_name :
          (o : Option Bytes)
          → Tries (λ req. elim o as (λ _. Outcome (Option Response)) [
            | none ↦ returned none
            | some rel ↦ returned (named fs m (strip_slash rel) req)
          ])
      by_name none = inr ((λ req. none), inl (λ req. refl), λ req. refl)
      by_name (some rel) =
          inr (named fs m (strip_slash rel), named-Reaches (strip_slash rel), λ req. refl)

      by_prefix :
          (b : Bool) (o : Option Bytes)
          → Tries (λ req.
            if b
            then (elim o as (λ _. Outcome (Option Response)) [
              | none ↦ thrown (codes "basic_string::substr")
              | some rel ↦
                  elim (with_index m.options.index rel) as (λ _. Outcome (Option Response)) [
                    | none ↦ returned none
                    | some rel ↦ returned (named fs m (strip_slash rel) req)
                  ]
            ])
            else returned none)
      by_prefix false o = inr ((λ req. none), inl (λ req. refl), λ req. refl)
      by_prefix true none = inl (codes "basic_string::substr", λ req. refl)
      by_prefix true (some rel) = by_name (with_index m.options.index rel)

other_status : (status : ℤ) → status ≡ pos 304 → status ≡ pos 200 → ⊥
other_status status e e' =
    let same : 304 ≡ 200 = ap (λ z. elim z as (λ _. ℕ) [ pos n ↦ n | negsuc n ↦ 0 ]) (sym e ∙ e') in
    omega (arith, same)

module _ (fs : FileSystem) (m : StaticMount) (file : Bytes) (size : ℕ) (mtime : fs.Time) where
  abbrev file_tag : Bytes
  file_tag = make_etag size (fs.seconds mtime)

  -- A response with the file has its tag.
  abbrev Carries : Option Response → Type 0
  Carries none = Unit
  Carries (some res) = res.status ≡ pos 200 → HasHeader (codes "ETag") file_tag res

  if_modified-Carries :
      (req : Request) → Carries (if_modified fs m.options file size mtime file_tag req)
  unfolding if_modified read_file
  if_modified-Carries req =
      let date = format_http_date fs mtime in
      let with_date : (last_mod : Bytes)
          → Carries (read_file fs m.options file size file_tag last_mod) =
        λ last_mod.
          option_cases Carries (fs.read file size) tt (λ body _ _.
            whole_file-HasHeader m.options file last_mod body size (fs.seconds mtime)) in
      if_cases Carries m.options.last_modified
        (λ _.
          option_cases Carries (find_header_ci (codes "if-modified-since") req.headers)
            (with_date date)
            (λ ims _.
              if_cases Carries (unmodified (fs.to_time_t mtime) (parse_http_date fs ims))
                (λ _ ok.
                  absurd
                    (other_status _ ((modified_answer-SameAnswer m.options file_tag date).0) ok))
                (λ _. with_date date)))
        (λ _. with_date [])

  if_none_match-Carries :
      (req : Request)
      → m.options.etag ≡ true
      → Carries (if_none_match fs m.options file size mtime req)
  unfolding if_none_match
  if_none_match-Carries req on =
      if_cases Carries m.options.etag
        (λ _.
          if_cases Carries (has_tag file_tag (find_header_ci (codes "if-none-match") req.headers))
            (λ _ ok. absurd (other_status _ ((etag_answer-SameAnswer m.options file_tag).0) ok))
            (λ _. if_modified-Carries req))
        (λ off. absurd (cc))

  -- A request with the tag of the file.
  asked_again :
      (req : Request)
      → m.options.etag ≡ true
      → find_header_ci (codes "if-none-match") req.headers ≡ some file_tag
      → if_none_match fs m.options file size mtime req ≡ some (etag_answer m.options file_tag)
  unfolding if_none_match has_tag
  asked_again req on e = rw (on, e, bytes_eq_refl file_tag) refl

-- The answer that says that the file has not changed.
abbrev pub IsNotModified : Bytes → Outcome (Option Response) → Type 0
IsNotModified tag (returned (some res)) =
    (res.status ≡ pos 304) × (res.body ≡ []) × HasHeader (codes "ETag") tag res
IsNotModified tag (returned none) = ⊥
IsNotModified tag (thrown what) = ⊥
IsNotModified tag thrown_other = ⊥

-- A file that a mount with entity tags gives with status 200 comes with an `ETag`, and any request for the
-- same path that sends this back in `If-None-Match` is answered with status 304, the same tag and no
-- body, as long as the file system stays as it is.
pub try_mount-revalidates :
    (fs : FileSystem) (m : StaticMount) (req_path : Bytes) (req : Request) (res : Response)
    → m.options.etag ≡ true
    → try_mount fs m req_path req ≡ returned (some res)
    → res.status ≡ pos 200
    → (tag : Bytes) × HasHeader (codes "ETag") tag res
      × ((again : Request)
          → find_header_ci (codes "if-none-match") again.headers ≡ some tag
          → IsNotModified tag (try_mount fs m req_path again))
try_mount-revalidates fs m req_path req res on e ok = elim (try_mount-Tries fs m req_path) [
  | inl (what, throws) ↦ absurd (let same = sym e ∙ throws req in cc)
  | inr (f, inl nothing, is) ↦
      absurd (let same = sym e ∙ (is req ∙ ap returned (nothing req)) in cc)
  | inr (f, inr (file, size, mtime, goes), is) ↦
      let answer : if_none_match fs m.options file size mtime req ≡ some res =
        let same = sym e ∙ (is req ∙ ap returned (goes req)) in cc in
      let t = make_etag size (fs.seconds mtime) in
      (
        t,
        subst (Carries fs m file size mtime) answer
            (if_none_match-Carries fs m file size mtime req on) ok,
        λ again sent.
            let now =
              is again
              ∙ ap returned (goes again ∙ asked_again fs m file size mtime again on sent) in
            let plain = etag_answer-SameAnswer m.options t in
            subst (IsNotModified t) (sym now) (plain.0, plain.1, etag_answer-HasHeader m.options t),
      )
]
