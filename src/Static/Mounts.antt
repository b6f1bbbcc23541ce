-- ===== src/Static/Mounts.antt =====
-- The directories of the mounts that `mount` makes.
use lundicpp.Base.{
  ℕ, suc, ◌≡◌, ◌≢◌, refl, sym, ap, ◌∙◌, Bytes, List, [], ◌∷◌, ◌++◌, true, Option, none, some, not,
  ◌==◌, ◌-◌, length, if_cases, inl, inr, arith,
}
use lundicpp.Base.Find.{All, All-append}
use lundicpp.Request.{Request}
use lundicpp.Response.{Response}
use lundicpp.Router.{back}
use lundicpp.Middleware.{Outcome, returned, thrown, thrown_other}
use lundicpp.Static.{FileSystem, StaticOptions, StaticMount, with_slash, mount, try_serve}
use lundicpp.Static.Laws.{option_cases, Answers, IsServed, Among, IsAnswered, try_serve-IsAnswered}
use mathlib.Core.Path.{subst}

-- The path of a directory with a slash at its end.
abbrev pub EndsSlash : Bytes → Type 0
EndsSlash s = (front : Bytes) × (s ≡ front ++ b'/' ∷ [])

back_behind : (c d : ℕ) (s : Bytes) → back (c ∷ d ∷ s) ≡ back (d ∷ s)
back_behind c d s =
    let one : suc (length s) - 1 ≡ length s = omega arith in
    let two : suc (suc (length s)) - 1 ≡ suc (length s) = omega arith in rw (one, two) refl

back-EndsSlash : (c : ℕ) (s : Bytes) → back (c ∷ s) ≡ b'/' → EndsSlash (c ∷ s)
back-EndsSlash c [] h = ([], ap (λ t. t ∷ []) h)
back-EndsSlash c (d ∷ s) h =
    let (front, e) = back-EndsSlash d s (sym (back_behind c d s) ∙ h) in
    (c ∷ front, ap (λ t. c ∷ t) e)

with_slash-EndsSlash : (s : Bytes) → s ≢ [] → EndsSlash (with_slash s)
unfolding with_slash
with_slash-EndsSlash [] h = absurd (h refl)
with_slash-EndsSlash (c ∷ s) h =
    if_cases EndsSlash (not (back (c ∷ s) == b'/')) (λ _. (c ∷ s, refl))
      (λ e. back-EndsSlash c s (ground (arith, e)))

-- What calls of `mount` make.
pub data Mounted (fs : FileSystem) : List StaticMount → Type 0 where
  no_mounts : Mounted fs []
  mounted :
      {mounts mounts' : List StaticMount} (url_prefix directory : Bytes) (opts : StaticOptions)
      → Mounted fs mounts
      → mount fs url_prefix directory opts mounts ≡ returned mounts'
      → Mounted fs mounts'

module _ (fs : FileSystem) where
  -- The directory of the mount is the resolved name of one that was given, with a slash at its end.
  pub record IsDirectory (m : StaticMount) : Type 0 where
    pub given : Bytes
    pub resolved : Bytes
    pub is_resolved : fs.canonical given ≡ some resolved
    pub is_directory : fs.is_directory resolved ≡ true
    pub same_directory : m.directory ≡ with_slash resolved
    pub ends_slash : EndsSlash m.directory

  -- The mounts after a call that returned.
  abbrev After : Outcome (List StaticMount) → Type 0
  After (returned mounts) = All IsDirectory mounts
  After (thrown what) = Unit
  After thrown_other = Unit

  -- The file of a response, if there is one, lies under a directory that was given.
  abbrev pub IsContained : Option Response → Type 0
  IsContained none = Unit
  IsContained (some res) = (m : StaticMount) × IsDirectory m × IsServed fs m (some res)

  module _ (absolute : (p : Bytes) → fs.canonical p ≢ some []) where
    mount-IsDirectory :
        (url_prefix directory : Bytes) (opts : StaticOptions) (mounts : List StaticMount)
        → All IsDirectory mounts
        → After (mount fs url_prefix directory opts mounts)
    unfolding mount
    mount-IsDirectory url_prefix directory opts mounts h =
        option_cases After (fs.canonical directory) tt (λ dir resolved.
          if_cases After (fs.is_directory dir)
            (λ is. All-append IsDirectory mounts _ h (
              record {
                given = directory;
                resolved = dir;
                is_resolved = resolved;
                is_directory = is;
                same_directory = refl;
                ends_slash =
                    with_slash-EndsSlash dir
                      (λ nothing. absolute directory (resolved ∙ ap some nothing));
              },
              tt,
            ))
            (λ _. tt))

    Mounted-IsDirectory : (mounts : List StaticMount) → Mounted fs mounts → All IsDirectory mounts
    Mounted-IsDirectory mounts no_mounts = tt
    Mounted-IsDirectory mounts (mounted {mounts = before} url_prefix directory opts m e) =
        subst After e
          (mount-IsDirectory url_prefix directory opts before (Mounted-IsDirectory before m))

    chosen :
        (mounts : List StaticMount) (r : Outcome (Option Response))
        → All IsDirectory mounts
        → Answers (IsAnswered fs mounts) r
        → Answers IsContained r
    chosen mounts (returned none) h a = tt
    chosen mounts (returned (some res)) h a = go mounts h a
      where
        go :
            (mounts : List StaticMount)
            → All IsDirectory mounts
            → Among fs (λ m. IsServed fs m (some res)) mounts
            → IsContained (some res)
        go [] h a = absurd a
        go (m ∷ mounts) (d, h) (inl s) = (m, d, s)
        go (m ∷ mounts) (d, h) (inr a) = go mounts h a
    chosen mounts (thrown what) h a = tt
    chosen mounts thrown_other h a = tt

    -- Whatever calls of `mount` made the mounts, whatever the path of a request and the links in the file
    -- system, a response that the static files give is of a regular file whose resolved name is that of a
    -- directory that was given to `mount`, a slash and a name below it, and whose size is allowed: the
    -- whole file with status 200, or an empty body with status 304. No name resolves to the empty text.
    pub try_serve-IsContained :
        (mounts : List StaticMount) (req_path : Bytes) (req : Request)
        → Mounted fs mounts
        → Answers IsContained (try_serve fs mounts req_path req)
    try_serve-IsContained mounts req_path req m =
        chosen mounts (try_serve fs mounts req_path req) (Mounted-IsDirectory mounts m)
          (try_serve-IsAnswered fs mounts req_path req)
