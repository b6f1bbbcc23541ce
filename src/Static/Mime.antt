-- ===== src/Static/Mime.antt =====
-- static_files.hpp: `mime_for_extension` and `extension_lower`.
use lundicpp.Base.{
  ℕ, Bytes, List, [], ◌∷◌, Bool, false, ◌||◌, Option, none, some, map, ◌==◌, if◌then◌else◌,
  bytes_eq, codes, drop, length,
}
use lundicpp.Url.{lower}

-- The tests in their order: the extensions of each, and what is returned for them.
abbrev mime_types : List (List Bytes × Bytes)
mime_types =
    ((codes ".html" ∷ codes ".htm" ∷ []), codes "text/html; charset=utf-8")
    ∷ ((codes ".css" ∷ []), codes "text/css; charset=utf-8")
    ∷ ((codes ".js" ∷ codes ".mjs" ∷ []), codes "application/javascript; charset=utf-8")
    ∷ ((codes ".json" ∷ []), codes "application/json; charset=utf-8")
    ∷ ((codes ".xml" ∷ []), codes "application/xml; charset=utf-8")
    ∷ ((codes ".txt" ∷ []), codes "text/plain; charset=utf-8")
    ∷ ((codes ".csv" ∷ []), codes "text/csv; charset=utf-8")
    ∷ ((codes ".md" ∷ []), codes "text/markdown; charset=utf-8")
    ∷ ((codes ".png" ∷ []), codes "image/png")
    ∷ ((codes ".jpg" ∷ codes ".jpeg" ∷ []), codes "image/jpeg")
    ∷ ((codes ".gif" ∷ []), codes "image/gif")
    ∷ ((codes ".svg" ∷ []), codes "image/svg+xml")
    ∷ ((codes ".ico" ∷ []), codes "image/x-icon")
    ∷ ((codes ".webp" ∷ []), codes "image/webp")
    ∷ ((codes ".avif" ∷ []), codes "image/avif")
    ∷ ((codes ".woff2" ∷ []), codes "font/woff2")
    ∷ ((codes ".woff" ∷ []), codes "font/woff")
    ∷ ((codes ".ttf" ∷ []), codes "font/ttf")
    ∷ ((codes ".otf" ∷ []), codes "font/otf")
    ∷ ((codes ".eot" ∷ []), codes "application/vnd.ms-fontobject")
    ∷ ((codes ".wasm" ∷ []), codes "application/wasm")
    ∷ ((codes ".pdf" ∷ []), codes "application/pdf")
    ∷ ((codes ".zip" ∷ []), codes "application/zip")
    ∷ ((codes ".gz" ∷ []), codes "application/gzip")
    ∷ ((codes ".mp4" ∷ []), codes "video/mp4")
    ∷ ((codes ".webm" ∷ []), codes "video/webm")
    ∷ ((codes ".mp3" ∷ []), codes "audio/mpeg")
    ∷ ((codes ".ogg" ∷ []), codes "audio/ogg")
    ∷ ((codes ".map" ∷ []), codes "application/json")
    ∷ []

unfoldable pub any_of : Bytes → List Bytes → Bool
any_of ext [] = false
any_of ext (e ∷ es) = bytes_eq ext e || any_of ext es

unfoldable pub first_type : Bytes → List (List Bytes × Bytes) → Bytes
unfolding any_of
first_type ext [] = codes "application/octet-stream"
first_type ext ((exts, mime) ∷ rows) =
    let rest = first_type ext rows in if any_of ext exts then mime else rest

unfoldable pub mime_for_extension : Bytes → Bytes
unfolding first_type
mime_for_extension ext = first_type ext mime_types

-- The text from the last byte `c` on.
abbrev pub from_last : ℕ → Bytes → Option Bytes
from_last c [] = none
from_last c (x ∷ s) = elim (from_last c s) [
  | some t ↦ some t
  | none ↦ if x == c then some (x ∷ s) else none
]

-- `path::filename`, and `path::extension`: a dot at the start of the name begins none.
abbrev pub filename : Bytes → Bytes
filename path = elim (from_last b'/' path) [ none ↦ path | some t ↦ drop 1 t ]

abbrev pub extension : Bytes → Bytes
extension path =
    let name = filename path in
    elim (from_last b'.' name) [ none ↦ [] | some t ↦ if length t == length name then [] else t ]

unfoldable pub extension_lower : Bytes → Bytes
extension_lower path = map lower (extension path)
