-- ===== src/Request/Parse.antt =====
-- What `parse_headers` reads from a request that is written out.
use native.Mathlib.Numerals.{add-one}
use lundicpp.Base.{
  suc, ◌+◌, ◌-◌, ◌≡◌, refl, sym, Bytes, List, [], ◌∷◌, ◌++◌, ◌&&◌, none, some, map, arith,
  if◌then◌else◌, length, take, find_char,
}
use lundicpp.Base.Find.{
  All, Lacks, All-append, find_char-none, find_char-Lacks, find_char-append, take-length_append,
  drop-length_append_suc,
}
use lundicpp.Url.{url_decode, parse_query_string}
use lundicpp.Url.Decode.{url_decode-same}
use lundicpp.Request.{
  Request, new_request, decode_path, set_target, set_line, parse_headers, max_headers, is_none,
}
use lundicpp.Request.Lines.{
  crlf, find_str-crlf, Line, IsLine, entry, drop-crlf, lines_text, headers_loop-lines,
  store_all-take, lines_long,
}

-- The shortcut for a path without escapes changes nothing.
pub decode_path-url_decode : (raw : Bytes) → decode_path raw ≡ url_decode raw
unfolding decode_path
decode_path-url_decode raw =
    elim (find_char b'%' raw)
        as (λ o.
          find_char b'%' raw ≡ o
          → (if is_none o && is_none (find_char b'+' raw) then raw else url_decode raw)
            ≡ url_decode raw) [
              | some i ↦ λ _. refl
              | none ↦ λ p.
                  elim (find_char b'+' raw)
                      as (λ o.
                        find_char b'+' raw ≡ o
                        → (if is_none o then raw else url_decode raw) ≡ url_decode raw) [
                          | some i ↦ λ _. refl
                          | none ↦ λ q. sym (
                              url_decode-same raw (find_char-Lacks b'%' raw p)
                                (find_char-Lacks b'+' raw q))
                        ]
                    refl
            ]
      refl

-- The target of a request, with a query behind `?` or none.
pub data Target : Type 0 where
  bare : Bytes → Target
  with_query : Bytes → Bytes → Target

abbrev pub target_text : Target → Bytes
target_text (bare p) = p
target_text (with_query p q) = p ++ b'?' ∷ q

-- The two bytes that end it.
abbrev pub Inline : Bytes → Type 0
Inline s = Lacks 32 s × Lacks 13 s

abbrev pub IsTarget : Target → Type 0
IsTarget (bare p) = Lacks b'?' p × Inline p
IsTarget (with_query p q) = Lacks b'?' p × Inline p × Inline q

pub target-Inline : (t : Target) → IsTarget t → Inline (target_text t)
target-Inline (bare p) (_, h) = h
target-Inline (with_query p q) (_, (ps, pr), (qs, qr)) =
    (All-append _ p _ ps (omega arith, qs), All-append _ p _ pr (omega arith, qr))

-- The request with the fields of its first line.
abbrev pub first_line : Bytes → Target → Request
first_line method (bare p) = record new_request {
  method = method;
  raw_path = p;
  path = url_decode p;
}
first_line method (with_query p q) = record new_request {
  method = method;
  raw_path = p ++ b'?' ∷ q;
  path = url_decode p;
  query_params = parse_query_string q;
}

set_target-first_line :
    (method : Bytes) (t : Target)
    → IsTarget t
    → set_target method (target_text t) new_request ≡ first_line method t
unfolding set_target
set_target-first_line method (bare p) (lacks, _) =
    rw (find_char-none b'?' p lacks, set_target, decode_path-url_decode p) refl
set_target-first_line method (with_query p q) (lacks, _, _) =
    rw
      (
        find_char-append b'?' p q lacks,
        set_target,
        add-one,
        take-length_append,
        drop-length_append_suc,
        decode_path-url_decode p,
      )
      refl

abbrev pub line_bytes : Bytes → Target → Bytes → Bytes
line_bytes method t version = method ++ 32 ∷ (target_text t ++ 32 ∷ version)

set_line-set_target :
    (method raw version : Bytes) (req : Request)
    → Lacks 32 method
    → Lacks 32 raw
    → set_line (method ++ 32 ∷ (raw ++ 32 ∷ version)) req ≡ set_target method raw req
unfolding set_line
set_line-set_target method raw version req m r =
    let width : suc (length method) + length raw - length method - 1 ≡ length raw = omega arith in
    rw
      (
        find_char-append 32 method (raw ++ 32 ∷ version) m,
        set_line,
        add-one,
        drop-length_append_suc,
        find_char-append 32 raw version r,
        take-length_append,
        add-one,
        drop-length_append_suc,
        width,
        take-length_append,
      )
      refl

-- The whole text of a request up to its body.
abbrev pub request_text : Bytes → Target → Bytes → List Line → Bytes → Bytes
request_text method t version ls rest = line_bytes method t version ++ (crlf ++ lines_text ls rest)

-- What is read from it: the fields of the first line and the first 32 headers.
abbrev pub meant_request : Bytes → Target → List Line → Request
meant_request method t ls = record (first_line method t) {
  headers = take max_headers (map entry ls);
}

pub parse_headers-text :
    (method version : Bytes) (t : Target) (ls : List Line) (rest : Bytes)
    → Inline method
    → Lacks 13 version
    → IsTarget t
    → All IsLine ls
    → parse_headers (request_text method t version ls rest) ≡ meant_request method t ls
unfolding parse_headers
parse_headers-text method version t ls rest (ms, mr) v h lines =
    let (ts, tr) = target-Inline t h in
    let line = line_bytes method t version in
    let whole : Lacks 13 line =
      All-append _ method _ mr (omega arith, All-append _ (target_text t) _ tr (omega arith, v)) in
    rw
      (
        find_str-crlf line (lines_text ls rest) whole,
        parse_headers,
        take-length_append line (crlf ++ lines_text ls rest),
        drop-crlf line (lines_text ls rest),
        set_line-set_target method (target_text t) version new_request ms ts,
        set_target-first_line method t h,
        headers_loop-lines (length (lines_text ls rest)) ls rest [] (lines_long ls rest) lines,
        store_all-take [] ls max_headers refl,
      )
      refl
