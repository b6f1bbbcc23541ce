-- ===== src/Request/PartLines.antt =====
-- The headers of a part of a form, a text field or a file, and what `add_part` reads in them.
use lundicpp.Base.{
  ℕ, ◌+◌, ◌≡◌, refl, sym, ap, ◌∙◌, Bytes, List, [], ◌∷◌, ◌++◌, false, none, some, codes, length,
  take, drop, is_empty, find_str, find_char, prefix_to, append_assoc,
}
use lundicpp.Base.Find.{Lacks, find_char-append, take-length_append, drop-length_append}
use lundicpp.Request.Multipart.{FormData, put_entry, quoted, part_type, add_part}
use lundicpp.Request.FormText.{Part, drop_past}

-- A part as a client means it.
pub data FormPart : Type 0 where
  text_part : (name content : Bytes) → FormPart
  file_part : (name filename content_type content : Bytes) → FormPart

abbrev pub disposition : Bytes
disposition = codes "Content-Disposition: form-data; "

abbrev pub field_lines : Bytes → Bytes
field_lines name = disposition ++ (codes "name=\"" ++ (name ++ (b'"' ∷ [])))

-- What stands before the name of a file and before its type.
abbrev pub before_filename : Bytes → Bytes
before_filename name = disposition ++ (codes "name=\"" ++ (name ++ codes "\"; "))

abbrev pub before_type : Bytes → Bytes → Bytes
before_type name filename =
    disposition
    ++ (codes "name=\"" ++ (name ++ (codes "\"; filename=\"" ++ (filename ++ codes "\"\r\n"))))

abbrev pub file_lines : Bytes → Bytes → Bytes → Bytes
file_lines name filename content_type =
    disposition
    ++ (codes "name=\""
        ++ (name
            ++ (codes "\"; filename=\""
                ++ (filename ++ (codes "\"\r\nContent-Type: " ++ content_type)))))

-- How it is written.
abbrev pub part_of : FormPart → Part
part_of (text_part name content) = record { lines = field_lines name; content = content }
part_of (file_part name filename content_type content) = record {
  lines = file_lines name filename content_type;
  content = content;
}

abbrev pub parts_of : List FormPart → List Part
parts_of [] = []
parts_of (p ∷ ps) = part_of p ∷ parts_of ps

-- The names and the type are not empty, names hold no quote and the type no end of line, and the keys `filename="` and
-- `Content-Type: ` do not begin before their place.
abbrev pub IsPlain : FormPart → Type 0
IsPlain (text_part name content) =
    (is_empty name ≡ false)
    × Lacks b'"' name
    × (find_str (codes "filename=\"") (field_lines name) ≡ none)
IsPlain (file_part name filename content_type content) =
    (is_empty name ≡ false)
    × Lacks b'"' name
    × (is_empty filename ≡ false)
    × Lacks b'"' filename
    × (is_empty content_type ≡ false)
    × (find_str (codes "\r\n") content_type ≡ none)
    × (find_str (codes "filename=\"") (file_lines name filename content_type)
        ≡ some (length (before_filename name)))
    × (find_str (codes "Content-Type: ") (file_lines name filename content_type)
        ≡ some (length (before_type name filename)))

abbrev up_to_quote : Bytes → Bytes
up_to_quote rest = elim (find_char b'"' rest) [ none ↦ [] | some e ↦ take e rest ]

quoted-found :
    (key before value more : Bytes)
    → find_str key (before ++ (key ++ (value ++ (b'"' ∷ more)))) ≡ some (length before)
    → Lacks b'"' value
    → quoted key (before ++ (key ++ (value ++ (b'"' ∷ more)))) ≡ value
unfolding quoted
quoted-found key before value more found lacks =
    let text = before ++ (key ++ (value ++ (b'"' ∷ more))) in
    ap
      (λ o. elim o as (λ _. Bytes) [
        | none ↦ []
        | some n ↦ up_to_quote (drop (n + length key) text)
      ])
      found
    ∙ (ap up_to_quote (
          drop_past (length key) before (key ++ (value ++ (b'"' ∷ more)))
          ∙ drop-length_append key (value ++ (b'"' ∷ more)))
        ∙ (ap (λ o. elim o as (λ _. Bytes) [ none ↦ [] | some e ↦ take e (value ++ (b'"' ∷ more)) ])
              (find_char-append b'"' value more lacks)
            ∙ take-length_append value (b'"' ∷ more)))

quoted-missing : (key s : Bytes) → find_str key s ≡ none → quoted key s ≡ []
unfolding quoted
quoted-missing key s missing =
    ap (λ o. elim o as (λ _. Bytes) [ none ↦ [] | some n ↦ up_to_quote (drop (n + length key) s) ])
      missing

quoted-name :
    (name more : Bytes)
    → Lacks b'"' name
    → quoted (codes "name=\"") (disposition ++ (codes "name=\"" ++ (name ++ (b'"' ∷ more)))) ≡ name
unfolding find_str
quoted-name name more lacks = quoted-found (codes "name=\"") disposition name more refl lacks

quoted-filename :
    (name filename content_type : Bytes)
    → find_str (codes "filename=\"") (file_lines name filename content_type)
      ≡ some (length (before_filename name))
    → Lacks b'"' filename
    → quoted (codes "filename=\"") (file_lines name filename content_type) ≡ filename
quoted-filename name filename content_type found lacks =
    let more = codes "\r\nContent-Type: " ++ content_type in
    let behind = codes "filename=\"" ++ (filename ++ (b'"' ∷ more)) in
    let split : before_filename name ++ behind ≡ file_lines name filename content_type =
      ap (λ t. disposition ++ (codes "name=\"" ++ t)) (append_assoc name (codes "\"; ") behind) in
    ap (quoted (codes "filename=\"")) (sym split)
    ∙ quoted-found (codes "filename=\"") (before_filename name) filename more
        (ap (find_str (codes "filename=\"")) split ∙ found) lacks

abbrev type_from : Bytes → ℕ → Bytes
type_from s n = let rest = drop (n + 14) s in prefix_to (find_str (codes "\r\n") rest) rest

part_type-file :
    (name filename content_type : Bytes)
    → find_str (codes "\r\n") content_type ≡ none
    → find_str (codes "Content-Type: ") (file_lines name filename content_type)
      ≡ some (length (before_type name filename))
    → part_type (file_lines name filename content_type) ≡ content_type
unfolding part_type
part_type-file name filename content_type one_line found =
    let text = file_lines name filename content_type in
    let behind = codes "Content-Type: " ++ content_type in
    let split : text ≡ before_type name filename ++ behind =
      ap (λ t. disposition ++ (codes "name=\"" ++ t))
        (ap (λ t. name ++ (codes "\"; filename=\"" ++ t))
            (sym (append_assoc filename (codes "\"\r\n") behind))
          ∙ sym (
              append_assoc name (codes "\"; filename=\"" ++ (filename ++ codes "\"\r\n"))
                behind)) in
    ap
      (λ o. elim o as (λ _. Bytes) [
        | some n ↦ type_from text n
        | none ↦ elim (find_str (codes "content-type: ") text) [
          | none ↦ []
          | some n ↦ type_from text n
        ]
      ])
      found
    ∙ (ap (λ t. prefix_to (find_str (codes "\r\n") t) t)
          (ap (drop (length (before_type name filename) + 14)) split
            ∙ drop_past 14 (before_type name filename) behind)
        ∙ ap (λ o. prefix_to o content_type) one_line)

pub add_part-text :
    (name content : Bytes) (form : FormData)
    → IsPlain (text_part name content)
    → add_part (field_lines name) content form
      ≡ record form { fields = put_entry name content form.fields }
unfolding add_part
add_part-text name content form (named, lacks, no_file) =
    rw (quoted-name name [] lacks, quoted-missing _ _ no_file, named) refl

pub add_part-file :
    (name filename content_type content : Bytes) (form : FormData)
    → IsPlain (file_part name filename content_type content)
    → add_part (file_lines name filename content_type) content form ≡ record form {
      files =
          put_entry name
            (record { filename = filename; content_type = content_type; content = content })
            form.files;
    }
unfolding add_part
add_part-file name filename content_type content form
      (named, lacks, filed, lacks', typed, one_line, found, found') =
    rw
      (
        quoted-name name
            (codes "; filename=\"" ++ (filename ++ (codes "\"\r\nContent-Type: " ++ content_type)))
            lacks,
        quoted-filename name filename content_type found lacks',
        part_type-file name filename content_type one_line found',
        named,
        filed,
        typed,
      )
      refl
