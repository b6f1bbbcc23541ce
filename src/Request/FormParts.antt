-- ===== src/Request/FormParts.antt =====
-- What is found in a form that was written out as text fields and files.
use lundicpp.Base.{
  ◌≡◌, refl, ap, ◌∙◌, Bytes, List, [], ◌∷◌, ◌++◌, false, Option, none, some, if◌then◌else◌,
  bytes_eq, codes, Bool-cases, inl, inr, bytes_eq-true, bytes_eq_refl,
}
use lundicpp.Base.Find.{All}
use lundicpp.Request.Multipart.{
  FormData, FormFile, new_form, put_entry, find_entry, parse_multipart,
}
use lundicpp.Request.FormText.{parts_text, IsSeparate, add_parts, parse_multipart-add_parts}
use lundicpp.Request.PartLines.{
  FormPart, text_part, file_part, IsPlain, parts_of, add_part-text, add_part-file,
}

-- The content of the last text field of a name, and the last file of a name, with what was found before.
abbrev pub last_field : Bytes → List FormPart → Option Bytes → Option Bytes
last_field key [] found = found
last_field key (text_part name content ∷ ps) found =
    last_field key ps (if bytes_eq name key then some content else found)
last_field key (file_part name filename content_type content ∷ ps) found = last_field key ps found

abbrev pub last_file : Bytes → List FormPart → Option FormFile → Option FormFile
last_file key [] found = found
last_file key (text_part name content ∷ ps) found = last_file key ps found
last_file key (file_part name filename content_type content ∷ ps) found = last_file key ps (
    if bytes_eq name key
    then some (record { filename = filename; content_type = content_type; content = content })
    else found)

find-put {ℓ} :
    {A : Type ℓ} (name key : Bytes) (a : A) (entries : List (Bytes × A))
    → find_entry key (put_entry name a entries)
      ≡ (if bytes_eq name key then some a else find_entry key entries)
unfolding find_entry put_entry
find-put name key a [] = refl
find-put name key a ((k, b) ∷ entries) = elim (Bool-cases (bytes_eq k name)) [
  | inl same ↦
      let is : k ≡ name = bytes_eq-true k name same in
      rw (is, bytes_eq_refl name)
        (elim (Bool-cases (bytes_eq name key)) [ inl hit ↦ rw hit refl | inr miss ↦ rw miss refl ])
  | inr other ↦
      rw (other, find-put name key a entries)
        (elim (Bool-cases (bytes_eq k key)) [
          | inl hit ↦
              let is : k ≡ key = bytes_eq-true k key hit in
              let differ : bytes_eq name key ≡ false = elim (Bool-cases (bytes_eq name key)) [
                | inl e ↦ absurd (cc (other, bytes_eq-true name key e))
                | inr e ↦ e
              ] in
              rw (hit, differ) refl
          | inr miss ↦ rw miss refl
        ])
]

abbrev Stores : Bytes → List FormPart → FormData → FormData → Type 0
Stores key ps before after =
    (find_entry key after.fields ≡ last_field key ps (find_entry key before.fields))
    × (find_entry key after.files ≡ last_file key ps (find_entry key before.files))

add_parts-Stores :
    (key : Bytes) (ps : List FormPart) (form : FormData)
    → All IsPlain ps
    → Stores key ps form (add_parts (parts_of ps) form)
add_parts-Stores key [] form plain = (refl, refl)
add_parts-Stores key (text_part name content ∷ ps) form (plain, plains) =
    let one = add_part-text name content form plain in
    let (in_fields, in_files) =
      add_parts-Stores key ps (record form { fields = put_entry name content form.fields })
        plains in
    (
      ap (λ f. find_entry key (add_parts (parts_of ps) f).fields) one
          ∙ (in_fields ∙ ap (last_field key ps) (find-put name key content form.fields)),
      ap (λ f. find_entry key (add_parts (parts_of ps) f).files) one ∙ in_files,
    )
add_parts-Stores key (file_part name filename content_type content ∷ ps) form (plain, plains) =
    let file : FormFile = record {
      filename = filename;
      content_type = content_type;
      content = content;
    } in
    let one = add_part-file name filename content_type content form plain in
    let (in_fields, in_files) =
      add_parts-Stores key ps (record form { files = put_entry name file form.files }) plains in
    (
      ap (λ f. find_entry key (add_parts (parts_of ps) f).fields) one ∙ in_fields,
      ap (λ f. find_entry key (add_parts (parts_of ps) f).files) one
          ∙ (in_files ∙ ap (last_file key ps) (find-put name key file form.files)),
    )

-- In a form that is written out as text fields and files, under every name the content of the last text
-- field of that name is found, and the last file of that name with its filename, its type and its content,
-- and under any other name nothing. The names, filenames and types are not empty, names and filenames hold no
-- quote and types no end of line; the keys `filename="` and `Content-Type: ` and the blank line do not
-- begin in the headers before their place, and in no content does the delimiter begin before the
-- one that ends it. The body begins with the delimiter.
pub parse_multipart-parts :
    (boundary : Bytes) (ps : List FormPart) (name : Bytes)
    → All IsPlain ps
    → All (IsSeparate (codes "--" ++ boundary)) (parts_of ps)
    → (find_entry name
          (parse_multipart
            ((codes "--" ++ boundary) ++ parts_text (codes "--" ++ boundary) (parts_of ps))
            boundary).fields
        ≡ last_field name ps none)
      × (find_entry name
            (parse_multipart
              ((codes "--" ++ boundary) ++ parts_text (codes "--" ++ boundary) (parts_of ps))
              boundary).files
          ≡ last_file name ps none)
unfolding find_entry
parse_multipart-parts boundary ps name plain separate =
    let (in_fields, in_files) = add_parts-Stores name ps new_form plain in
    let parsed = parse_multipart-add_parts boundary (parts_of ps) separate in
    (
      ap (λ f. find_entry name f.fields) parsed ∙ in_fields,
      ap (λ f. find_entry name f.files) parsed ∙ in_files,
    )
