-- ===== src/Url/Query.antt =====
-- The loop over the query string against the pieces between the bytes `&`, and a printer.
use lundicpp.Base.{
  ℕ, ◌+◌, ◌<◌, ◌≡◌, ◌⊎◌, refl, ap, sym, ◌∙◌, Bytes, List, [], ◌∷◌, ◌++◌, true, false, some, map,
  arith, length, inl, inr, append_assoc, append-nil, take, drop, find_char, is_empty, if◌then◌else◌,
}
use lundicpp.Base.Find.{
  All, All-append, Lacks, find_char-append, take-length_append, drop-length_append_suc,
}
use native.Mathlib.Numerals.{add-one}
use lundicpp.Base.Split.{split, split-join, join, fold_pieces, pieces_loop-fold}
use lundicpp.Url.{QueryEntry, query_entry, add_pair, parse_query_string, url_decode}
use lundicpp.Url.Decode.{Token, escape, spell_all, url_decode-spell, IsToken, meaning}

-- The entries of the pieces that are not empty.
abbrev pub entries : List Bytes → List QueryEntry
entries [] = []
entries (p ∷ ps) = if is_empty p then entries ps else query_entry p ∷ entries ps

add_pair-entries :
    (p : Bytes) (ps : List Bytes) (params : List QueryEntry)
    → add_pair p params ++ entries ps ≡ params ++ entries (p ∷ ps)
unfolding add_pair
add_pair-entries [] ps params = refl
add_pair-entries (c ∷ p) ps params = append_assoc params (query_entry (c ∷ p) ∷ []) (entries ps)

fold-entries :
    (ps : List Bytes) (params : List QueryEntry)
    → fold_pieces b'&' (λ _. true) add_pair ps params ≡ params ++ entries ps
fold-entries [] params = sym (append-nil params)
fold-entries (p ∷ ps) params = fold-entries ps (add_pair p params) ∙ add_pair-entries p ps params

-- For every query string the result holds the entries of its pieces between the bytes `&`, in order,
-- and an empty piece gives no entry.
pub parse_query_string-entries : (qs : Bytes) → parse_query_string qs ≡ entries (split b'&' qs)
unfolding parse_query_string
parse_query_string-entries qs =
    pieces_loop-fold b'&' (λ _. true) add_pair (λ s. unfold add_pair in refl) (length qs) qs []
      (omega arith)
    ∙ fold-entries (split b'&' qs) []

-- A printer that writes each byte as an escape.
abbrev pub escaped : Bytes → List Token
escaped = map (escape true)

abbrev pub print_entry : QueryEntry → Bytes
print_entry q = spell_all (escaped q.name) ++ b'=' ∷ spell_all (escaped q.value)

abbrev pub print_query : List QueryEntry → Bytes
print_query qs = join b'&' (map print_entry qs)

abbrev pub IsByte : ℕ → Type 0
IsByte b = b < 256

abbrev pub IsEntry : QueryEntry → Type 0
IsEntry q = All IsByte q.name × All IsByte q.value

escaped-IsToken : (s : Bytes) → All IsByte s → All IsToken (escaped s)
escaped-IsToken [] h = tt
escaped-IsToken (b ∷ s) (p, h) = (p, escaped-IsToken s h)

meaning-escaped : (s : Bytes) → map meaning (escaped s) ≡ s
meaning-escaped [] = refl
meaning-escaped (b ∷ s) = ap (λ r. b ∷ r) (meaning-escaped s)

decode-escaped : (s : Bytes) → All IsByte s → url_decode (spell_all (escaped s)) ≡ s
decode-escaped s h = url_decode-spell (escaped s) (escaped-IsToken s h) ∙ meaning-escaped s

-- An escape holds neither separator.
escaped-Lacks :
    (c : ℕ) (s : Bytes) → (c ≡ b'&') ⊎ (c ≡ b'=') → All IsByte s → Lacks c (spell_all (escaped s))
escaped-Lacks c [] e h = tt
escaped-Lacks c (b ∷ s) e (p, h) = ground (arith, escaped-Lacks c s e h)

query_entry_found :
    (pair : Bytes) (eq : ℕ)
    → find_char b'=' pair ≡ some eq
    → query_entry pair
      ≡ record { name = url_decode (take eq pair); value = url_decode (drop (eq + 1) pair) }
unfolding query_entry
query_entry_found pair eq e = rw (e, query_entry)

query_entry-print : (q : QueryEntry) → IsEntry q → query_entry (print_entry q) ≡ q
query_entry-print q (hn, hv) =
    let n = spell_all (escaped q.name) in
    let v = spell_all (escaped q.value) in
    query_entry_found (n ++ b'=' ∷ v) (length n)
      (find_char-append b'=' n v (escaped-Lacks b'=' q.name (inr refl) hn))
    ∙ rw (
      add-one,
      take-length_append n (b'=' ∷ v),
      drop-length_append_suc n b'=' v,
      decode-escaped q.name hn,
      decode-escaped q.value hv,
    )

print_entry-Lacks : (q : QueryEntry) → IsEntry q → Lacks b'&' (print_entry q)
print_entry-Lacks q (hn, hv) =
    All-append _ (spell_all (escaped q.name)) _ (escaped-Lacks b'&' q.name (inl refl) hn)
      (omega arith, escaped-Lacks b'&' q.value (inl refl) hv)

prints-Lacks : (qs : List QueryEntry) → All IsEntry qs → All (Lacks b'&') (map print_entry qs)
prints-Lacks [] h = tt
prints-Lacks (q ∷ qs) (p, h) = (print_entry-Lacks q p, prints-Lacks qs h)

is_empty-append : (s : Bytes) (c : ℕ) (t : Bytes) → is_empty (s ++ c ∷ t) ≡ false
is_empty-append [] c t = refl
is_empty-append (x ∷ s) c t = refl

print_entry-entries :
    (q : QueryEntry) (ps : List Bytes) → IsEntry q → entries (print_entry q ∷ ps) ≡ q ∷ entries ps
print_entry-entries q ps h = rw (
  is_empty-append (spell_all (escaped q.name)) b'=' (spell_all (escaped q.value)),
  query_entry-print q h,
)

entries-print : (qs : List QueryEntry) → All IsEntry qs → entries (map print_entry qs) ≡ qs
entries-print [] h = refl
entries-print (q ∷ qs) (p, h) =
    print_entry-entries q (map print_entry qs) p ∙ ap (λ r. q ∷ r) (entries-print qs h)

-- A list of names and values, whatever bytes they hold, is read back from its print with every byte
-- escaped.
pub parse_query_string-print :
    (qs : List QueryEntry) → All IsEntry qs → parse_query_string (print_query qs) ≡ qs
parse_query_string-print [] h = unfold parse_query_string join in refl
parse_query_string-print (q ∷ qs) (p, h) =
    parse_query_string-entries (print_query (q ∷ qs))
    ∙ ap entries (
        split-join b'&' (print_entry q) (map print_entry qs) (print_entry-Lacks q p)
          (prints-Lacks qs h))
    ∙ entries-print (q ∷ qs) (p, h)
