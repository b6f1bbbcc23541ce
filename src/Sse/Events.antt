-- ===== src/Sse/Events.antt =====
-- The events of a stream as its reader sees them: lines, and an empty line behind each event.
use lundicpp.Base.{
  ℕ, suc, ◌+◌, ◌≡◌, refl, ap, ◌∙◌, Bytes, List, [], ◌∷◌, ◌++◌, false, Option, none, some, ◌==◌,
  if◌then◌else◌, is_empty, codes, length, arith, append_assoc, append-nil,
}
use lundicpp.Base.Find.{All, Lacks}
use lundicpp.Socket.{Socket, Io, ◌>>◌, pure, async_write, >>=-some}
use lundicpp.Server.Delivery.{concat}
use lundicpp.Sse.{optional_line, send, send_event, send_event_id}

-- An event; an empty id or name stands for none.
pub record Event : Type 0 where
  pub id : Bytes
  pub name : Bytes
  pub text : Bytes

abbrev pub blank : Event
blank = record { id = []; name = []; text = [] }

-- What follows a prefix.
abbrev pub behind : Bytes → Bytes → Option Bytes
behind [] s = some s
behind (c ∷ prefix) [] = none
behind (c ∷ prefix) (x ∷ s) = if c == x then behind prefix s else none

-- A line sets one field; a line that names none is passed over.
abbrev pub set_field : Bytes → Event → Event
set_field line e = elim (behind (codes "data: ") line) [
  | some s ↦ record e { text = s }
  | none ↦ elim (behind (codes "event: ") line) [
    | some s ↦ record e { name = s }
    | none ↦ elim (behind (codes "id: ") line) [ some s ↦ record e { id = s } | none ↦ e ]
  ]
]

-- One byte, with the line and the event so far: what they are behind it, and the event that is complete.
unfoldable pub read_byte : ℕ → Bytes → Event → Bytes × Event × List Event
read_byte c line e =
    if c == 10
    then (if is_empty line then ([], blank, e ∷ []) else ([], set_field line e, []))
    else (line ++ c ∷ [], e, [])

unfoldable pub read_events : Bytes → Bytes → Event → List Event
unfolding read_byte
read_events [] line e = []
read_events (c ∷ s) line e =
    let (line', e', complete) = read_byte c line e in complete ++ read_events s line' e'

-- The lines of an event.
abbrev pub event_text : Event → Bytes
event_text e =
    optional_line (codes "id: ") e.id
    ++ (optional_line (codes "event: ") e.name ++ (codes "data: " ++ (e.text ++ codes "\n\n")))

-- No field holds the end of a line.
abbrev pub IsPlain : Event → Type 0
IsPlain e = Lacks 10 e.id × Lacks 10 e.name × Lacks 10 e.text

read_line :
    (l s line : Bytes) (e : Event)
    → Lacks 10 l
    → read_events (l ++ s) line e ≡ read_events s (line ++ l) e
unfolding read_events read_byte
read_line [] s line e h = rw append-nil refl
read_line (c ∷ l) s line e (differs, h) =
    let other : (c == 10) ≡ false = ground arith in
    rw other (
      read_line l s (line ++ c ∷ []) e h
      ∙ ap (λ t. read_events s t e) (append_assoc line (c ∷ []) l))

read_text :
    (text s : Bytes) (e : Event)
    → Lacks 10 text
    → read_events (codes "data: " ++ (text ++ (10 ∷ (10 ∷ s)))) [] e
      ≡ record e { text = text } ∷ read_events s [] blank
unfolding read_events read_byte
read_text text s e h = read_line text (10 ∷ (10 ∷ s)) (codes "data: ") e h

read_name :
    (name s : Bytes) (e : Event)
    → Lacks 10 name
    → e.name ≡ []
    → read_events (optional_line (codes "event: ") name ++ s) [] e
      ≡ read_events s [] (record e { name = name })
unfolding read_events read_byte optional_line
read_name [] s e h fresh = ap (λ n. read_events s [] (record e { name = n })) fresh
read_name (c ∷ name) s e h fresh =
    rw (append_assoc name (10 ∷ []) s) (read_line (c ∷ name) (10 ∷ s) (codes "event: ") e h)

read_id :
    (id s : Bytes) (e : Event)
    → Lacks 10 id
    → e.id ≡ []
    → read_events (optional_line (codes "id: ") id ++ s) [] e
      ≡ read_events s [] (record e { id = id })
unfolding read_events read_byte optional_line
read_id [] s e h fresh = ap (λ n. read_events s [] (record e { id = n })) fresh
read_id (c ∷ id) s e h fresh =
    rw (append_assoc id (10 ∷ []) s) (read_line (c ∷ id) (10 ∷ s) (codes "id: ") e h)

read_event :
    (e : Event) (s : Bytes)
    → IsPlain e
    → read_events (event_text e ++ s) [] blank ≡ e ∷ read_events s [] blank
read_event e s (hi, hn, ht) =
    let id_line = optional_line (codes "id: ") e.id in
    let name_line = optional_line (codes "event: ") e.name in
    let data_line = codes "data: " ++ (e.text ++ codes "\n\n") in
    let flat : event_text e ++ s
        ≡ id_line ++ (name_line ++ (codes "data: " ++ (e.text ++ (10 ∷ (10 ∷ s))))) =
      append_assoc id_line (name_line ++ data_line) s
      ∙ ap (λ t. id_line ++ t)
          (append_assoc name_line data_line s
            ∙ ap (λ t. name_line ++ (codes "data: " ++ t))
                (append_assoc e.text (codes "\n\n") s)) in
    ap (λ t. read_events t [] blank) flat
    ∙ (read_id e.id _ blank hi refl
        ∙ (read_name e.name _ (record blank { id = e.id }) hn refl
            ∙ read_text e.text s (record blank { id = e.id; name = e.name }) ht))

-- The three forms of `send`.
pub data Call : Type 0 where
  text_only : Bytes → Call
  with_name with_id : Event → Call

abbrev pub event_of : Call → Event
event_of (text_only s) = record blank { text = s }
event_of (with_name e) = record e { id = [] }
event_of (with_id e) = e

unfoldable pub run : Call → Io (Unit {0})
unfolding send send_event send_event_id
run (text_only s) = send s
run (with_name e) = send_event e.text e.name
run (with_id e) = send_event_id e.text e.name e.id

unfoldable pub run_all : List Call → Io (Unit {0})
unfolding run
run_all [] = pure tt
run_all (c ∷ calls) = run c >> run_all calls

abbrev socket : Bytes → List Bytes → ℕ → Socket
socket input output writes = record { input = input; output = output; writes = writes }

run-event_text :
    (c : Call) (input : Bytes) (out : List Bytes) (w : ℕ)
    → run c (socket input out (suc w))
      ≡ (some tt, socket input (out ++ event_text (event_of c) ∷ []) w)
unfolding run send send_event send_event_id async_write optional_line
run-event_text (text_only s) input out w = refl
run-event_text (with_name e) input out w = refl
run-event_text (with_id e) input out w = refl

abbrev pub texts : List Call → List Bytes
texts [] = []
texts (c ∷ calls) = event_text (event_of c) ∷ texts calls

run_all-texts :
    (calls : List Call) (input : Bytes) (out : List Bytes) (w : ℕ)
    → run_all calls (socket input out (length calls + w))
      ≡ (some tt, socket input (out ++ texts calls) w)
unfolding run_all
run_all-texts [] input out w = let same : 0 + w ≡ w = omega arith in rw (same, append-nil out) refl
run_all-texts (c ∷ calls) input out w =
    let count : suc (length calls) + w ≡ suc (length calls + w) = omega arith in
    rw count (
      >>=-some (run c) (λ _. run_all calls) _ (run-event_text c input out (length calls + w))
      ∙ (run_all-texts calls input (out ++ event_text (event_of c) ∷ []) w
          ∙ ap (λ o. (some tt, socket input o w))
              (append_assoc out (event_text (event_of c) ∷ []) (texts calls))))

abbrev pub events : List Call → List Event
events [] = []
events (c ∷ calls) = event_of c ∷ events calls

read-texts :
    (calls : List Call)
    → All IsPlain (events calls)
    → read_events (concat (texts calls)) [] blank ≡ events calls
unfolding read_events
read-texts [] h = refl
read-texts (c ∷ calls) (plain, h) =
    read_event (event_of c) (concat (texts calls)) plain
    ∙ ap (λ es. event_of c ∷ es) (read-texts calls h)

-- What any calls of the three forms of `send` write, one write each, is read back as their events in
-- order, where no field holds the end of a line and the peer takes the writes.
pub run_all-read :
    (calls : List Call) (input : Bytes) (left : ℕ)
    → All IsPlain (events calls)
    → (sent : List Bytes) × (run_all calls
          (record { input = input; output = []; writes = length calls + left })
        ≡ (some tt, record { input = input; output = sent; writes = left }))
      × (read_events (concat sent) [] blank ≡ events calls)
run_all-read calls input left h =
    (texts calls, run_all-texts calls input [] left, read-texts calls h)
