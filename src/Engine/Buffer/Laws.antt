-- ===== src/Engine/Buffer/Laws.antt =====
-- The buffers keep `size_` within the vector, and hold the bytes that a plain list would.
use lundicpp.Base.{
  ℕ, ◌+◌, ◌-◌, ◌*◌, ◌≤◌, max, ◌≡◌, ◌↔◌, refl, sym, ap, ◌∙◌, true, ==_iff, List, Bytes, [], ◌∷◌,
  ◌++◌, arith, length, take, drop, replicate, length-append, length-take, length-drop,
  length-replicate, append_assoc, Bool-cases, if_cases, false, ltb, leb, leb→le, inl, inr,
}
use mathlib.Core.Path.{subst}
use lundicpp.Base.Find.{take-length_append, take_prefix, drop_all, drop-take}
use lundicpp.Engine.Buffer.{
  Buffer, empty_buffer, resize, overwrite, store, write_here, advance, ensure, append, push, clear,
  consume, ensure_write, receive, contents, write_capacity, empty,
}

-- The count stands within the vector, and no write went past it.
pub record IsValid (b : Buffer) : Type 0 where
  pub within : b.size ≤ length b.bytes
  pub sound : b.faulted ≡ false

module _ {ℓ} {A : Type ℓ} where
  take-eq_length : (n : ℕ) (xs ys : List A) → length xs ≡ n → take n (xs ++ ys) ≡ xs
  take-eq_length n xs ys h = rw (← h) (take-length_append xs ys)

-- A copy behind the first `pos` bytes leaves those bytes and puts `src` after them.
overwrite_contents :
    (bytes : Bytes) (pos : ℕ) (src : Bytes)
    → pos ≤ length bytes
    → take (pos + length src) (overwrite bytes pos src) ≡ take pos bytes ++ src
overwrite_contents bytes pos src h =
    rw (← append_assoc (take pos bytes) src (drop (pos + length src) bytes)) (
      take-eq_length (pos + length src) (take pos bytes ++ src) (drop (pos + length src) bytes)
        (omega (arith, length-append (take pos bytes) src, length-take pos bytes)))

length-overwrite :
    (bytes : Bytes) (pos : ℕ) (src : Bytes)
    → pos + length src ≤ length bytes
    → length (overwrite bytes pos src) ≡ length bytes
length-overwrite bytes pos src h = omega (
  arith,
  length-append (take pos bytes) (src ++ drop (pos + length src) bytes),
  length-append src (drop (pos + length src) bytes),
  length-take pos bytes,
  length-drop (pos + length src) bytes,
)

length-resize : (n : ℕ) (bytes : Bytes) → length bytes ≤ n → length (resize n bytes) ≡ n
length-resize n bytes h = omega (
  arith,
  length-append bytes (replicate (n - length bytes) 0),
  length-replicate {A = ℕ} (n - length bytes) 0,
)

-- What `ensure` and `ensure_write` promise: room, with the same contents and count.
record IsRoomy (n : ℕ) (b b' : Buffer) : Type 0 where
  size : b'.size ≡ b.size
  same : contents b' ≡ contents b
  room : b.size + n ≤ length b'.bytes
  grown : length b.bytes ≤ length b'.bytes
  sound : b'.faulted ≡ false

grow :
    (n : ℕ) (b : Buffer)
    → IsValid b
    → IsRoomy n b (record b { bytes = resize (max (length b.bytes * 2) (b.size + n)) b.bytes })
grow n b v =
    let long = length-resize (max (length b.bytes * 2) (b.size + n)) b.bytes (omega arith) in
    record {
      size = refl;
      same = take_prefix b.size b.bytes _ v.within;
      room = omega arith;
      grown = omega arith;
      sound = v.sound;
    }

ensure-IsRoomy : (n : ℕ) (b : Buffer) → IsValid b → IsRoomy n b (ensure n b)
unfolding ensure
ensure-IsRoomy n b v = elim (Bool-cases (ltb (length b.bytes) (b.size + n))) [
  | inl short ↦ rw short (grow n b v)
  | inr fits ↦ rw fits (record {
    size = refl;
    same = refl;
    room = ground arith;
    grown = omega arith;
    sound = v.sound;
  })
]

ensure_write-IsRoomy : (n : ℕ) (b : Buffer) → IsValid b → IsRoomy n b (ensure_write n b)
unfolding ensure_write
ensure_write-IsRoomy n b v = elim (Bool-cases (ltb (write_capacity b) n)) [
  | inl short ↦ rw short (grow n b v)
  | inr fits ↦ rw fits (record {
    size = refl;
    same = refl;
    room = ground arith;
    grown = omega arith;
    sound = v.sound;
  })
]

-- A buffer that is valid and holds `s`.
pub record Holds (b : Buffer) (s : Bytes) : Type 0 where
  pub valid : IsValid b
  pub held : contents b ≡ s

-- A write inside the vector is made.
store_inside :
    (pos : ℕ) (src : Bytes) (b : Buffer)
    → pos + length src ≤ length b.bytes
    → store pos src b ≡ record b { bytes = overwrite b.bytes pos src }
unfolding store
store_inside pos src b h =
    if_cases (λ (b' : Buffer). b' ≡ record b { bytes = overwrite b.bytes pos src })
      (leb (pos + length src) (length b.bytes)) (λ _. refl)
      (λ outside. absurd (ground (arith, h, outside)))

-- A copy of `src` to the end of a buffer with room for it.
receive_room :
    (src : Bytes) (b : Buffer)
    → IsValid b
    → b.size + length src ≤ length b.bytes
    → Holds (receive src b) (contents b ++ src)
unfolding receive write_here
receive_room src b v h =
    subst (λ (b' : Buffer). Holds (advance (length src) b') (contents b ++ src))
      (sym (store_inside b.size src b h))
      (record {
        valid = record {
          within = omega (arith, length-overwrite b.bytes b.size src h);
          sound = v.sound;
        };
        held = overwrite_contents b.bytes b.size src (omega arith);
      })

-- Bytes that fit in the free space are added behind the contents.
pub receive-Holds :
    (src : Bytes) (b : Buffer)
    → IsValid b
    → length src ≤ write_capacity b
    → Holds (receive src b) (contents b ++ src)
receive-Holds src b v h = receive_room src b v (omega arith)

-- A buffer with room behind `ensure` or `ensure_write`.
roomy-Holds :
    (src : Bytes) (b b' : Buffer)
    → IsRoomy (length src) b b'
    → Holds (receive src b') (contents b ++ src)
roomy-Holds src b b' r = rw (← r.same) (
    receive_room src b' (record { within = omega (arith, r.size, r.room); sound = r.sound })
      (omega (arith, r.size, r.room)))

-- Asking for room changes nothing of what is held.
roomy_same : (n : ℕ) (b b' : Buffer) (s : Bytes) → IsRoomy n b b' → Holds b s → Holds b' s
roomy_same n b b' s r h = record {
  valid = record { within = omega (arith, r.size, r.room); sound = r.sound };
  held = r.same ∙ h.held;
}

pub ensure_write-Holds : (n : ℕ) (b : Buffer) (s : Bytes) → Holds b s → Holds (ensure_write n b) s
ensure_write-Holds n b s h =
    roomy_same n b (ensure_write n b) s (ensure_write-IsRoomy n b h.valid) h

ensure-Holds : (n : ℕ) (b : Buffer) (s : Bytes) → Holds b s → Holds (ensure n b) s
ensure-Holds n b s h = roomy_same n b (ensure n b) s (ensure-IsRoomy n b h.valid) h

nothing : (s : Bytes) → length s ≡ 0 → s ≡ []
nothing [] e = refl
nothing (c ∷ s) e = absurd (omega (arith, e))

-- A buffer is empty just when it holds nothing.
empty_iff : (b : Buffer) (s : Bytes) → Holds b s → (empty b ≡ true) ↔ (s ≡ [])
empty_iff b s h = (left, right)
  where
    size : length s ≡ b.size
    size = omega (arith, ap length h.held, length-take b.size b.bytes, h.valid.within)

    left : empty b ≡ true → s ≡ []
    left e = nothing s (size ∙ (==_iff b.size 0).0 e)

    right : s ≡ [] → empty b ≡ true
    right e = (==_iff b.size 0).1 (sym size ∙ ap length e)

pub ensure_write-room : (n : ℕ) (b : Buffer) → IsValid b → n ≤ write_capacity (ensure_write n b)
ensure_write-room n b v = let r = ensure_write-IsRoomy n b v in omega (arith, r.size, r.room)

pub append-Holds : (src : Bytes) (b : Buffer) → IsValid b → Holds (append src b) (contents b ++ src)
unfolding append receive write_here
append-Holds src b v = roomy-Holds src b (ensure (length src) b) (ensure-IsRoomy (length src) b v)

pub push-Holds : (c : ℕ) (b : Buffer) → IsValid b → Holds (push c b) (contents b ++ c ∷ [])
unfolding push append
push-Holds c b v = append-Holds (c ∷ []) b v

pub consume-Holds : (n : ℕ) (b : Buffer) → IsValid b → Holds (consume n b) (drop n (contents b))
unfolding consume
consume-Holds n b v = elim (Bool-cases (leb b.size n)) [
  | inl all ↦ rw all (record {
    valid = record { within = omega arith; sound = v.sound };
    held =
        sym (
          drop_all n (contents b) (omega (arith, leb→le b.size n all, length-take b.size b.bytes)));
  })
  | inr part ↦
      let kept = take (b.size - n) (drop n b.bytes) in
      let count : length kept ≡ b.size - n =
        omega (arith, length-take (b.size - n) (drop n b.bytes), length-drop n b.bytes, v.within) in
      let inside : 0 + length kept ≤ length b.bytes = omega (arith, count, v.within) in
      rw part (
        subst (λ (b' : Buffer). Holds (record b' { size = b.size - n }) (drop n (contents b)))
          (sym (store_inside 0 kept b inside))
          (record {
            valid = record {
              within = omega (arith, v.within, length-overwrite b.bytes 0 kept inside);
              sound = v.sound;
            };
            held =
                take-eq_length (b.size - n) kept (drop (0 + length kept) b.bytes) count
                ∙ sym (drop-take n b.size b.bytes);
          }))
]

pub clear-Holds : (b : Buffer) → IsValid b → Holds (clear b) []
unfolding clear
clear-Holds b v = record { valid = record { within = omega arith; sound = v.sound }; held = refl }

pub empty_buffer-Holds : (n : ℕ) → Holds (empty_buffer n) []
unfolding empty_buffer
empty_buffer-Holds n = record { valid = record { within = omega arith; sound = refl }; held = refl }

-- The calls that a client of the two classes makes. `filled` is a read of exactly the bytes asked for,
-- with `ensure_write` before it; `written` a write by hand, with `ensure` before it.
pub data Call : Type 0 where
  appended filled written : Bytes → Call
  pushed consumed ensured : ℕ → Call
  cleared : Call

abbrev pub run : Call → Buffer → Buffer
run (appended src) b = append src b
run (filled src) b = receive src (ensure_write (length src) b)
run (written src) b = receive src (ensure (length src) b)
run (pushed c) b = push c b
run (ensured n) b = ensure n b
run (consumed n) b = consume n b
run cleared b = clear b

abbrev pub run_all : List Call → Buffer → Buffer
run_all [] b = b
run_all (c ∷ cs) b = run_all cs (run c b)

-- The same calls on a plain list.
abbrev pub meant : Call → Bytes → Bytes
meant (appended src) s = s ++ src
meant (filled src) s = s ++ src
meant (written src) s = s ++ src
meant (ensured n) s = s
meant (pushed c) s = s ++ c ∷ []
meant (consumed n) s = drop n s
meant cleared s = []

abbrev pub meant_all : List Call → Bytes → Bytes
meant_all [] s = s
meant_all (c ∷ cs) s = meant_all cs (meant c s)

run-Holds : (c : Call) (b : Buffer) (s : Bytes) → Holds b s → Holds (run c b) (meant c s)
run-Holds (appended src) b s h = rw (← h.held) (append-Holds src b h.valid)
run-Holds (filled src) b s h =
    rw (← h.held) (
      roomy-Holds src b (ensure_write (length src) b) (ensure_write-IsRoomy (length src) b h.valid))
run-Holds (written src) b s h =
    rw (← h.held)
      (roomy-Holds src b (ensure (length src) b) (ensure-IsRoomy (length src) b h.valid))
run-Holds (ensured n) b s h = ensure-Holds n b s h
run-Holds (pushed c) b s h = rw (← h.held) (push-Holds c b h.valid)
run-Holds (consumed n) b s h = rw (← h.held) (consume-Holds n b h.valid)
run-Holds cleared b s h = clear-Holds b h.valid

run_all-Holds :
    (cs : List Call) (b : Buffer) (s : Bytes) → Holds b s → Holds (run_all cs b) (meant_all cs s)
run_all-Holds [] b s h = h
run_all-Holds (c ∷ cs) b s h = run_all-Holds cs (run c b) (meant c s) (run-Holds c b s h)

-- Whatever calls are made on a new buffer of any capacity, no write goes past its vector, its count
-- stays within it, its contents are those of a plain list under the same calls, and it says that it is empty just when
-- that list is.
pub run_all-refines :
    (capacity : ℕ) (cs : List Call)
    → Holds (run_all cs (empty_buffer capacity)) (meant_all cs [])
      × ((empty (run_all cs (empty_buffer capacity)) ≡ true) ↔ (meant_all cs [] ≡ []))
run_all-refines capacity cs =
    let h = run_all-Holds cs (empty_buffer capacity) [] (empty_buffer-Holds capacity) in
    (h, empty_iff (run_all cs (empty_buffer capacity)) (meant_all cs []) h)
