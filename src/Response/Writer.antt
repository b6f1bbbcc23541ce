-- ===== src/Response/Writer.antt =====
-- A run of calls on one write buffer. `none` is a fault: a number that is written out of
-- its buffer, or a write past the vector.
use lundicpp.Base.{
  ℕ, ◌^◌, ◌<◌, ◌≡◌, refl, Bytes, [], ◌∷◌, ◌++◌, false, Option, none, some, if◌then◌else◌, if_cases,
  take, append_assoc, append-nil,
}
use lundicpp.Base.Decimal.{decimal}
use lundicpp.Engine.Buffer.{Buffer, append, push, contents}
use lundicpp.Engine.Buffer.Laws.{Holds, append-Holds, push-Holds}
use lundicpp.Engine.Itoa.{fresh, format, read_at}
use lundicpp.Engine.Itoa.RoundTrip.{format-IsFormatted}

-- `buf.append( literal, n )`: `n` bytes from the literal's address, its terminator behind it.
abbrev pub raw : Bytes → ℕ → Bytes
raw literal n = take n (literal ++ 0 ∷ [])

abbrev pub Writer : Type 0
Writer = Buffer → Option Buffer

infixr 5 ◌>>◌
abbrev pub ◌>>◌ : Writer → Writer → Writer
◌>>◌ f g b = elim (f b) [ none ↦ none | some b' ↦ g b' ]

unfoldable pub nothing : Writer
nothing b = some b

-- The buffer, if no write went past its vector.
abbrev pub unless_faulted : Buffer → Option Buffer
unless_faulted b = if b.faulted then none else some b

unfoldable pub put : Bytes → Writer
put s b = unless_faulted (append s b)

unfoldable pub put_byte : ℕ → Writer
put_byte c b = unless_faulted (push c b)

-- `auto* s = itoa.format( val ); buf.append( s, itoa.length() );`
unfoldable pub put_number : ℕ → Writer
put_number val b = elim (format val fresh) [
  | none ↦ none
  | some (self, p) ↦ unless_faulted (append (read_at self p) b)
]

-- The writer ends without a fault and adds the text `t`, whatever a valid buffer held before.
abbrev pub Writes : Writer → Bytes → Type 0
Writes f t =
    (b : Buffer) (s : Bytes) → Holds b s → (b' : Buffer) × (f b ≡ some b') × Holds b' (s ++ t)

pub Writes->> : {f g : Writer} (t u : Bytes) → Writes f t → Writes g u → Writes (f >> g) (t ++ u)
Writes->> {f} {g} t u wf wg b s h =
    let (b1, e1, h1) = wf b s h in
    let (b2, e2, h2) = wg b1 (s ++ t) h1 in (b2, rw (e1, ◌>>◌) e2, rw append_assoc at h2)

pub Writes-nothing : Writes nothing []
unfolding nothing
Writes-nothing b s h = (b, refl, rw append-nil h)

unless_faulted_lem : (b : Buffer) → b.faulted ≡ false → unless_faulted b ≡ some b
unless_faulted_lem b e = if_cases (λ o. o ≡ some b) b.faulted (λ bad. absurd (cc)) (λ _. refl)

-- A write of `t` that leaves a valid buffer.
written :
    (t : Bytes) (b b' : Buffer) (s : Bytes)
    → Holds b s
    → Holds b' (contents b ++ t)
    → (b2 : Buffer) × (unless_faulted b' ≡ some b2) × Holds b2 (s ++ t)
written t b b' s h h' = (b', unless_faulted_lem b' h'.valid.sound, rw (← h.held) h')

pub Writes-put : (t : Bytes) → Writes (put t) t
unfolding put
Writes-put t b s h = written t b (append t b) s h (append-Holds t b h.valid)

pub Writes-put_byte : (c : ℕ) → Writes (put_byte c) (c ∷ [])
unfolding put_byte
Writes-put_byte c b s h = written (c ∷ []) b (push c b) s h (push-Holds c b h.valid)

pub Writes-put_number : (n : ℕ) → n < 2 ^ 64 → Writes (put_number n) (decimal n)
unfolding put_number
Writes-put_number n fits b s h =
    let ((self, p), e, f) = format-IsFormatted n fresh refl fits in
    rw (e, put_number, ← f.text)
      (written (read_at self p) b (append (read_at self p) b) s h
        (append-Holds (read_at self p) b h.valid))
