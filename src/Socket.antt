-- ===== src/Socket.antt =====
-- The stream socket that the protocol handlers use, as asio documents it: `async_read` into a buffer
-- of `n` bytes ends with exactly those or throws at the end of the stream, and `async_write` sends a
-- whole buffer or throws. Code that runs on it may throw at each of its calls.
use lundicpp.Base.{
  ℕ, zero, suc, ◌≡◌, refl, ap, Bytes, List, [], ◌∷◌, ◌++◌, Option, none, some, leb, if◌then◌else◌,
  length, take, drop, true, arith, length-append, le→leb,
}
use lundicpp.Base.Find.{take-length_append, drop-length_append}

-- What the peer will still send, what was sent to it, and how many more writes it accepts.
pub record Socket : Type 0 where
  pub input : Bytes
  pub output : List Bytes
  pub writes : ℕ

-- `none` is an exception.
abbrev pub Io {ℓ} : Type ℓ → Type ℓ
Io A = Socket → Option A × Socket

infixl 5 ◌>>=◌ ◌>>◌
abbrev pub ◌>>=◌ {ℓ κ} : {A : Type ℓ} {B : Type κ} → Io A → (A → Io B) → Io B
◌>>=◌ m f s = let (r, s') = m s in elim r [ none ↦ (none, s') | some a ↦ f a s' ]

abbrev pub ◌>>◌ {ℓ κ} : {A : Type ℓ} {B : Type κ} → Io A → Io B → Io B
m >> k = m >>= λ _. k

abbrev pub pure {ℓ} : {A : Type ℓ} → A → Io A
pure a s = (some a, s)

unfoldable pub async_read : ℕ → Io Bytes
async_read n s =
    if leb n (length s.input)
    then (some (take n s.input), record s { input = drop n s.input })
    else (none, record s { input = [] })

unfoldable pub async_write : Bytes → Io (Unit {0})
async_write frame s = elim s.writes [
  | zero ↦ (none, s)
  | suc left ↦ (some tt, record s { output = s.output ++ frame ∷ []; writes = left })
]

-- `catch( ... )` with a value for that case.
abbrev pub or_else {ℓ} : {A : Type ℓ} → A → Io A → Io A
or_else a m s = let (r, s') = m s in elim r [ none ↦ (some a, s') | some b ↦ (some b, s') ]

-- What follows a call that returns.
pub >>=-some {ℓ κ} :
    {A : Type ℓ} {B : Type κ} (m : Io A) (f : A → Io B) (s : Socket) {s' : Socket} {a : A}
    → m s ≡ (some a, s')
    → (m >>= f) s ≡ f a s'
>>=-some {A} {B} m f s e =
    ap
      (λ (r : Option A × Socket). elim r.0 as (λ _. Option B × Socket) [
        | none ↦ (none, r.1)
        | some b ↦ f b r.1
      ])
      e

-- A read of what stands first in the stream.
pub async_read-append :
    (n : ℕ) (s : Bytes) (rest : Bytes) (sent : List Bytes) (writes : ℕ)
    → length s ≡ n
    → async_read n (record { input = s ++ rest; output = sent; writes = writes })
      ≡ (some s, record { input = rest; output = sent; writes = writes })
unfolding async_read
async_read-append n s rest sent writes h =
    let fits : leb (length s) (length (s ++ rest)) ≡ true =
      le→leb (length s) (length (s ++ rest)) (omega (arith, length-append s rest)) in
    rw (← h, fits, take-length_append, drop-length_append) refl

-- A read of what stands first, and what is done with it.
pub then_read {ℓ} :
    {B : Type ℓ} (n : ℕ) (s rest : Bytes) (sent : List Bytes) (writes : ℕ) (f : Bytes → Io B)
    → length s ≡ n
    → (async_read n >>= f) (record { input = s ++ rest; output = sent; writes = writes })
      ≡ f s (record { input = rest; output = sent; writes = writes })
then_read n s rest sent writes f h =
    >>=-some (async_read n) f _ (async_read-append n s rest sent writes h)
