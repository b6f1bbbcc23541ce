-- ===== src/WebSocket/Termination.antt =====
-- `read` calls itself only behind a frame that it took off the stream, so its calls end.
use native.Mathlib.Nat.{suc-add}
use Prim.Native.Nat.{bit_and}
use lundicpp.Base.{
  ℕ, zero, suc, ◌+◌, ◌≤◌, ◌<◌, ◌*◌, ◌^◌, ◌≡◌, refl, ap, Bytes, [], ◌∷◌, Bool, true, false, not,
  Option, none, some, ltb, leb, ◌==◌, if◌then◌else◌, if_cases, leb→le, length, take, drop,
  length-drop, get_or, arith,
}
use lundicpp.Socket.{Socket, Io, async_read, async_write, ◌>>=◌, ◌>>◌, pure, or_else}
use lundicpp.WebSocket.Frame.{
  WsMessage, write_frame, close, payload_length, big_endian, unmask, op_pong, op_close,
  handle_frame, read_payload, read_frame, read_fuel, read,
}

abbrev Reader : Type 0
Reader = Io (Option WsMessage)

-- The two do the same on every socket with less than `n` bytes to come.
abbrev Agree {ℓ} : {A : Type ℓ} → ℕ → Io A → Io A → Type ℓ
Agree n m m' = (s : Socket) → length s.input < n → m s ≡ m' s

-- The call makes no input.
abbrev IsShrinking {ℓ} : {A : Type ℓ} → Io A → Type 0
IsShrinking m = (s : Socket) → length (m s).1.input ≤ length s.input

async_read-IsShrinking : (n : ℕ) → IsShrinking (async_read n)
unfolding async_read
async_read-IsShrinking n s =
    if_cases (λ (r : Option Bytes × Socket). length r.1.input ≤ length s.input)
      (leb n (length s.input)) {x = (some (take n s.input), record s { input = drop n s.input })}
      (λ _. omega (arith, length-drop n s.input)) (λ _. omega arith)

module _ {ℓ κ} {A : Type ℓ} {B : Type κ} where
  bind-Agree :
      (n : ℕ) (m : Io A) (f g : A → Io B)
      → IsShrinking m
      → ((a : A) → Agree n (f a) (g a))
      → Agree n (m >>= f) (m >>= g)
  bind-Agree n m f g shrinks agree s le = behind (m s) (omega (arith, le, shrinks s))
    where
      behind :
          (r : Option A × Socket)
          → length r.1.input < n
          → (elim r.0 as (λ _. Option B × Socket) [ none ↦ (none, r.1) | some a ↦ f a r.1 ])
            ≡ (elim r.0 as (λ _. Option B × Socket) [ none ↦ (none, r.1) | some a ↦ g a r.1 ])
      behind (none, s') h = refl
      behind (some a, s') h = agree a s' h

  bind-IsShrinking :
      (m : Io A) (f : A → Io B)
      → IsShrinking m
      → ((a : A) → IsShrinking (f a))
      → IsShrinking (m >>= f)
  bind-IsShrinking m f shrinks each s = behind (m s) (shrinks s)
    where
      behind :
          (r : Option A × Socket)
          → length r.1.input ≤ length s.input
          → length
              (elim r.0 as (λ _. Option B × Socket) [
                | none ↦ (none, r.1)
                | some a ↦ f a r.1
              ]).1.input
            ≤ length s.input
      behind (none, s') h = h
      behind (some a, s') h = omega (arith, h, each a s')

async_write-IsShrinking : (frame : Bytes) → IsShrinking (async_write frame)
unfolding async_write
async_write-IsShrinking frame s = go s.writes
  where
    go : (w : ℕ) → length (async_write frame (record s { writes = w })).1.input ≤ length s.input
    go zero = omega arith
    go (suc w) = omega arith

-- A read of one byte or more leaves less.
abbrev IsLess {ℓ} : {A : Type ℓ} → ℕ → Option A × Socket → Type 0
IsLess n (none, s') = Unit
IsLess n (some a, s') = length s'.input < n

async_read-IsLess : (k : ℕ) (s : Socket) → IsLess (length s.input) (async_read (suc k) s)
unfolding async_read
async_read-IsLess k s =
    if_cases (IsLess (length s.input)) (leb (suc k) (length s.input))
      {x = (some (take (suc k) s.input), record s { input = drop (suc k) s.input })}
      {y = (none, record s { input = [] })}
      (λ fits. omega (arith, length-drop (suc k) s.input, leb→le (suc k) (length s.input) fits))
      (λ _. tt)

read-Agree {ℓ} :
    {B : Type ℓ} (n k : ℕ) (f g : Bytes → Io B)
    → ((a : Bytes) → Agree n (f a) (g a))
    → Agree (suc n) (async_read (suc k) >>= f) (async_read (suc k) >>= g)
read-Agree {B} n k f g agree s le = behind (async_read (suc k) s) (async_read-IsLess k s)
  where
    behind :
        (r : Option Bytes × Socket)
        → IsLess (length s.input) r
        → (elim r.0 as (λ _. Option B × Socket) [ none ↦ (none, r.1) | some a ↦ f a r.1 ])
          ≡ (elim r.0 as (λ _. Option B × Socket) [ none ↦ (none, r.1) | some a ↦ g a r.1 ])
    behind (none, s') h = refl
    behind (some a, s') h = agree a s' (omega arith)

if-Agree {ℓ} :
    {A : Type ℓ} (n : ℕ) (b : Bool) {x y x' y' : Io A}
    → Agree n x x'
    → Agree n y y'
    → Agree n (if b then x else y) (if b then x' else y')
if-Agree n true h k = h
if-Agree n false h k = k

payload_length-IsShrinking : (len : ℕ) → IsShrinking (payload_length len)
unfolding payload_length
payload_length-IsShrinking len =
    if_cases IsShrinking (len == 126)
      (λ _.
        bind-IsShrinking (async_read 2) (λ ext. pure (get_or ext 0 0 * 2 ^ 8 + get_or ext 1 0))
          (async_read-IsShrinking 2) (λ ext s. omega arith))
      (λ _.
        if_cases IsShrinking (len == 127)
          (λ _.
            bind-IsShrinking (async_read 8) (λ ext. pure (big_endian ext 0))
              (async_read-IsShrinking 8) (λ ext s. omega arith))
          (λ _ s. omega arith))

-- Two ways to call `read` again that agree on what is left.
module _ (n : ℕ) (again again' : Reader) (agree : Agree n again again') where
  handle_frame-Agree :
      (op : ℕ) (fin : Bool) (payload : Bytes)
      → Agree n (handle_frame op fin payload again) (handle_frame op fin payload again')
  unfolding handle_frame write_frame
  handle_frame-Agree op fin payload =
      if-Agree n (op == 9)
        (bind-Agree n (write_frame op_pong payload) (λ _. again) (λ _. again')
          (async_write-IsShrinking _) (λ _. agree))
        (if-Agree n (op == 8) {x = write_frame op_close [] >> pure none} (λ _ _. refl)
          (if-Agree n (op == 10) agree (λ _ _. refl)))

  read_payload-Agree :
      (op : ℕ) (fin masked : Bool) (len : ℕ)
      → Agree n (read_payload op fin masked len again) (read_payload op fin masked len again')
  unfolding read_payload
  read_payload-Agree op fin masked len =
      bind-Agree n (if masked then async_read 4 else pure (0 ∷ 0 ∷ 0 ∷ 0 ∷ [])) _ _
        (if_cases IsShrinking masked (λ _. async_read-IsShrinking 4) (λ _ s. omega arith))
        (λ key.
          bind-Agree n (if ltb 0 len then async_read len else pure []) _ _
            (if_cases IsShrinking (ltb 0 len) (λ _. async_read-IsShrinking len)
              (λ _ s. omega arith))
            (λ payload.
              handle_frame-Agree op fin (if masked then unmask 0 key payload else payload)))

  read_frame-Agree :
      (max_size : ℕ) → Agree (suc n) (read_frame max_size again) (read_frame max_size again')
  unfolding read_frame
  read_frame-Agree max_size = read-Agree n 1 _ _ (λ header.
      bind-Agree n (payload_length (bit_and (get_or header 1 0) 0x7F)) _ _
        (payload_length-IsShrinking (bit_and (get_or header 1 0) 0x7F))
        (λ len.
          if-Agree n (ltb max_size len) {x = close 1009 >> pure none} (λ _ _. refl)
            (read_payload-Agree (bit_and (get_or header 0 0) 0x0F)
              (not (bit_and (get_or header 0 0) 0x80 == 0))
              (not (bit_and (get_or header 1 0) 0x80 == 0)) len)))

read_fuel-step :
    (max_size fuel : ℕ) (s : Socket)
    → read_fuel (suc fuel) max_size s
      ≡ or_else none (read_frame max_size (read_fuel fuel max_size)) s
unfolding read_fuel
read_fuel-step max_size fuel s = refl

-- `catch ( ... )` on what the block ended with.
abbrev caught : Option (Option WsMessage) × Socket → Option (Option WsMessage) × Socket
caught r = elim r.0 as (λ _. Option (Option WsMessage) × Socket) [
  | none ↦ (some none, r.1)
  | some m ↦ (some m, r.1)
]

caught-some :
    (r : Option (Option WsMessage) × Socket) → (m : Option WsMessage) × ((caught r).0 ≡ some m)
caught-some (none, s) = (none, refl)
caught-some (some m, s) = (m, refl)

read_fuel-Agree : (n k max_size : ℕ) → Agree n (read_fuel (n + k) max_size) (read_fuel n max_size)
read_fuel-Agree zero k max_size s lt = absurd (omega arith)
read_fuel-Agree (suc n) k max_size s lt =
    let same =
      read_frame-Agree n (read_fuel (n + k) max_size) (read_fuel n max_size)
        (read_fuel-Agree n k max_size) max_size s lt in
    rw (suc-add, read_fuel-step max_size (n + k) s, read_fuel-step max_size n s) (ap caught same)

-- Further rounds change nothing: `read` has gone through all its calls of itself, whatever the peer
-- sends, and ends with a message or with none and never with an exception.
pub read-more :
    (k max_size : ℕ) (s : Socket)
    → (read_fuel (suc (length s.input) + k) max_size s ≡ read max_size s)
      × ((m : Option WsMessage) × ((read max_size s).0 ≡ some m))
unfolding read
read-more k max_size s = (
  read_fuel-Agree (suc (length s.input)) k max_size s (omega arith),
  rw (read_fuel-step max_size (length s.input) s)
      (caught-some (read_frame max_size (read_fuel (length s.input) max_size) s)),
)
