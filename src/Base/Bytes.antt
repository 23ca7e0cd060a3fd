-- ===== src/Base/Bytes.antt =====
-- Byte memory as a function from offsets: `memcpy` into it and out of it, and the four bytes of a
-- `uint32_t`, least significant first.
use adaptipc.Base.{
  ℕ, zero, suc, ◌+◌, ◌-◌, ◌*◌, ◌/◌, ◌%◌, ◌≤◌, ◌<◌, ◌≡◌, refl, ◌⊎◌, List, [], ◌∷◌, ◌&&◌, ◌++◌,
  length-append, arith, ltb, leb, if◌then◌else◌, length, get_or,
}
use mathlib.Core.Path.{ap₂}

abbrev pub Memory : Type 0
Memory = ℕ → ℕ

-- `memcpy (mem + off, bs, length bs)`.
unfoldable pub write_bytes : Memory → ℕ → List ℕ → Memory
write_bytes mem off bs i =
    if leb off i && ltb i (off + length bs) then get_or bs (i - off) 0 else mem i

-- `memcpy (buf, mem + off, n)`: the bytes that land in `buf`.
unfoldable pub read_bytes : Memory → ℕ → ℕ → List ℕ
read_bytes mem off zero = []
read_bytes mem off (suc n) = mem off ∷ read_bytes mem (off + 1) n

unfoldable pub u32_bytes : ℕ → List ℕ
u32_bytes n = n % 256 ∷ n / 256 % 256 ∷ n / 65536 % 256 ∷ n / 16777216 % 256 ∷ []

unfoldable pub u32_at : Memory → ℕ → ℕ
u32_at mem off = mem off + 256 * mem (off + 1) + 65536 * mem (off + 2) + 16777216 * mem (off + 3)

pub write_bytes_outside :
    (mem : Memory) (off : ℕ) (bs : List ℕ) (i : ℕ)
    → (i < off) ⊎ (off + length bs ≤ i)
    → write_bytes mem off bs i ≡ mem i
unfolding write_bytes
write_bytes_outside mem off bs i h = ground arith

pub write_bytes_inside :
    (mem : Memory) (off : ℕ) (bs : List ℕ) (i j : ℕ)
    → i ≡ off + j
    → j < length bs
    → write_bytes mem off bs i ≡ get_or bs j 0
unfolding write_bytes
write_bytes_inside mem off bs i j e h = ground (arith, index)
  where
    index : i - off ≡ j
    index = omega arith

pub read_bytes_congr :
    (f g : Memory) (off n : ℕ)
    → ((i : ℕ) → off ≤ i → i < off + n → f i ≡ g i)
    → read_bytes f off n ≡ read_bytes g off n
unfolding read_bytes
read_bytes_congr f g off zero h = refl
read_bytes_congr f g off (suc n) h =
    ap₂ ◌∷◌ (h off (omega arith) (omega arith))
      (read_bytes_congr f g (off + 1) n (λ i lo hi. h i (omega arith) (omega arith)))

pub read_bytes_of :
    (f : Memory) (off : ℕ) (bs : List ℕ)
    → ((i j : ℕ) → i ≡ off + j → j < length bs → f i ≡ get_or bs j 0)
    → read_bytes f off (length bs) ≡ bs
unfolding read_bytes
read_bytes_of f off [] h = refl
read_bytes_of f off (b ∷ bs) h =
    ap₂ ◌∷◌ (h off 0 (omega arith) (omega arith))
      (read_bytes_of f (off + 1) bs (λ i j e l. h i (suc j) (omega arith) (omega arith)))

-- What `memcpy` stored is what it reads back.
pub read_bytes-write_bytes :
    (mem : Memory) (off : ℕ) (bs : List ℕ)
    → read_bytes (write_bytes mem off bs) off (length bs) ≡ bs
read_bytes-write_bytes mem off bs =
    read_bytes_of (write_bytes mem off bs) off bs (write_bytes_inside mem off bs)

pub u32_at_congr :
    (f g : Memory) (off : ℕ)
    → ((i : ℕ) → off ≤ i → i < off + 4 → f i ≡ g i)
    → u32_at f off ≡ u32_at g off
unfolding u32_at
u32_at_congr f g off h = omega (
  arith,
  h off (omega arith) (omega arith),
  h (off + 1) (omega arith) (omega arith),
  h (off + 2) (omega arith) (omega arith),
  h (off + 3) (omega arith) (omega arith),
)

-- A length that fits 32 bits is read back from its four bytes.
pub u32_at-write_bytes :
    (mem : Memory) (off n : ℕ) → n < 4294967296 → u32_at (write_bytes mem off (u32_bytes n)) off ≡ n
unfolding u32_at u32_bytes
u32_at-write_bytes mem off n h = omega (
  arith,
  write_bytes_inside mem off bytes off 0 (omega arith) (omega arith),
  write_bytes_inside mem off bytes (off + 1) 1 (omega arith) (omega arith),
  write_bytes_inside mem off bytes (off + 2) 2 (omega arith) (omega arith),
  write_bytes_inside mem off bytes (off + 3) 3 (omega arith) (omega arith),
)
  where
    bytes : List ℕ
    bytes = u32_bytes n

get_or-append :
    (xs ys : List ℕ) (j d : ℕ)
    → get_or (xs ++ ys) j d
      ≡ (if ltb j (length xs) then get_or xs j d else get_or ys (j - length xs) d)
get_or-append [] ys j d = ground arith
get_or-append (a ∷ xs) ys zero d = ground arith
get_or-append (a ∷ xs) ys (suc j) d = ground (arith, get_or-append xs ys j d)

-- Two writes back to back are one write of the bytes joined.
pub write_bytes-append :
    (mem : Memory) (off : ℕ) (xs ys : List ℕ) (i : ℕ)
    → write_bytes (write_bytes mem off xs) (off + length xs) ys i ≡ write_bytes mem off (xs ++ ys) i
unfolding write_bytes
write_bytes-append mem off xs ys i =
    ground (arith, length-append xs ys, get_or-append xs ys (i - off) 0, step)
  where
    step : i - (off + length xs) ≡ i - off - length xs
    step = omega arith

pub write_bytes-nil : (mem : Memory) (off i : ℕ) → write_bytes mem off [] i ≡ mem i
unfolding write_bytes
write_bytes-nil mem off i = ground arith

pub write_bytes_congr :
    (f g : Memory) (off : ℕ) (ys : List ℕ)
    → ((i : ℕ) → f i ≡ g i)
    → (i : ℕ) → write_bytes f off ys i ≡ write_bytes g off ys i
unfolding write_bytes
write_bytes_congr f g off ys same i = ground (arith, same i)
