-- ===== src/Common/Words.antt =====
-- Bytes, and the fixed-width unsigned arithmetic of the C sources.
use Prim.Native.Nat.{ℕ, ◌+◌, ◌-◌, ◌*◌, ◌%◌, ◌^◌, ◌<◌, compare, Ordering}
use mathlib.Core.List.{List, [], ◌∷◌}
use mathlib.Core.Path.{◌≡◌, refl}
use native.Mathlib.Omega.{arith}

abbrev pub Bytes : Type 0
Bytes = List ℕ

-- `unsigned int` (u32): `+` and `-` wrap at 2 ^ 32.
abbrev pub u32_mod : ℕ
u32_mod = 2 ^ 32

abbrev pub add32 : ℕ → ℕ → ℕ
add32 a b = (a + b) % u32_mod

abbrev pub sub32 : ℕ → ℕ → ℕ
sub32 a b = (a + u32_mod - b) % u32_mod

-- Products that are stored as `u32` and as `u64`.
abbrev pub times32 : ℕ → ℕ → ℕ
times32 a b = (a * b) % u32_mod

abbrev pub times64 : ℕ → ℕ → ℕ
times64 a b = (a * b) % 2 ^ 64

-- `MAX_ALLOC` (config.h): `ck_alloc` and `ck_realloc` abort the program above it.
abbrev pub max_alloc : ℕ
max_alloc = 0x40000000

-- `ntohs` and `ntohl` of bytes in network order.
abbrev pub be16 : ℕ → ℕ → ℕ
be16 a b = a * 256 + b

abbrev pub be32 : ℕ → ℕ → ℕ → ℕ → ℕ
be32 a b c d = ((a * 256 + b) * 256 + c) * 256 + d

-- A C array of bytes as its contents, and an assignment to one element.
abbrev pub Array : Type 0
Array = ℕ → ℕ

abbrev pub write : Array → ℕ → ℕ → Array
write mem i v j = elim (compare i j) [ Ordering.eq ↦ v | _ ↦ mem j ]

-- The contents after the bytes are stored one after the other from index `i`.
abbrev pub fill : Array → ℕ → Bytes → Array
fill mem i [] = mem
fill mem i (b ∷ bs) = fill (write mem i b) (i + 1) bs

pub fill_before : (bs : Bytes) (mem : Array) (i j : ℕ) → j < i → fill mem i bs j ≡ mem j
fill_before [] mem i j h = refl
fill_before (b ∷ bs) mem i j h = ground (arith, fill_before bs (write mem i b) (i + 1) j)
