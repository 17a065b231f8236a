-- ===== src/Region.antt =====
-- `region_t` (aflnet.h): a span of bytes of a seed, with the server states seen after it was sent.
-- The `modifiable` flag is never read or written by the program and is left out. The offsets are
-- `int` in the source; the extractors only store offsets below the buffer's size.
use aflnet_legion.Common.{
  ℕ, zero, suc, ◌+◌, ◌-◌, ◌≤◌, ◌≡◌, Option, none, List, [], ◌∷◌, ◌++◌, length,
}

pub record Region : Type 0 where
  pub start_byte : ℕ
  pub end_byte : ℕ
  -- `NULL` is `none`
  pub state_sequence : Option (List ℕ)
  pub state_count : ℕ

-- What each extractor stores: an entry with no annotation.
abbrev pub region : ℕ → ℕ → Region
region s e = record { start_byte = s; end_byte = e; state_sequence = none; state_count = 0 }

-- The block that closes most extractors: with no region found, a non-empty buffer is one region.
unfoldable pub or_whole : ℕ → List Region → List Region
or_whole zero [] = []
or_whole (suc n) [] = region 0 n ∷ []
or_whole buf_size (r ∷ rs) = r ∷ rs

-- The regions follow one another from offset `a`, each with at least one byte.
abbrev pub IsTiling : ℕ → List Region → Type 0
IsTiling a [] = Unit {0}
IsTiling a (r ∷ rs) = (r.start_byte ≡ a) × (a ≤ r.end_byte) × IsTiling (r.end_byte + 1) rs

-- The offset behind the last region, or `a` if there is none.
abbrev pub covered : ℕ → List Region → ℕ
covered a [] = a
covered a (r ∷ rs) = covered (r.end_byte + 1) rs

-- The regions of consecutive messages with these contents, from offset `a`.
abbrev pub regions_of : ℕ → List (List ℕ) → List Region
regions_of a [] = []
regions_of a (m ∷ ms) =
    record { start_byte = a; end_byte = a + length m - 1; state_sequence = none; state_count = 0 }
    ∷ regions_of (a + length m) ms

abbrev pub concat : List (List ℕ) → List ℕ
concat [] = []
concat (m ∷ ms) = m ++ concat ms
