-- ===== src/Tests/Ascii.antt =====
-- Text as bytes, for the runs of the extractors.
use Prim.Native.Char.{code}
use Prim.Native.String.{String}
use aflnet_legion.Common.{[], ◌∷◌, Bytes}

-- Code points; every literal of these modules is ASCII.
abbrev pub codes : String → Bytes
codes String.[] = []
codes (String.◌∷◌ c s) = code c ∷ codes s
