-- ===== src/Requests/Dns.antt =====
-- `extract_requests_dns` (aflnet.c): a query ends four bytes behind the first null byte after the
-- 12-byte header.
pub mod Queries
use aflnet_legion.Common.{
  ℕ, zero, suc, ◌+◌, ◌-◌, Bool, true, false, ◌&&◌, List, [], ◌∷◌, ◌==◌, ltb, leb, if◌then◌else◌,
  length, drop, Bytes, Array, write,
}
use aflnet_legion.Region.{Region, region, or_whole}

-- The variables of the loop but `byte_count`. `mem` holds the bytes of the current query.
pub record Query : Type 0 where
  pub mem : Array
  pub mem_count : ℕ
  pub cur_start : ℕ
  pub cur_end : ℕ

abbrev pub start : Query
start = record { mem = λ i. 0; mem_count = 0; cur_start = 0; cur_end = 0 }

-- `(mem_count >= 12) && (*(mem+mem_count) == 0)`
abbrev pub ends_name : Array → ℕ → Bool
ends_name mem mem_count = leb 12 mem_count && mem mem_count == 0

-- The `for` over the bytes from `byte_count` on. The first argument counts the bytes behind the
-- null byte that are passed without being read; the loop ends with the buffer among them too.
-- `byte_count` itself stays below `2 ^ 32` for a buffer that ends four bytes before.
unfoldable pub scan : ℕ → ℕ → Query → Bytes → List Region
scan skipping buf_size s [] = []
scan (suc skipping) buf_size s (b ∷ bs) = scan skipping buf_size s bs
scan zero buf_size s (b ∷ bs) =
    let mem = write s.mem s.mem_count b in
    let end = s.cur_end + 4 in
    let after_query =
      scan 4 buf_size (record { mem = mem; mem_count = 0; cur_start = end + 1; cur_end = end + 1 })
        bs in
    let next =
      scan 0 buf_size (record s { mem = mem; mem_count = s.mem_count + 1; cur_end = s.cur_end + 1 })
        bs in
    if ends_name mem s.mem_count
    then region s.cur_start end ∷ (if end == buf_size - 1 then [] else after_query)
    else if s.cur_end + 1 == buf_size - 1
    then region s.cur_start (s.cur_end + 1) ∷ []
    else next

unfoldable pub extract_requests_dns : Bytes → List Region
unfolding scan or_whole
extract_requests_dns buf = or_whole (length buf) (scan 0 (length buf) start buf)
