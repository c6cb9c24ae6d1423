-- ===== src/Pipe/Wire.antt =====
-- libs/Transport/PipeProtocol.cpp: AppendU32, AppendU64, AppendString, ReadU32, ReadU64, ReadString.
-- A byte vector is a list of numbers below 256. `std::bit_cast` of a word to its bytes is the
-- little-endian order of the program's x86-64 target; `std::size_t` has 64 bits there, and a sum of
-- an offset inside a vector and a 32-bit length does not wrap.
pub mod Laws
use librova.Base.{
  ℕ, zero, suc, ◌+◌, ◌*◌, ◌/◌, ◌%◌, ◌<◌, List, [], ◌∷◌, ◌++◌, take, drop, length, leb,
}
use librova.Base.Outcome.{Outcome, ok, ◌>>=◌, ◌>>◌, require}

-- The low `k` bytes of a word, lowest first.
unfoldable pub le_bytes : ℕ → ℕ → List ℕ
le_bytes zero value = []
le_bytes (suc k) value = (value % 256) ∷ le_bytes k (value / 256)

-- The word that bytes stand for.
unfoldable pub from_le : List ℕ → ℕ
from_le [] = 0
from_le (b ∷ bs) = b + 256 * from_le bs

abbrev pub IsByte : ℕ → Type 0
IsByte b = b < 256

unfoldable pub append_u32 : List ℕ → ℕ → List ℕ
append_u32 bytes value = bytes ++ le_bytes 4 value

unfoldable pub append_u64 : List ℕ → ℕ → List ℕ
append_u64 bytes value = bytes ++ le_bytes 8 value

-- std::numeric_limits<std::uint32_t>::max()
abbrev pub max_u32 : ℕ
max_u32 = 0xFFFFFFFF

unfoldable pub append_string : List ℕ → List ℕ → Outcome (List ℕ)
append_string bytes value = do
  require (leb (length value) max_u32) "Pipe payload exceeds uint32 framing limit."
  ok (append_u32 bytes (length value) ++ value)

-- A read returns its value and the offset behind it.
unfoldable pub read_u32 : List ℕ → ℕ → Outcome (ℕ × ℕ)
read_u32 bytes offset = do
  require (leb (offset + 4) (length bytes)) "Unexpected end of message while reading uint32."
  ok (from_le (take 4 (drop offset bytes)), offset + 4)

unfoldable pub read_u64 : List ℕ → ℕ → Outcome (ℕ × ℕ)
read_u64 bytes offset = do
  require (leb (offset + 8) (length bytes)) "Unexpected end of message while reading uint64."
  ok (from_le (take 8 (drop offset bytes)), offset + 8)

unfoldable pub read_string : List ℕ → ℕ → Outcome (List ℕ × ℕ)
read_string bytes offset = do
  (size, start) ← read_u32 bytes offset
  require (leb (start + size) (length bytes)) "Unexpected end of message while reading string."
  ok (take size (drop start bytes), start + size)
