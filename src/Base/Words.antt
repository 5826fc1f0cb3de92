-- ===== src/Base/Words.antt =====
-- 32-bit words on a little-endian host: bytes of a word, words of bytes, `htonl`.
use Prim.Native.Nat.{ℕ, ◌+◌, ◌*◌, ◌/◌, ◌%◌, ◌^◌, ◌<◌}
use mathlib.Core.Path.{◌≡◌}
use native.Mathlib.Omega.{arith}

-- The word that four bytes in memory stand for.
unfoldable pub word_of_bytes : ℕ → ℕ → ℕ → ℕ → ℕ
word_of_bytes b0 b1 b2 b3 = b0 + b1 * 2 ^ 8 + b2 * 2 ^ 16 + b3 * 2 ^ 24

-- Byte `k` of a word, the lowest first.
unfoldable pub byte0 : ℕ → ℕ
byte0 w = w % 2 ^ 8

unfoldable pub byte1 : ℕ → ℕ
byte1 w = w / 2 ^ 8 % 2 ^ 8

unfoldable pub byte2 : ℕ → ℕ
byte2 w = w / 2 ^ 16 % 2 ^ 8

unfoldable pub byte3 : ℕ → ℕ
byte3 w = w / 2 ^ 24 % 2 ^ 8

-- `htonl`, `ntohl` and `__builtin_bswap32` swap the bytes of a word.
unfoldable pub bswap32 : ℕ → ℕ
unfolding byte0 byte1 byte2 byte3 word_of_bytes
bswap32 w = word_of_bytes (byte3 w) (byte2 w) (byte1 w) (byte0 w)

pub bswap32-lt : (w : ℕ) → bswap32 w < 2 ^ 32
unfolding bswap32
bswap32-lt w = omega arith

pub bswap32-bswap32 : (w : ℕ) → w < 2 ^ 32 → bswap32 (bswap32 w) ≡ w
unfolding bswap32
bswap32-bswap32 w h = omega arith

pub bswap32-bswap32_mod : (w : ℕ) → bswap32 (bswap32 w) ≡ w % 2 ^ 32
unfolding bswap32
bswap32-bswap32_mod w = omega arith
