-- ===== src/Version/Text.antt =====
-- `print_build_info` of software/tools/svec-firmware-version.c, against the text that the words spell
-- from the most significant byte down.
use svec.Base.{
  ℕ, zero, suc, ◌+◌, ◌≡◌, refl, List, [], ◌∷◌, ◌==◌, if◌then◌else◌, byte0, byte1, byte2, byte3,
  bswap32, arith,
}
use svec.Version.{info_chars}

-- The bytes of `n` words from an offset on, the most significant of each first.
abbrev pub bytes_at : (ℕ → ℕ) → (n off : ℕ) → List ℕ
bytes_at bld zero off = []
bytes_at bld (suc n) off =
    byte3 (bld off) ∷ byte2 (bld off) ∷ byte1 (bld off) ∷ byte0 (bld off) ∷ bytes_at bld n (off + 4)

-- A C string's characters.
abbrev pub until_zero : List ℕ → List ℕ
until_zero [] = []
until_zero (c ∷ cs) = let rest = until_zero cs in if c == 0 then [] else c ∷ rest

byte0-bswap32 : (w : ℕ) → byte0 (bswap32 w) ≡ byte3 w
unfolding byte0 byte3 bswap32
byte0-bswap32 w = omega arith

byte1-bswap32 : (w : ℕ) → byte1 (bswap32 w) ≡ byte2 w
unfolding byte1 byte2 bswap32
byte1-bswap32 w = omega arith

byte2-bswap32 : (w : ℕ) → byte2 (bswap32 w) ≡ byte1 w
unfolding byte1 byte2 bswap32
byte2-bswap32 w = omega arith

byte3-bswap32 : (w : ℕ) → byte3 (bswap32 w) ≡ byte0 w
unfolding byte0 byte3 bswap32
byte3-bswap32 w = omega arith

-- The characters printed of `n` words from an offset on are the bytes of the words, each word from
-- its most significant byte down, up to the first byte that is zero.
pub info_chars-until_zero :
    (bld : ℕ → ℕ) (n off : ℕ) → info_chars bld n off ≡ until_zero (bytes_at bld n off)
unfolding info_chars
info_chars-until_zero bld zero off = refl
info_chars-until_zero bld (suc n) off =
    rw
      (
        byte0-bswap32 (bld off),
        byte1-bswap32 (bld off),
        byte2-bswap32 (bld off),
        byte3-bswap32 (bld off),
        info_chars-until_zero bld n (off + 4),
      )
      refl
