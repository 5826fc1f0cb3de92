-- ===== src/Version.antt =====
-- software/tools/svec-firmware-version.c, which prints what a card says of its FPGA. The mapped
-- resource is a function from an offset to the word that the little-endian host reads there; what
-- is written to stdout is a list of pieces.
pub mod Main
pub mod Text
pub mod Commands
mod Tests
use Prim.Native.String.{String}
use svec.Text.{Output, str, hex08, dec, chr, hex_all}
use svec.Base.{
  ℕ, zero, suc, ◌+◌, ◌-◌, ◌*◌, ◌/◌, ◌%◌, ◌^◌, Bool, true, false, not, List, [], ◌∷◌, ◌++◌, ◌==◌,
  ltb, if◌then◌else◌, bit_and, flag, bswap32, byte0, byte1, byte2, byte3, Option, some, none,
}
use svec.Fpga.{
  Meta, svec_meta_vendor_id, svec_meta_device_id, svec_meta_bom_be, svec_meta_bom_end_mask,
}

unfoldable pub bom_to_str : ℕ → String
bom_to_str bom =
    if bit_and bom svec_meta_bom_end_mask == svec_meta_bom_be then "little-endian" else "wrong"

-- SVEC_META_VERSION_MAJ, _MIN and _PATCH.
abbrev pub meta_version_maj : ℕ → ℕ
meta_version_maj v = v / 2 ^ 24 % 2 ^ 8

abbrev pub meta_version_min : ℕ → ℕ
meta_version_min v = v / 2 ^ 16 % 2 ^ 8

abbrev pub meta_version_patch : ℕ → ℕ
meta_version_patch v = v % 2 ^ 16

unfoldable pub print_meta_id_one : (verbose : ℕ) → Meta → Output
print_meta_id_one verbose rom =
    (str "0x"
      ∷ hex08 rom.vendor
      ∷ str ",0x"
      ∷ hex08 rom.device
      ∷ str ","
      ∷ dec (meta_version_maj rom.version)
      ∷ str "."
      ∷ dec (meta_version_min rom.version)
      ∷ str "."
      ∷ dec (meta_version_patch rom.version)
      ∷ [])
    ++ (if ltb 0 verbose
        then hex08 rom.cap ∷ str "," ∷ hex08 rom.bom ∷ str "," ∷ hex_all rom.src
          ++ (str "," ∷ hex_all rom.uuid)
        else [])
    ++ (chr b'\n' ∷ [])

unfoldable pub print_meta_vendor : ℕ → Output
print_meta_vendor vendor =
    if vendor == svec_meta_vendor_id
    then str "CERN" ∷ []
    else str "unknown (0x" ∷ hex08 vendor ∷ str ")" ∷ []

unfoldable pub print_meta_device : ℕ → Output
print_meta_device device =
    if device == svec_meta_device_id
    then str "svec-base" ∷ []
    else str "unknown (0x" ∷ hex08 device ∷ str ")" ∷ []

-- The table `capability`.
unfoldable pub capability : ℕ → Option String
capability zero = some "vic"
capability (suc zero) = some "thermometer"
capability (suc (suc zero)) = some "spi"
capability (suc (suc (suc zero))) = some "white-rabbit"
capability (suc (suc (suc (suc zero)))) = some "build-info"
capability (suc (suc (suc (suc (suc zero))))) = some "dma-engine"
capability (suc (suc (suc (suc (suc (suc i)))))) = none

-- One round of the loop over the bits, for a bit that is set.
unfoldable pub print_bit : ℕ → Output
print_bit i = elim (capability i) [
  | some name ↦ str name ∷ str ", " ∷ []
  | none ↦ str "unknown BIT(" ∷ dec i ∷ str "), " ∷ []
]

-- The bits left, and the next; with whether a known one was set.
unfoldable pub cap_loop : ℕ → ℕ → ℕ → Bool → Output
unfolding print_bit
cap_loop zero i cap has_cap = if has_cap then str "\u{8}\u{8}  " ∷ [] else []
cap_loop (suc n) i cap has_cap =
    (if flag cap (2 ^ i) then print_bit i else [])
    ++ cap_loop n (i + 1) cap
        (if ltb i 6 then (if flag cap (2 ^ i) then true else has_cap) else has_cap)

unfoldable pub print_meta_capabilities : ℕ → Output
print_meta_capabilities cap = cap_loop 32 0 cap false

abbrev pub buildinfo : ℕ
buildinfo = 0x200

abbrev pub buildinfo_size : ℕ
buildinfo_size = 256

-- A character of the build information: two spaces follow a line's end.
abbrev pub print_char : ℕ → Output
print_char c = if c == b'\n' then chr c ∷ str "  " ∷ [] else chr c ∷ []

-- The characters of the words from an offset on, up to the first that is zero: words left, offset.
unfoldable pub info_chars : (ℕ → ℕ) → ℕ → ℕ → List ℕ
info_chars bld zero off = []
info_chars bld (suc n) off =
    let tmp = bswap32 (bld off) in
    let rest = info_chars bld n (off + 4) in
    if byte0 tmp == 0
    then []
    else byte0 tmp
      ∷ (if byte1 tmp == 0
          then []
          else byte1 tmp
            ∷ (if byte2 tmp == 0
                then []
                else byte2 tmp ∷ (if byte3 tmp == 0 then [] else byte3 tmp ∷ rest)))

abbrev pub print_chars : List ℕ → Output
print_chars [] = []
print_chars (c ∷ cs) = print_char c ++ print_chars cs

-- `mmap` fails or gives the words; the result is the exit code and the output.
unfoldable pub print_build_info : Option (ℕ → ℕ) → Bool × Output
unfolding info_chars
print_build_info none = (false, [])
print_build_info (some bld) = (
  true,
  (str "build-info : \n  " ∷ []) ++ print_chars (info_chars bld 64 buildinfo) ++ (chr b'\n' ∷ []),
)

-- `__builtin_bswap32` on every word.
abbrev pub swap_all : List ℕ → List ℕ
swap_all [] = []
swap_all (w ∷ ws) = bswap32 w ∷ swap_all ws

unfoldable pub print_meta_id : (verbose : ℕ) → Meta → Output
unfolding print_meta_vendor print_meta_device print_meta_capabilities bom_to_str
print_meta_id verbose rom =
    (chr b'\n' ∷ str "  vendor       : " ∷ print_meta_vendor (bswap32 rom.vendor))
    ++ (chr b'\n' ∷ str "  device       : " ∷ print_meta_device (bswap32 rom.device))
    ++ (chr b'\n'
        ∷ str "  version      : "
        ∷ dec (meta_version_maj (bswap32 rom.version))
        ∷ str "."
        ∷ dec (meta_version_min (bswap32 rom.version))
        ∷ str "."
        ∷ dec (meta_version_patch (bswap32 rom.version))
        ∷ str "\n  capabilities : "
        ∷ print_meta_capabilities (bswap32 rom.cap))
    ++ (chr b'\n'
        ∷ (if ltb 0 verbose
            then (str "  byte-order   : "
                ∷ str (bom_to_str (bswap32 rom.bom))
                ∷ str "\n  sources      : "
                ∷ hex_all (swap_all rom.src))
              ++ (str "\n  UUID         : " ∷ hex_all (swap_all rom.uuid))
              ++ (str "\n" ∷ [])
            else []))
