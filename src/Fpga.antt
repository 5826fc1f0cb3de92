-- ===== src/Fpga.antt =====
-- The card's FPGA in software/kernel/svec-core-fpga.c: its registers, its metadata, and the devices
-- that the driver makes for it. Addresses are offsets into the mapping `svec_fpga->fpga`. The
-- offsets come from a header that the build generates from hdl/rtl, so they are a parameter.
pub mod Resources
pub mod App
pub mod I2c
pub mod Board
pub mod Parts
pub mod Attributes
pub mod Files
pub mod BuildInfo
pub mod Resets
pub mod Sensors
pub mod Lifecycle
pub mod Valid
pub mod Metadata
pub mod Holding
pub mod Buses
pub mod Cycle
pub mod Teardown
pub mod Samples
mod Tests
use svec.Base.{
  ℕ, zero, suc, ◌+◌, ◌*◌, ◌/◌, ◌%◌, ◌^◌, Bool, true, false, not, ◌&&◌, ◌||◌, List, [], ◌∷◌, ◌==◌,
  ltb, if◌then◌else◌, bit_and, bit_or, flag, get_elem?, Option, some, none,
}
use svec.Base.Errors.{Code, ok, err, Errno}
use svec.Bus.{rd, wr, wait, History, Hardware, Io, ret, pure, ◌>>=◌, ◌>>◌}

-- The constants of the generated header svec-core-fpga.h, and the version that the build stamps.
pub record RegMap : Type 0 where
  pub metadata : ℕ
  pub csr : ℕ
  pub therm_id : ℕ
  pub buildinfo : ℕ
  pub buildinfo_size : ℕ
  pub vic : ℕ
  pub fmc_i2c : ℕ
  pub fmc_i2c_size : ℕ
  pub flash_spi : ℕ
  pub flash_spi_size : ℕ
  pub version_bld : ℕ

-- `struct svec_meta_id`.
pub record Meta : Type 0 where
  pub vendor : ℕ
  pub device : ℕ
  pub version : ℕ
  pub bom : ℕ
  pub src : List ℕ
  pub cap : ℕ
  pub uuid : List ℕ

-- `sizeof(struct svec_meta_id) / 4`.
abbrev pub meta_words : ℕ
meta_words = 13

abbrev pub svec_meta_vendor_id : ℕ
svec_meta_vendor_id = 0x10dc

abbrev pub svec_meta_device_id : ℕ
svec_meta_device_id = 0x53564543

abbrev pub svec_meta_bom_be : ℕ
svec_meta_bom_be = 0xfffe0000

abbrev pub svec_meta_bom_end_mask : ℕ
svec_meta_bom_end_mask = 0xffff0000

abbrev pub svec_meta_bom_ver_mask : ℕ
svec_meta_bom_ver_mask = 0x0000ffff

-- SVEC_FMC_SLOTS.
abbrev pub svec_fmc_slots : ℕ
svec_fmc_slots = 2

-- BIT(n).
abbrev pub svec_meta_cap_vic : ℕ
svec_meta_cap_vic = 2 ^ 0

abbrev pub svec_meta_cap_therm : ℕ
svec_meta_cap_therm = 2 ^ 1

abbrev pub svec_meta_cap_spi : ℕ
svec_meta_cap_spi = 2 ^ 2

abbrev pub svec_meta_cap_bld : ℕ
svec_meta_cap_bld = 2 ^ 4

-- SVEC_VERSION_MAJ and SVEC_VERSION_MIN.
abbrev pub version_maj : ℕ → ℕ
version_maj v = v / 2 ^ 24 % 2 ^ 8

abbrev pub version_min : ℕ → ℕ
version_min v = v / 2 ^ 16 % 2 ^ 8

-- The words of the structure at its fields.
unfoldable pub word_at : List ℕ → ℕ → ℕ
word_at ws i = elim (get_elem? ws i) [ some w ↦ w | none ↦ 0 ]

unfoldable pub meta_of_words : List ℕ → Meta
unfolding word_at
meta_of_words ws = record {
  vendor = word_at ws 0;
  device = word_at ws 1;
  version = word_at ws 2;
  bom = word_at ws 3;
  src = word_at ws 4 ∷ word_at ws 5 ∷ word_at ws 6 ∷ word_at ws 7 ∷ [];
  cap = word_at ws 8;
  uuid = word_at ws 9 ∷ word_at ws 10 ∷ word_at ws 11 ∷ word_at ws 12 ∷ [];
}

unfoldable pub svec_fpga_is_valid_version : (version_ignore : Bool) (expected found : ℕ) → Bool
svec_fpga_is_valid_version version_ignore expected found =
    if version_ignore
    then true
    else if not (version_maj found == version_maj expected)
    then false
    else if ltb (version_min found) (version_min expected)
    then false
    else true

unfoldable pub svec_fpga_is_valid : (version_ignore : Bool) (version_drv : ℕ) → Meta → Bool
unfolding svec_fpga_is_valid_version
svec_fpga_is_valid version_ignore version_drv m =
    if not (bit_and m.bom svec_meta_bom_end_mask == svec_meta_bom_be)
    then false
    else if not (bit_and m.bom svec_meta_bom_ver_mask == 0)
    then false
    else if not (m.vendor == svec_meta_vendor_id) || not (m.device == svec_meta_device_id)
    then false
    else svec_fpga_is_valid_version version_ignore version_drv m.version
