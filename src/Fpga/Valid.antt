-- ===== src/Fpga/Valid.antt =====
-- The test of the metadata in software/kernel/svec-core-fpga.c, against what the versions mean.
use svec.Base.{ℕ, ◌≤◌, ◌≡◌, ◌↔◌, ◌⊎◌, Bool, true, bit_and, arith}
use svec.Fpga.{
  Meta, version_maj, version_min, svec_meta_vendor_id, svec_meta_device_id, svec_meta_bom_be,
  svec_meta_bom_end_mask, svec_meta_bom_ver_mask, svec_fpga_is_valid, svec_fpga_is_valid_version,
}

-- A version that a driver for the version `expected` can work with: the same major number, and a
-- minor number that is not smaller.
abbrev pub Compatible : (expected found : ℕ) → Type 0
Compatible expected found =
    (version_maj found ≡ version_maj expected) × (version_min expected ≤ version_min found)

-- The metadata of a card that the driver takes.
abbrev pub Accepted : (version_ignore : Bool) (expected : ℕ) → Meta → Type 0
Accepted version_ignore expected m =
    (bit_and m.bom svec_meta_bom_end_mask ≡ svec_meta_bom_be)
    × (bit_and m.bom svec_meta_bom_ver_mask ≡ 0)
    × (m.vendor ≡ svec_meta_vendor_id)
    × (m.device ≡ svec_meta_device_id)
    × ((version_ignore ≡ true) ⊎ Compatible expected m.version)

version_iff :
    (version_ignore : Bool) (expected found : ℕ)
    → (svec_fpga_is_valid_version version_ignore expected found ≡ true)
      ↔ ((version_ignore ≡ true) ⊎ Compatible expected found)
unfolding svec_fpga_is_valid_version
version_iff version_ignore expected found = ground arith

-- `svec_fpga_is_valid` says yes exactly to the metadata in big-endian order, of format 0, with the
-- vendor and the device of the card, and with the driver's major version and no smaller minor
-- version, unless versions are ignored.
pub svec_fpga_is_valid_iff :
    (version_ignore : Bool) (expected : ℕ) (m : Meta)
    → (svec_fpga_is_valid version_ignore expected m ≡ true) ↔ Accepted version_ignore expected m
unfolding svec_fpga_is_valid svec_fpga_is_valid_version
svec_fpga_is_valid_iff version_ignore expected m = ground arith
