-- ===== src/Flasher/Program.antt =====
-- `flash_program` and `program_flash` of software/tools/vme-flasher/svec-flasher.c. A call takes
-- fuel for one SPI transfer (`fuel`) and for one wait for the flash (`rounds`). What they print is
-- left out.
use svec.Base.{
  ℕ, zero, suc, ◌+◌, ◌/◌, ◌%◌, ◌^◌, Bool, true, false, not, ◌&&◌, List, ◌∷◌, ◌==◌, if◌then◌else◌,
  Option, none, some, ltb, get_elem?, set, replicate,
}
use svec.Base.Errors.{Code, ok, err, einval, enodev, enomem, eperm}
use svec.Bus.{Hardware, fault, out_of_fuel, pure, ◌>>=◌, ◌>>◌}
use svec.Core.{Buffer}
use svec.Flasher.Sdb.{sdb_header}
use svec.Flasher.{
  Proc, flash_page_size, flash_read, spi_cs, spi_read8, spi_write8, spi_write_all, addr_bytes,
  flash_write_enable, flash_erase_sector, flash_program_page, flash_read_id, spi_test_presence,
}

abbrev pub id_m25p128 : ℕ
id_m25p128 = 0x202018

abbrev pub id_mt25ql128 : ℕ
id_mt25ql128 = 0x20ba18

abbrev pub flash_size : ℕ
flash_size = 0x1000000

abbrev pub bootloader_bitstream_base : ℕ
bootloader_bitstream_base = 0x100000

abbrev pub bootloader_sdb_base : ℕ
bootloader_sdb_base = 0x600000

-- FLASH_SECTOR_SIZE_M25P128 and FLASH_SECTOR_SIZE_MT25QL128.
unfoldable pub sector_size_of : ℕ → Option ℕ
sector_size_of flash_id =
    if flash_id == id_m25p128
    then some 0x40000
    else if flash_id == id_mt25ql128
    then some 0x10000
    else none

-- `int plen = (size > FLASH_PAGE_SIZE ? FLASH_PAGE_SIZE : size)`.
abbrev pub plen_of : Buffer → ℕ
plen_of b = if ltb flash_page_size b.size then flash_page_size else b.size

-- `strncmp(confirm, "yes", 3)` is zero.
unfoldable pub is_yes : List ℕ → Bool
is_yes (c0 ∷ c1 ∷ c2 ∷ rest) = c0 == b'y' && (c1 == b'e' && c2 == b's')
is_yes _ = false

module _ (hw : Hardware) (fuel rounds : ℕ) where
  -- The branch `if (!sector_map[sector])`.
  unfoldable pub erase_unless : Bool → ℕ → Proc (Unit {0})
  erase_unless true addr = pure tt
  erase_unless false addr = do flash_write_enable hw fuel; flash_erase_sector hw fuel rounds addr

  -- `while (n < size)`, on fuel for its rounds; `addr + n` is an `uint32_t`, and the array access
  -- faults outside the map.
  unfoldable pub program_loop : ℕ → ℕ → Buffer → ℕ → ℕ → List Bool → Proc (Unit {0})
  program_loop zero addr b sector_size n sector_map = if ltb n b.size then out_of_fuel else pure tt
  program_loop (suc pages) addr b sector_size n sector_map =
      let plen = plen_of b in
      let at = (addr + n) % 2 ^ 32 in
      let sector = at / sector_size in
      if not (ltb n b.size) then pure tt else elim (get_elem? sector_map sector) [
        | none ↦ fault
        | some erased ↦ do
          erase_unless erased at
          flash_write_enable hw fuel
          flash_program_page hw fuel rounds at b n plen
          program_loop pages addr b sector_size (n + plen) (set sector_map sector true)
      ]

  -- The loop over the bytes to verify: the number of bytes left, and the offset.
  unfoldable pub verify_loop : Buffer → ℕ → ℕ → Proc Code
  verify_loop b zero n = pure ok
  verify_loop b (suc k) n = do
    d ← spi_read8 hw fuel
    let again = verify_loop b k (n + 1)
    if d == b.mem n then again else pure (err einval)

  -- From the end of the loop to `flash_program_exit`.
  unfoldable pub verify : ℕ → Buffer → Proc Code
  verify addr b = do
    spi_cs true
    spi_write8 hw fuel flash_read
    spi_write_all hw fuel (addr_bytes addr)
    ret ← verify_loop b b.size 0
    spi_cs false
    pure ret

  -- `malloc_ok` is whether `malloc` returned a block. Every round advances, so `size` rounds do.
  unfoldable pub flash_program : Bool → ℕ → Buffer → ℕ → Proc Code
  flash_program malloc_ok addr b flash_id = elim (sector_size_of flash_id) [
    | none ↦ pure (err enodev)
    | some sector_size ↦ if not malloc_ok then pure (err enomem) else do
      program_loop b.size addr b sector_size 0 (replicate (flash_size / sector_size) false)
      verify addr b
  ]

  -- `confirm` is the line that `fgets` left.
  unfoldable pub program_flash : Bool → (confirm : List ℕ) (b : Buffer) → Bool → Proc Code
  program_flash malloc_ok confirm b program_boot = do
    present ← spi_test_presence hw
    if not present then pure (err eperm) else do
      flash_id ← flash_read_id hw fuel
      if not (flash_id == id_m25p128) && not (flash_id == id_mt25ql128)
          then pure (err enodev)
          else if program_boot
          then (if not (is_yes confirm)
              then pure (err eperm)
              else flash_program malloc_ok 0 b flash_id)
          else (do
            ret ← flash_program malloc_ok bootloader_sdb_base sdb_header flash_id
            elim ret [
              | err e ↦ pure (err e)
              | ok ↦ flash_program malloc_ok bootloader_bitstream_base b flash_id
            ])
