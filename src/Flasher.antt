-- ===== src/Flasher.antt =====
-- The SPI and flash routines of software/tools/vme-flasher/svec-flasher.c. `vme_va` is the mapping
-- of the loader's registers, so an address here is a register's offset. The host is little-endian
-- and the VME bus big-endian, so what a plain store puts on the bus is the word with its bytes
-- swapped; `csr_writel` and `csr_readl` swap them first. What the routines print is left out.
pub mod Program
pub mod Afpga
pub mod Main
pub mod Sdb
pub mod Entries
pub mod Loading
pub mod Bounds
pub mod Spi
pub mod Commands
pub mod Chip
pub mod Pages
pub mod Content
pub mod Progress
pub mod Extent
pub mod Verify
pub mod Verified
pub mod Whole
pub mod FlashBoot
pub mod PowerUp
pub mod Boot
pub mod Release
pub mod Asked
pub mod Complete
mod Tests
mod FlashTests
mod BootTests
mod ProcessTests
use svec.Base.{
  ℕ, zero, suc, ◌+◌, ◌-◌, ◌*◌, ◌/◌, ◌%◌, ◌^◌, Bool, true, false, not, List, [], ◌∷◌, ◌==◌,
  if◌then◌else◌, flag, bswap32, bit_and, bit_or, ltb, ◌++◌, slice, replicate,
}
use svec.Core.{Buffer}
use svec.Bus.{rd, wr, wait, History, Hardware, Io, ret, exit, out_of_fuel, pure, ◌>>=◌, ◌>>◌}
use svec.Loader.{
  far_cs, far_xfer, far_ready, far_data_w, far_data_r, reg_far, reg_btrigr, reg_idr, reg_csr,
  csr_version_r,
}

abbrev pub Proc : Type 0 → Type 0
Proc = Io History

abbrev pub flash_page_size : ℕ
flash_page_size = 256

abbrev pub flash_wren : ℕ
flash_wren = 0x06

abbrev pub flash_rdid : ℕ
flash_rdid = 0x9f

abbrev pub flash_rdsr : ℕ
flash_rdsr = 0x05

abbrev pub flash_read : ℕ
flash_read = 0x03

abbrev pub flash_pp : ℕ
flash_pp = 0x02

abbrev pub flash_se : ℕ
flash_se = 0xd8

abbrev pub boot_seq : List ℕ
boot_seq = 0xde ∷ 0xad ∷ 0xbe ∷ 0xef ∷ 0xca ∷ 0xfe ∷ 0xba ∷ 0xbe ∷ []

-- `*(volatile uint32_t *)(vme_va + addr) = word`.
unfoldable pub store : ℕ → ℕ → Proc (Unit {0})
store word addr h = ret tt (wr addr (bswap32 word) ∷ h)

unfoldable pub csr_writel : ℕ → ℕ → Proc (Unit {0})
unfolding store
csr_writel word addr = store (bswap32 word) addr

unfoldable pub usleep : ℕ → Proc (Unit {0})
usleep us h = ret tt (wait us ∷ h)

-- The loop of `enter_bootloader`.
unfoldable pub write_seq : List ℕ → Proc (Unit {0})
write_seq [] = pure tt
write_seq (b ∷ bs) = do csr_writel b reg_btrigr; write_seq bs

-- `FAR_XFER | FAR_DATA_W(byte) | FAR_CS`.
unfoldable pub far_word : ℕ → ℕ
far_word byte = bit_or (bit_or far_xfer (far_data_w byte)) far_cs

unfoldable pub spi_cs : Bool → Proc (Unit {0})
spi_cs cs = do csr_writel (if cs then far_cs else 0) reg_far; usleep 1

-- The three bytes of an address, the most significant first.
abbrev pub addr_bytes : ℕ → List ℕ
addr_bytes addr = addr / 2 ^ 16 % 2 ^ 8 ∷ addr / 2 ^ 8 % 2 ^ 8 ∷ addr % 2 ^ 8 ∷ []

module _ (hw : Hardware) where
  -- `*(volatile uint32_t *)(vme_va + addr)`.
  unfoldable pub load : ℕ → Proc ℕ
  load addr h = let v = hw.answer h addr in ret (bswap32 v) (rd addr v ∷ h)

  unfoldable pub csr_readl : ℕ → Proc ℕ
  unfolding load
  csr_readl addr = do w ← load addr; pure (bswap32 w)

  unfoldable pub enter_bootloader : Proc ℕ
  enter_bootloader = do
    write_seq boot_seq
    idr ← csr_readl reg_idr
    if not (idr == 0x53564543)
        then exit 255
        else do csr ← csr_readl reg_csr; pure (csr_version_r csr)

  unfoldable pub spi_test_presence : Proc Bool
  spi_test_presence = do
    csr_writel (bit_or far_xfer (far_data_w 0xff)) reg_far
    usleep 100000
    far ← csr_readl reg_far
    pure (flag far far_ready)

  -- `do far = csr_readl(FAR); while (!(far & READY))`, on fuel.
  unfoldable pub wait_ready : ℕ → Proc ℕ
  wait_ready zero = out_of_fuel
  wait_ready (suc fuel) = do
    far ← csr_readl reg_far
    let again = wait_ready fuel
    if flag far far_ready then pure far else again

  module _ (fuel : ℕ) where
    unfoldable pub spi_read8 : Proc ℕ
    spi_read8 = do csr_writel (far_word 0xff) reg_far; far ← wait_ready fuel; pure (far_data_r far)

    unfoldable pub spi_write8 : ℕ → Proc (Unit {0})
    spi_write8 byte = do csr_writel (far_word byte) reg_far; far ← wait_ready fuel; pure tt

    -- Several calls of `spi_write8` in a row.
    unfoldable pub spi_write_all : List ℕ → Proc (Unit {0})
    spi_write_all [] = pure tt
    spi_write_all (b ∷ bs) = do spi_write8 b; spi_write_all bs

    unfoldable pub flash_read_id : Proc ℕ
    flash_read_id = do
      spi_cs false
      usleep 10
      spi_cs true
      usleep 10
      spi_cs true
      spi_write8 flash_rdid
      b2 ← spi_read8
      b1 ← spi_read8
      b0 ← spi_read8
      spi_cs false
      pure ((b2 * 2 ^ 16 + b1 * 2 ^ 8 + b0) % 2 ^ 32)

    -- `while (not_done)`, on fuel of its own.
    unfoldable pub flash_wait_completion : ℕ → Proc (Unit {0})
    flash_wait_completion zero = out_of_fuel
    flash_wait_completion (suc rounds) = do
      spi_cs true
      spi_write8 flash_rdsr
      stat ← spi_read8
      spi_cs false
      let again = flash_wait_completion rounds
      if flag stat 0x01 then again else pure tt

    unfoldable pub flash_erase_sector : ℕ → ℕ → Proc (Unit {0})
    flash_erase_sector rounds addr = do
      spi_cs true
      spi_write8 flash_se
      spi_write_all (addr_bytes addr)
      spi_cs false
      flash_wait_completion rounds

    unfoldable pub flash_write_enable : Proc (Unit {0})
    flash_write_enable = do spi_cs true; spi_write8 flash_wren; spi_cs false

    -- The bytes of a page from an offset of the data on: `size` of them, then 0xff up to 256.
    abbrev pub page_bytes : Buffer → ℕ → ℕ → List ℕ
    page_bytes data_buf off size =
        slice data_buf.mem off size ++ replicate (flash_page_size - size) 0xff

    unfoldable pub flash_program_page : ℕ → ℕ → Buffer → ℕ → ℕ → Proc (Unit {0})
    flash_program_page rounds addr data_buf off size = do
      spi_cs true
      spi_write8 flash_pp
      spi_write_all (addr_bytes addr)
      spi_write_all (page_bytes data_buf off size)
      spi_cs false
      flash_wait_completion rounds
