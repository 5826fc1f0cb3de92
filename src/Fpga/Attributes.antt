-- ===== src/Fpga/Attributes.antt =====
-- The files of a card's FPGA device in software/kernel/svec-core-fpga.c: its attributes in sysfs and
-- the build information in debugfs; and the presence of mezzanines.
use Prim.Native.String.{String}
use svec.Base.{
  ℕ, zero, suc, ◌+◌, ◌-◌, ◌*◌, ◌/◌, ◌%◌, ◌^◌, Bool, true, false, not, List, [], ◌∷◌, ◌++◌, map,
  ◌==◌, if◌then◌else◌, flag, bit_and, byte0, byte1, byte2, byte3, ◌⊎◌, inl, inr,
}
use svec.Base.Errors.{Errno}
use svec.Bus.{Hardware, pure, ◌>>=◌, ◌>>◌}
use svec.Text.{Output, str, hex08, hex, dec, chr}
use svec.Fpga.{RegMap, svec_meta_cap_therm, svec_meta_cap_bld, svec_fmc_slots}
use svec.Fpga.Board.{
  Drv, get, ioread32be, csr_app_off, csr_resets, csr_resets_app, svec_fpga_app_reset,
}

abbrev pub csr_fmc_present : ℕ
csr_fmc_present = 0x08

abbrev pub csr_pcb_rev : ℕ
csr_pcb_rev = 0x14

abbrev pub therm_serid_msb : ℕ
therm_serid_msb = 0x0

abbrev pub therm_serid_lsb : ℕ
therm_serid_lsb = 0x4

abbrev pub therm_temp : ℕ
therm_temp = 0x8

abbrev pub csr_ddr4_addr : ℕ
csr_ddr4_addr = 0x18

abbrev pub csr_ddr4_data : ℕ
csr_ddr4_data = 0x1c

abbrev pub csr_ddr5_addr : ℕ
csr_ddr5_addr = 0x20

abbrev pub csr_ddr5_data : ℕ
csr_ddr5_data = 0x24

-- The registers that debugfs shows, with their offsets.
unfoldable pub svec_fpga_debugfs_reg32 : (csr : ℕ) → List (String × ℕ)
svec_fpga_debugfs_reg32 csr =
    ("Application offset", csr + csr_app_off)
    ∷ ("Resets", csr + csr_resets)
    ∷ ("FMC present", csr + csr_fmc_present)
    ∷ ("PCB revision", csr + csr_pcb_rev)
    ∷ ("DDR4 ADDR", csr + csr_ddr4_addr)
    ∷ ("DDR4 DATA", csr + csr_ddr4_data)
    ∷ ("DDR5 ADDR", csr + csr_ddr5_addr)
    ∷ ("DDR5 DATA", csr + csr_ddr5_data)
    ∷ []

-- The characters of a word in memory up to a zero, and whether there was one.
unfoldable pub word_chars : ℕ → List ℕ × Bool
word_chars tmp =
    if byte0 tmp == 0
    then ([], true)
    else if byte1 tmp == 0
    then (byte0 tmp ∷ [], true)
    else if byte2 tmp == 0
    then (byte0 tmp ∷ byte1 tmp ∷ [], true)
    else if byte3 tmp == 0
    then (byte0 tmp ∷ byte1 tmp ∷ byte2 tmp ∷ [], true)
    else (byte0 tmp ∷ byte1 tmp ∷ byte2 tmp ∷ byte3 tmp ∷ [], false)

-- The thousandths of a degree that follow the point.
unfoldable pub fraction : ℕ → ℕ
fraction temp = bit_and temp 0xf * 1000 / 16

module _ (hw : Hardware) (regs : RegMap) where
  -- The loop of `svec_fpga_dbg_bld_info`: the words left, and the offset of the next.
  unfoldable pub bld_info_loop : ℕ → ℕ → Drv (List ℕ)
  unfolding word_chars
  bld_info_loop zero off = pure []
  bld_info_loop (suc n) off = do
    tmp ← ioread32be hw regs off
    let (cs, ended) = word_chars tmp
    if ended then pure cs else do rest ← bld_info_loop n (off + 4); pure (cs ++ rest)

  -- The loop runs while its offset is below the end by more than one byte.
  unfoldable pub svec_fpga_dbg_bld_info : Drv Output
  svec_fpga_dbg_bld_info = do
    b ← get
    if not (flag b.meta.cap svec_meta_cap_bld) then pure (str "not available\n" ∷ []) else do
      cs ← bld_info_loop ((regs.buildinfo_size - 1 + 3) / 4) regs.buildinfo
      pure (map chr cs)

  unfoldable pub temperature_show : Drv Output
  temperature_show = do
    b ← get
    if not (flag b.meta.cap svec_meta_cap_therm) then pure (str "-.- C\n" ∷ []) else do
      temp ← ioread32be hw regs (regs.therm_id + therm_temp)
      pure (dec (temp / 16) ∷ str "." ∷ dec (fraction temp) ∷ str " C\n" ∷ [])

  unfoldable pub serial_number_show : Drv Output
  serial_number_show = do
    b ← get
    if not (flag b.meta.cap svec_meta_cap_therm) then pure (str "0x----------------\n" ∷ []) else do
      msb ← ioread32be hw regs (regs.therm_id + therm_serid_msb)
      lsb ← ioread32be hw regs (regs.therm_id + therm_serid_lsb)
      pure (str "0x" ∷ hex08 msb ∷ hex08 lsb ∷ str "\n" ∷ [])

  unfoldable pub svec_fpga_csr_pcb_rev : Drv ℕ
  svec_fpga_csr_pcb_rev = ioread32be hw regs (regs.csr + csr_pcb_rev)

  unfoldable pub pcb_rev_show : Drv Output
  unfolding svec_fpga_csr_pcb_rev
  pcb_rev_show = do rev ← svec_fpga_csr_pcb_rev; pure (str "0x" ∷ hex rev ∷ str "\n" ∷ [])

  unfoldable pub svec_fpga_csr_app_offset : Drv ℕ
  svec_fpga_csr_app_offset = ioread32be hw regs (regs.csr + csr_app_off)

  unfoldable pub application_offset_show : Drv Output
  unfolding svec_fpga_csr_app_offset
  application_offset_show = do
    off ← svec_fpga_csr_app_offset
    pure (str "0x" ∷ hex off ∷ str "\n" ∷ [])

  unfoldable pub reset_app_show : Drv Output
  reset_app_show = do
    resets ← ioread32be hw regs (regs.csr + csr_resets)
    pure (dec (if flag resets csr_resets_app then 1 else 0) ∷ str "\n" ∷ [])

  unfoldable pub store_number : Errno ⊎ Bool → (count : ℕ) → Drv (Errno ⊎ ℕ)
  store_number (inl e) count = pure (inl e)
  store_number (inr val) count = do svec_fpga_app_reset hw regs val; pure (inr count)

  -- What `kstrtol` makes of the text is its error, or whether the number is another than zero. The
  -- result is the count of the characters, or that error.
  unfoldable pub reset_app_store :
      (kstrtol : List ℕ → Errno ⊎ Bool) → (buf : List ℕ) (count : ℕ) → Drv (Errno ⊎ ℕ)
  unfolding store_number
  reset_app_store kstrtol buf count = store_number (kstrtol buf) count

  -- An `u8`, under the mask of the slots.
  unfoldable pub svec_fmc_presence : Drv ℕ
  svec_fmc_presence = do
    presence ← ioread32be hw regs (regs.csr + csr_fmc_present)
    pure (bit_and (presence % 2 ^ 8) (2 ^ svec_fmc_slots - 1))

  -- `lun` counts the slots from 1.
  unfoldable pub svec_fmc_is_present : (lun : ℕ) → Drv Bool
  unfolding svec_fmc_presence
  svec_fmc_is_present lun = do presence ← svec_fmc_presence; pure (flag presence (2 ^ (lun - 1)))
