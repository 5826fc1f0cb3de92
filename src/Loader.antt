-- ===== src/Loader.antt =====
-- The bootloader's registers, as hw/xloader_regs.h and vme-flasher/sxldr_regs.h spell them
-- (`XLDR_…` and `SXLDR_…`), and what the loader core behind them takes in.
pub mod Intake
use svec.Base.{ℕ, ◌-◌, ◌*◌, ◌/◌, ◌%◌, ◌^◌}

-- WBGEN2_GEN_MASK, WBGEN2_GEN_WRITE and WBGEN2_GEN_READ: `<<` multiplies, `>>` divides, and
-- `& ((1 << size) - 1)` is the remainder.
abbrev pub gen_mask : ℕ → ℕ → ℕ
gen_mask offset size = (2 ^ size - 1) * 2 ^ offset

abbrev pub gen_write : ℕ → ℕ → ℕ → ℕ
gen_write value offset size = value % 2 ^ size * 2 ^ offset

abbrev pub gen_read : ℕ → ℕ → ℕ → ℕ
gen_read reg offset size = reg / 2 ^ offset % 2 ^ size

abbrev pub csr_start : ℕ
csr_start = gen_mask 0 1

abbrev pub csr_done : ℕ
csr_done = gen_mask 1 1

abbrev pub csr_error : ℕ
csr_error = gen_mask 2 1

abbrev pub csr_msbf : ℕ
csr_msbf = gen_mask 4 1

abbrev pub csr_swrst : ℕ
csr_swrst = gen_mask 5 1

abbrev pub csr_exit : ℕ
csr_exit = gen_mask 6 1

abbrev pub csr_version_r : ℕ → ℕ
csr_version_r reg = gen_read reg 14 8

abbrev pub far_data_w : ℕ → ℕ
far_data_w value = gen_write value 0 8

abbrev pub far_data_r : ℕ → ℕ
far_data_r reg = gen_read reg 0 8

abbrev pub far_xfer : ℕ
far_xfer = gen_mask 8 1

abbrev pub far_ready : ℕ
far_ready = gen_mask 9 1

abbrev pub far_cs : ℕ
far_cs = gen_mask 10 1

abbrev pub fifo_r0_xlast : ℕ
fifo_r0_xlast = gen_mask 2 1

abbrev pub fifo_csr_full : ℕ
fifo_csr_full = gen_mask 16 1

abbrev pub reg_csr : ℕ
reg_csr = 0x0

abbrev pub reg_btrigr : ℕ
reg_btrigr = 0x4

abbrev pub reg_far : ℕ
reg_far = 0x8

abbrev pub reg_idr : ℕ
reg_idr = 0xc

abbrev pub reg_fifo_r0 : ℕ
reg_fifo_r0 = 0x10

abbrev pub reg_fifo_r1 : ℕ
reg_fifo_r1 = 0x14

abbrev pub reg_fifo_csr : ℕ
reg_fifo_csr = 0x18
