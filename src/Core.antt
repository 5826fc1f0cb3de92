-- ===== src/Core.antt =====
-- The FPGA manager operations of software/kernel/svec-core.c, which load a bitstream into the
-- Application FPGA through the bootloader's registers.
pub mod Program
pub mod Entry
pub mod Word
pub mod Stream
pub mod Buffers
pub mod Start
pub mod Stop
pub mod Complete
pub mod Manager
pub mod Image
pub mod Polling
pub mod Serving
pub mod Samples
mod Tests
use svec.Base.{
  ℕ, zero, suc, ◌+◌, ◌-◌, ◌*◌, ◌/◌, ◌%◌, ◌^◌, Bool, true, false, ◌&&◌, ◌||◌, not, List, [], ◌∷◌,
  ◌==◌, ltb, leb, if◌then◌else◌, flag, word_of_bytes, byte0, byte1, byte2, byte3, bswap32, bit_and,
  bit_or,
}
use svec.Base.Errors.{Code, ok, err, Errno, einval, ebusy, enxio, eio}
use svec.Bus.{
  rd, wr, wait, clock, History, Hardware, Io, Run, ret, exit, out_of_fuel, pure, ◌>>=◌, ◌>>◌,
}
use svec.Loader.{
  csr_start, csr_done, csr_error, csr_msbf, csr_swrst, csr_exit, fifo_r0_xlast, fifo_csr_full,
  reg_csr, reg_btrigr, reg_idr, reg_fifo_r0, reg_fifo_r1, reg_fifo_csr,
}

-- The fields of `struct svec_dev` that these functions read and write, both `uint32_t`, and the
-- accesses made so far.
pub record Svec : Type 0 where
  pub bitstream_last_word : ℕ
  pub bitstream_last_word_size : ℕ
  pub bus : History

abbrev pub svec_base_loader : ℕ
svec_base_loader = 0x70000

-- -1 in a `uint32_t`.
abbrev pub u32_minus_one : ℕ
u32_minus_one = 2 ^ 32 - 1

abbrev pub boot_unlock_sequence : List ℕ
boot_unlock_sequence = 0xde ∷ 0xad ∷ 0xbe ∷ 0xef ∷ 0xca ∷ 0xfe ∷ 0xba ∷ 0xbe ∷ []

-- A buffer that the FPGA manager hands over: the memory from its first byte on, and its size.
pub record Buffer : Type 0 where
  pub mem : ℕ → ℕ
  pub size : ℕ

-- `((const uint32_t *)buf)[k]`.
abbrev pub load_word : Buffer → ℕ → ℕ
load_word b k =
    word_of_bytes (b.mem (4 * k)) (b.mem (4 * k + 1)) (b.mem (4 * k + 2)) (b.mem (4 * k + 3))

-- `time_before64(a, b)`: the difference is negative as a 64-bit signed number.
unfoldable pub time_before64 : ℕ → ℕ → Bool
time_before64 a b = leb (2 ^ 63) ((a + 2 ^ 64 - b) % 2 ^ 64)

abbrev pub Drv : Type 0 → Type 0
Drv = Io Svec

unfoldable pub iowrite32be : ℕ → ℕ → Drv (Unit {0})
iowrite32be value addr s = ret tt (record s { bus = wr addr value ∷ s.bus })

unfoldable pub pause : ℕ → Drv (Unit {0})
pause us s = ret tt (record s { bus = wait us ∷ s.bus })

unfoldable pub set_last : ℕ → ℕ → Drv (Unit {0})
set_last word size s =
    ret tt (record s { bitstream_last_word = word; bitstream_last_word_size = size })

module _ (hw : Hardware) where
  unfoldable pub ioread32be : ℕ → Drv ℕ
  ioread32be addr s = let v = hw.answer s.bus addr in ret v (record s { bus = rd addr v ∷ s.bus })

  unfoldable pub get_jiffies_64 : Drv ℕ
  get_jiffies_64 s = let t = hw.jiffies s.bus % 2 ^ 64 in ret t (record s { bus = clock t ∷ s.bus })

-- The loop of `svec_fpga_reset`.
unfoldable pub unlock : List ℕ → Drv (Unit {0})
unlock [] = pure tt
unlock (b ∷ bs) = do iowrite32be b (svec_base_loader + reg_btrigr); pause 1000; unlock bs

unfoldable pub svec_fpga_reset : Drv Code
svec_fpga_reset = do unlock boot_unlock_sequence; pure ok

-- `strncmp(buf, "SVEC", 4) == 0` on the four bytes of a word in memory.
unfoldable pub is_svec : ℕ → Bool
is_svec w = byte0 w == b'S' && (byte1 w == b'V' && (byte2 w == b'E' && byte3 w == b'C'))

-- The value of R0: `((size - 1) & 0x3) | (is_last ? XLDR_FIFO_R0_XLAST : 0)`.
unfoldable pub fifo_r0 : ℕ → Bool → ℕ
fifo_r0 size is_last = bit_or (bit_and (size - 1) 0x3) (if is_last then fifo_r0_xlast else 0)

module _ (hw : Hardware) where
  unfoldable pub svec_fpga_loader_is_active : Drv Bool
  svec_fpga_loader_is_active = do
    csr ← ioread32be hw (svec_base_loader + reg_csr)
    idc ← ioread32be hw (svec_base_loader + reg_idr)
    pure (is_svec (bswap32 idc))

  -- `do rv = …; while (rv & FULL && --try >= 0)` with `try` at its first argument: the loop reads
  -- at most `try + 1` times.
  unfoldable pub poll_fifo : ℕ → Drv ℕ
  poll_fifo zero = ioread32be hw (svec_base_loader + reg_fifo_csr)
  poll_fifo (suc try) = do
    rv ← ioread32be hw (svec_base_loader + reg_fifo_csr)
    let again = poll_fifo try
    if flag rv fifo_csr_full then again else pure rv

  unfoldable pub svec_fpga_write_word : ℕ → ℕ → Bool → Drv Code
  svec_fpga_write_word word size is_last =
      if (size == 0) || leb 5 size then pure (err einval) else do
        rv ← poll_fifo 10000
        if flag rv fifo_csr_full then pure (err ebusy) else do
          iowrite32be (fifo_r0 size is_last) (svec_base_loader + reg_fifo_r0)
          iowrite32be (bswap32 word) (svec_base_loader + reg_fifo_r1)
          pure ok

  unfoldable pub svec_fpga_write_start : Drv Code
  svec_fpga_write_start = do
    e ← svec_fpga_reset
    elim e [
      | err x ↦ pure (err x)
      | ok ↦ do
        succ ← svec_fpga_loader_is_active
        if not succ then pure (err enxio) else do
          iowrite32be csr_swrst (svec_base_loader + reg_csr)
          iowrite32be (bit_or csr_start csr_msbf) (svec_base_loader + reg_csr)
          pure ok
    ]
