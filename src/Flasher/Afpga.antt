-- ===== src/Flasher/Afpga.antt =====
-- `program_afpga` of software/tools/vme-flasher/svec-flasher.c, which loads a bitstream straight
-- into the Application FPGA.
use svec.Base.{
  ℕ, zero, suc, ◌+◌, ◌-◌, not, if◌then◌else◌, ltb, flag, word_of_bytes, bswap32, bit_or,
}
use svec.Base.Errors.{Code, ok, err, eperm}
use svec.Bus.{Hardware, out_of_fuel, pure, ◌>>=◌, ◌>>◌}
use svec.Loader.{
  csr_swrst, csr_start, csr_msbf, csr_done, csr_error, csr_exit, fifo_csr_full, fifo_r0_xlast,
  reg_csr, reg_fifo_csr, reg_fifo_r0, reg_fifo_r1,
}
use svec.Core.{Buffer}
use svec.Flasher.{Proc, csr_writel, csr_readl}

-- `*(uint32_t *)(buf + i)`.
abbrev pub load_at : Buffer → ℕ → ℕ
load_at b i = word_of_bytes (b.mem i) (b.mem (i + 1)) (b.mem (i + 2)) (b.mem (i + 3))

-- `size_t n = (size-i>4?4:size-i)`.
abbrev pub entry_size_at : Buffer → ℕ → ℕ
entry_size_at b i = if ltb 4 (b.size - i) then 4 else b.size - i

-- `(n - 1) | ((n<4) ? SXLDR_FIFO_R0_XLAST : 0)`.
unfoldable pub afpga_r0 : ℕ → ℕ
afpga_r0 n = bit_or (n - 1) (if ltb n 4 then fifo_r0_xlast else 0)

module _ (hw : Hardware) where
  -- `while(i < size)`, on fuel: a round that finds the FIFO full only reads.
  unfoldable pub send_loop : ℕ → Buffer → ℕ → Proc (Unit {0})
  send_loop zero b i = if ltb i b.size then out_of_fuel else pure tt
  send_loop (suc fuel) b i = if not (ltb i b.size) then pure tt else do
    r ← csr_readl hw reg_fifo_csr
    let again = send_loop fuel b i
    if flag r fifo_csr_full then again else do
      let n = entry_size_at b i
      csr_writel (afpga_r0 n) reg_fifo_r0
      csr_writel (bswap32 (load_at b i)) reg_fifo_r1
      send_loop fuel b (i + n)

  -- `while(1)`, on fuel.
  unfoldable pub done_loop : ℕ → Proc Code
  done_loop zero = out_of_fuel
  done_loop (suc fuel) = do
    rval ← csr_readl hw reg_csr
    let again = done_loop fuel
    if not (flag rval csr_done)
        then again
        else do csr_writel csr_exit reg_csr; pure (if flag rval csr_error then err eperm else ok)

  unfoldable pub program_afpga : ℕ → Buffer → Proc Code
  program_afpga fuel b = do
    csr_writel csr_swrst reg_csr
    csr_writel (bit_or csr_start csr_msbf) reg_csr
    send_loop fuel b 0
    done_loop fuel
