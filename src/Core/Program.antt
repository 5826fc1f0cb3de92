-- ===== src/Core/Program.antt =====
-- `svec_fpga_write_stop`, `svec_fpga_write_buf` and the operations of `svec_fpga_ops` in
-- software/kernel/svec-core.c.
use svec.Base.{
  ℕ, zero, suc, ◌+◌, ◌-◌, ◌/◌, ◌%◌, ◌^◌, Bool, true, false, not, ◌==◌, ltb, if◌then◌else◌, flag,
}
use svec.Base.Errors.{Code, ok, err, einval, eio}
use svec.Bus.{Hardware, ret, out_of_fuel, pure, ◌>>=◌, ◌>>◌}
use svec.Loader.{csr_done, csr_error, csr_exit, reg_csr}
use svec.Core.{
  Buffer, load_word, time_before64, Drv, iowrite32be, ioread32be, pause, set_last, get_jiffies_64,
  svec_base_loader, u32_minus_one, svec_fpga_write_word, svec_fpga_write_start,
}

-- `if (err == -EINVAL) err = 0;`
unfoldable pub forgive_einval : Code → Code
forgive_einval (err einval) = ok
forgive_einval c = c

-- The verdict on the last value of CSR that the loop saw.
unfoldable pub csr_verdict : ℕ → Code
csr_verdict rval =
    if flag rval csr_error then err einval else if flag rval csr_done then ok else err eio

-- `out:` gives the VME bus to the Application FPGA.
unfoldable pub release : Code → Drv Code
release e = do iowrite32be csr_exit (svec_base_loader + reg_csr); pause 10000; pure e

module _ (hw : Hardware) where
  -- `while (time_before64(get_jiffies_64(), timeout))`, on fuel.
  unfoldable pub wait_done : ℕ → ℕ → ℕ → Drv ℕ
  wait_done zero timeout rval = out_of_fuel
  wait_done (suc fuel) timeout rval = do
    now ← get_jiffies_64 hw
    if not (time_before64 now timeout) then pure rval else do
      rv ← ioread32be hw (svec_base_loader + reg_csr)
      if flag rv csr_done then pure rv else do pause 900; wait_done fuel timeout rv

  -- From `if (err) goto out;` to the end of `svec_fpga_write_stop`.
  unfoldable pub after_last_word : ℕ → ℕ → Code → Drv Code
  after_last_word fuel config_complete_timeout_us (err x) = release (err x)
  after_last_word fuel config_complete_timeout_us ok = do
    set_last u32_minus_one u32_minus_one
    now ← get_jiffies_64 hw
    let us = if config_complete_timeout_us == 0 then 100 else config_complete_timeout_us
    rval ← wait_done fuel ((now + hw.usecs_to_jiffies us) % 2 ^ 64) 0
    release (csr_verdict rval)

  unfoldable pub svec_fpga_write_stop : ℕ → ℕ → Drv Code
  svec_fpga_write_stop fuel config_complete_timeout_us s =
      (do
        e ← svec_fpga_write_word hw s.bitstream_last_word s.bitstream_last_word_size true
        after_last_word fuel config_complete_timeout_us (forgive_einval e))
        s

  -- A failure that ends the loop: any but EINVAL in the first round.
  unfoldable pub fatal : Code → ℕ → Bool
  fatal ok i = false
  fatal (err einval) i = not (i == 0)
  fatal (err x) i = true

  -- `while (i < size)`, on fuel.
  unfoldable pub write_loop : ℕ → Buffer → ℕ → Drv Code
  unfolding fatal
  write_loop zero b i = λ s. if ltb i b.size then out_of_fuel s else ret ok s
  write_loop (suc fuel) b i =
      if ltb i b.size
      then (λ s.
          (do
            e ← svec_fpga_write_word hw s.bitstream_last_word s.bitstream_last_word_size false
            if fatal e i then pure e else do
              let n = if ltb 4 (b.size - i) then 4 else b.size - i
              set_last (load_word b (i / 4)) n
              write_loop fuel b (i + n))
            s)
      else pure ok

  -- The loop advances in each round, so `size` rounds are enough.
  unfoldable pub svec_fpga_write_buf : Buffer → Drv Code
  unfolding write_loop
  svec_fpga_write_buf b = write_loop b.size b 0

  unfoldable pub svec_fpga_write_init : Drv Code
  svec_fpga_write_init = do set_last u32_minus_one u32_minus_one; svec_fpga_write_start hw

  unfoldable pub svec_fpga_write : Buffer → Drv Code
  svec_fpga_write b = svec_fpga_write_buf b

  unfoldable pub svec_fpga_write_complete : ℕ → ℕ → Drv Code
  svec_fpga_write_complete fuel us = svec_fpga_write_stop fuel us
