-- ===== src/Fpga/BuildInfo.antt =====
-- The build information as the kernel's debugfs file shows it (software/kernel/svec-core-fpga.c) and
-- as the tool prints it (software/tools/svec-firmware-version.c).
use svec.Base.{
  arith, ℕ, zero, suc, ◌+◌, ◌-◌, ◌/◌, ◌≡◌, refl, sym, ap, List, [], ◌++◌, map, Bool, true,
  Bool-cases, inl, inr, if◌then◌else◌, flag, bswap32,
}
use svec.Bus.{Hardware, History, Returns, returns, bind}
use svec.Text.{chr}
use svec.Fpga.{RegMap, svec_meta_cap_bld}
use svec.Fpga.Board.{Board}
use svec.Fpga.Attributes.{word_chars, bld_info_loop, svec_fpga_dbg_bld_info}
use svec.Version.{info_chars}

module _ (hw : Hardware) (regs : RegMap) (raw : ℕ → ℕ)
    (keeps : (h : History) (a : ℕ) → hw.answer h a ≡ bswap32 (raw a)) where
  abbrev next_chars : List ℕ × Bool → List ℕ → List ℕ
  next_chars (cs, ended) rest = if ended then cs else cs ++ rest

  info_chars-next :
      (n off : ℕ)
      → info_chars raw (suc n) off
        ≡ next_chars (word_chars (bswap32 (raw off))) (info_chars raw n (off + 4))
  unfolding info_chars word_chars
  info_chars-next n off = ground arith

  bld_info_loop-info_chars :
      (n off : ℕ) (b : Board)
      → Returns (λ cs b'. cs ≡ info_chars raw n off) (bld_info_loop hw regs n off b)
  unfolding bld_info_loop info_chars
  bld_info_loop-info_chars zero off b = returns [] b refl
  bld_info_loop-info_chars (suc n) off b =
      let text : info_chars raw (suc n) off
          ≡ next_chars (word_chars (hw.answer b.bus off)) (info_chars raw n (off + 4)) =
        rw (keeps b.bus off) (info_chars-next n off) in
      elim (Bool-cases (word_chars (hw.answer b.bus off)).1) [
        | inl ended ↦ rw ended (returns _ _ (sym (rw ended at text)))
        | inr more ↦ rw more (
            bind (bld_info_loop-info_chars n (off + 4) _)
              (λ rest b' e. returns _ b' (rw e (sym (rw more at text)))))
      ]

  -- On a card with build information, if the registers keep their values, the file `build_info` shows
  -- exactly the characters that the tool prints of the same words, before it indents the lines.
  pub svec_fpga_dbg_bld_info_lem :
      (b : Board)
      → flag b.meta.cap svec_meta_cap_bld ≡ true
      → Returns
          (λ out b'.
            out ≡ map chr (info_chars raw ((regs.buildinfo_size - 1 + 3) / 4) regs.buildinfo))
          (svec_fpga_dbg_bld_info hw regs b)
  unfolding svec_fpga_dbg_bld_info
  svec_fpga_dbg_bld_info_lem b available = rw available (
      bind (bld_info_loop-info_chars ((regs.buildinfo_size - 1 + 3) / 4) regs.buildinfo b)
        (λ cs b' e. returns _ b' (ap (map chr) e)))
