-- ===== src/Core/Start.antt =====
-- `svec_fpga_write_init` of software/kernel/svec-core.c: reset, check of the loader, start.
use svec.Base.{
  ℕ, ◌+◌, ◌≡◌, refl, inl, inr, true, false, List, [], ◌∷◌, Bool-cases, bswap32, flag, bit_or,
}
use svec.Base.Errors.{Code, ok, err, enxio}
use svec.Bus.{rd, wr, wait, History, Hardware, Returns, returns}
use svec.Loader.{csr_start, csr_msbf, csr_swrst, reg_csr, reg_btrigr, reg_idr}
use svec.Loader.Intake.{intake, write_csr}
use svec.Core.{
  Svec, svec_base_loader, boot_unlock_sequence, iowrite32be, ioread32be, pause, set_last, unlock,
  svec_fpga_reset, is_svec, svec_fpga_loader_is_active, svec_fpga_write_start,
}
use svec.Core.Program.{svec_fpga_write_init}
use svec.Core.Word.{taken}
use svec.Core.Stream.{Fresh}

-- A history followed by the writes of a trigger sequence, a millisecond apart.
abbrev pub triggered : List ℕ → History → History
triggered [] h = h
triggered (b ∷ bs) h = triggered bs (wait 1000 ∷ wr (svec_base_loader + reg_btrigr) b ∷ h)

-- The history after the two reads of `svec_fpga_loader_is_active`.
abbrev pub probed : Hardware → History → History
probed hw h =
    let h0 = triggered boot_unlock_sequence h in
    let h1 = rd (svec_base_loader + reg_csr) (hw.answer h0 (svec_base_loader + reg_csr)) ∷ h0 in
    rd (svec_base_loader + reg_idr) (hw.answer h1 (svec_base_loader + reg_idr)) ∷ h1

-- The identification that the loader gives after the trigger sequence.
abbrev pub identity : Hardware → History → ℕ
identity hw h =
    let h0 = triggered boot_unlock_sequence h in
    let h1 = rd (svec_base_loader + reg_csr) (hw.answer h0 (svec_base_loader + reg_csr)) ∷ h0 in
    hw.answer h1 (svec_base_loader + reg_idr)

abbrev pub InitEnd : Hardware → Svec → Code → Svec → Type 0
InitEnd hw s ok s' =
    (is_svec (bswap32 (identity hw s.bus)) ≡ true)
    × (s'.bus
        ≡ wr (svec_base_loader + reg_csr) (bit_or csr_start csr_msbf)
          ∷ wr (svec_base_loader + reg_csr) csr_swrst
          ∷ probed hw s.bus)
    × Fresh s'
InitEnd hw s (err enxio) s' =
    (is_svec (bswap32 (identity hw s.bus)) ≡ false)
    × (s'.bus ≡ probed hw s.bus)
    × (taken s'.bus ≡ taken s.bus)
InitEnd hw s _ s' = ⊥

-- The operation `write_init` returns on every card. It writes the trigger sequence in order, and
-- reads CSR and IDR. If IDR spells "SVEC" it resets the core, then starts it most significant byte
-- first, and returns zero with no word held back and an empty bitstream open. Otherwise it returns
-- ENXIO, having written nothing else, so that the core has taken in what it had before.
pub svec_fpga_write_init_lem :
    (hw : Hardware) (s : Svec) → Returns (InitEnd hw s) (svec_fpga_write_init hw s)
unfolding svec_fpga_write_init svec_fpga_write_start svec_fpga_reset unlock
    svec_fpga_loader_is_active ioread32be iowrite32be pause set_last intake write_csr flag
svec_fpga_write_init_lem hw s = elim (Bool-cases (is_svec (bswap32 (identity hw s.bus)))) [
  | inl yes_svec ↦
      rw yes_svec (returns _ _ (yes_svec, refl, record { no_word = refl; nothing = refl }))
  | inr no_svec ↦ rw no_svec (returns _ _ (no_svec, refl, refl))
]
