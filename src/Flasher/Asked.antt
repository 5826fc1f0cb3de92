-- ===== src/Flasher/Asked.antt =====
-- What the arguments of software/tools/vme-flasher/svec-flasher.c ask for, and the card that it finds.
use Prim.Native.String.{String}
use svec.Base.{
  ℕ, ◌+◌, ◌*◌, ◌^◌, ◌≡◌, refl, true, false, List, bswap32, word_of_bytes, ◌%◌, [], ◌∷◌, ◌≢◌, inl,
  inr, Bool-cases,
}
use text.Mathlib.Text.{◌==◌ as str_eq}
use text.Mathlib.TextEquality.{eq_iff}
use svec.Bus.{wr, History, Hardware, Returns, returns}
use svec.Loader.{reg_idr}
use svec.VmeBus.{Mapping}
use svec.Flasher.{csr_writel, csr_readl, store, load, write_seq, enter_bootloader}
use svec.Flasher.Spi.{spi}
use svec.Flasher.Main.{Mode, direct, to_flash, mode_of}

-- The eight writes that make the System FPGA enter the bootloader, the newest first.
abbrev pub triggered : History → History
triggered h =
    wr 0x4 0xbe
    ∷ wr 0x4 0xba
    ∷ wr 0x4 0xfe
    ∷ wr 0x4 0xca
    ∷ wr 0x4 0xef
    ∷ wr 0x4 0xbe
    ∷ wr 0x4 0xad
    ∷ wr 0x4 0xde
    ∷ h

-- The bootloader answers with "SVEC" right after the trigger sequence.
abbrev pub Responds : Hardware → Type 0
Responds hw = (h : History) → hw.answer (triggered h) reg_idr ≡ 0x53564543

-- The trigger sequence makes no SPI transaction.
pub enter_bootloader-spi :
    (hw : Hardware) (h : History)
    → Responds hw
    → Returns (λ v h'. spi h' ≡ spi h) (enter_bootloader hw h)
unfolding enter_bootloader write_seq csr_writel csr_readl store load spi bswap32 word_of_bytes
enter_bootloader-spi hw h responds = rw (responds h) (returns _ _ refl)

-- The mode that the arguments ask for: the flash, with `-b` the bootloader itself, with `-f` the
-- Application FPGA without the flash. Any other option is the flash too.
pub data Asks : List String → Mode → Type 0 where
  to_the_flash : (name slot file : String) → Asks (name ∷ slot ∷ file ∷ []) (to_flash false)
  the_bootloader :
      (name slot file : String) (rest : List String)
      → Asks (name ∷ slot ∷ file ∷ "-b" ∷ rest) (to_flash true)
  to_the_fpga :
      (name slot file : String) (rest : List String)
      → Asks (name ∷ slot ∷ file ∷ "-f" ∷ rest) direct
  another_option :
      (name slot file opt : String) (rest : List String)
      → opt ≢ "-b"
      → opt ≢ "-f"
      → Asks (name ∷ slot ∷ file ∷ opt ∷ rest) (to_flash false)

str_eq-false : (s t : String) → s ≢ t → str_eq s t ≡ false
str_eq-false s t other = elim (Bool-cases (str_eq s t)) [
  | inl e ↦ absurd (other ((eq_iff s t).0 e))
  | inr e ↦ e
]

pub mode_of-Asks : (argv : List String) (mode : Mode) → Asks argv mode → mode_of argv ≡ mode
unfolding mode_of
mode_of-Asks _ _ (to_the_flash name slot file) = refl
mode_of-Asks _ _ (the_bootloader name slot file rest) = refl
mode_of-Asks _ _ (to_the_fpga name slot file rest) = refl
mode_of-Asks _ _ (another_option name slot file opt rest other other') =
    rw (str_eq-false opt "-b" other, str_eq-false opt "-f" other') refl

-- The part of the CR/CSR space of a slot that belongs to the bootloader: 0x1000 bytes at 0x70000.
abbrev pub bootloader_window : ℕ → Mapping
bootloader_window slot = record {
  window_num = 0;
  user_va = 0;
  fd = 0;
  data_width = 32;
  am = 0x2f;
  read_prefetch_enabled = 0;
  read_prefetch_size = 0;
  bcast_select = 0;
  pci_addrl = 0;
  sizeu = 0;
  sizel = 0x1000;
  vme_addru = 0;
  vme_addrl = (slot * 0x80000 + 0x70000) % 2 ^ 32;
}
