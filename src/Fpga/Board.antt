-- ===== src/Fpga/Board.antt =====
-- The state of one card's driver in software/kernel/svec-core-fpga.c, what the kernel answers it, and
-- the reads and writes of the FPGA's registers. What the driver holds is the state.
use svec.Base.{
  ℕ, zero, suc, ◌+◌, ◌^◌, Bool, true, false, List, [], ◌∷◌, if◌then◌else◌, bit_and, bit_or, Option,
}
use svec.Base.Errors.{Code, ok, err}
use svec.Bus.{rd, wr, wait, History, Hardware, Io, ret, pure, ◌>>=◌, ◌>>◌}
use svec.Fpga.{RegMap, Meta, meta_words, meta_of_words}
use svec.Fpga.Resources.{Resource, Cell, Slot}
use svec.Fpga.App.{AppDevice}
use svec.Fpga.I2c.{ForEach}

-- What the kernel answers.
pub record Kernel : Type 0 where
  -- the VME resource of the function is memory
  pub resource_is_mem : Bool
  pub kzalloc_ok : Bool
  pub ioremap_ok : Bool
  pub dev_set_name : Code
  pub device_register : Code
  -- of `debugfs_create_dir` and `debugfs_create_file`
  pub create_dir : Code
  pub create_file : Code
  pub register_vic : Code
  pub devm_kzalloc_ok : Bool
  pub vic_domain_found : Bool
  pub mfd_add_devices : Code
  -- the walk over the I2C devices, and the card's device as that walk sees it
  pub i2c_for_each_dev : ForEach
  pub fpga_dev : ℕ
  pub fmc_carrier_register : Code
  pub kcalloc_ok : Bool
  pub register_app : Code
  -- the ends of the function's VME window, the card's interrupt, and the interrupts of the domain
  pub vme_start : ℕ
  pub vme_end : ℕ
  pub vme_irq : ℕ
  pub irq_find_mapping : ℕ → ℕ

-- What the driver holds for one card.
pub record Board : Type 0 where
  -- `svec_dev->svec_fpga` is set
  pub svec_fpga : Bool
  pub allocated : Bool
  pub mapped : Bool
  pub registered : Bool
  pub dbg_dir : Bool
  -- the devices, with their resources
  pub vic_pdev : Option (List Resource)
  pub mfd : List Cell
  -- the slots that the FMC carrier is registered with
  pub fmc_carrier : List Slot
  pub app_pdev : Option AppDevice
  pub meta : Meta
  pub meta_app : Meta
  pub bus : History

abbrev pub Drv : Type 0 → Type 0
Drv = Io Board

abbrev pub change : (Board → Board) → Drv (Unit {0})
change f b = ret tt (f b)

abbrev pub get : Drv Board
get b = ret b b

abbrev pub iowrite32be : ℕ → ℕ → Drv (Unit {0})
iowrite32be value addr = change (λ b. record b { bus = wr addr value ∷ b.bus })

-- `if (err) goto label;`
abbrev pub or_goto : Code → (Code → Drv Code) → Drv Code → Drv Code
or_goto ok label k = k
or_goto (err x) label k = label (err x)

abbrev pub csr_app_off : ℕ
csr_app_off = 0x00

abbrev pub csr_resets : ℕ
csr_resets = 0x04

abbrev pub csr_resets_app : ℕ
csr_resets_app = 2 ^ 1

-- `resets & ~SVEC_FPGA_CSR_RESETS_APP`.
abbrev pub not_resets_app : ℕ
not_resets_app = 0xfffffffd

module _ (hw : Hardware) (regs : RegMap) where
  abbrev pub ioread32be : ℕ → Drv ℕ
  ioread32be addr b = let v = hw.answer b.bus addr in ret v (record b { bus = rd addr v ∷ b.bus })

  -- The loop of `svec_fpga_metadata_get`: the words left, and the offset of the next.
  unfoldable pub metadata_loop : ℕ → ℕ → Drv (List ℕ)
  metadata_loop zero at = pure []
  metadata_loop (suc n) at = do w ← ioread32be at; ws ← metadata_loop n (at + 4); pure (w ∷ ws)

  unfoldable pub svec_fpga_metadata_get : ℕ → Drv Meta
  svec_fpga_metadata_get fpga = do ws ← metadata_loop meta_words fpga; pure (meta_of_words ws)

  unfoldable pub svec_fpga_app_reset : Bool → Drv (Unit {0})
  svec_fpga_app_reset val = do
    resets ← ioread32be (regs.csr + csr_resets)
    iowrite32be (if val then bit_or resets csr_resets_app else bit_and resets not_resets_app)
        (regs.csr + csr_resets)

  unfoldable pub svec_fpga_app_restart : Drv (Unit {0})
  svec_fpga_app_restart = do
    svec_fpga_app_reset true
    change (λ b. record b { bus = wait 1 ∷ b.bus })
    svec_fpga_app_reset false
    change (λ b. record b { bus = wait 1 ∷ b.bus })
