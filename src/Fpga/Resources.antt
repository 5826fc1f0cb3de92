-- ===== src/Fpga/Resources.antt =====
-- The tables of software/kernel/svec-core-fpga.c: the resources of the devices that the driver makes,
-- the partitions of the flash, and what is filled in for a card.
use Prim.Native.String.{String}
use svec.Base.{ℕ, zero, suc, ◌+◌, ◌-◌, ◌*◌, Bool, List, [], ◌∷◌, if◌then◌else◌, Option, some, none}
use svec.Fpga.{RegMap}

-- `struct resource`: a range of memory, an interrupt, or an entry that is still zero.
pub data Resource : Type 0 where
  mem irq : (start end : ℕ) → Resource
  zeroed : Resource

-- The fields of `struct mfd_cell` that differ; only the first `num_resources` resources count.
pub record Cell : Type 0 where
  pub name : String
  pub num_resources : ℕ
  pub resources : List Resource

-- `struct fmc_slot_info`.
pub record Slot : Type 0 where
  pub i2c_bus_nr : ℕ
  pub ga : ℕ
  pub lun : ℕ

-- `enum svec_fpga_irq_lines`.
abbrev pub irq_fmc_i2c : ℕ
irq_fmc_i2c = 0

abbrev pub irq_spi : ℕ
irq_spi = 1

module _ (regs : RegMap) where
  unfoldable pub svec_fpga_vic_res : List Resource
  svec_fpga_vic_res = mem regs.vic regs.vic ∷ irq 0 0 ∷ []

  unfoldable pub svec_fpga_fmc_i2c_res : List Resource
  svec_fpga_fmc_i2c_res =
      mem regs.fmc_i2c (regs.fmc_i2c + regs.fmc_i2c_size - 1) ∷ irq irq_fmc_i2c irq_fmc_i2c ∷ []

  unfoldable pub svec_fpga_spi_res : List Resource
  svec_fpga_spi_res =
      mem regs.flash_spi (regs.flash_spi + regs.flash_spi_size - 1) ∷ irq irq_spi irq_spi ∷ []

  -- `svec_fpga_mfd_devs` at SVEC_FPGA_MFD_FMC_I2C and SVEC_FPGA_MFD_SPI.
  unfoldable pub mfd_fmc_i2c : Cell
  unfolding svec_fpga_fmc_i2c_res
  mfd_fmc_i2c = record { name = "i2c-ohwr"; num_resources = 2; resources = svec_fpga_fmc_i2c_res }

  unfoldable pub mfd_spi : Cell
  unfolding svec_fpga_spi_res
  mfd_spi = record { name = "spi-ocores"; num_resources = 2; resources = svec_fpga_spi_res }

-- The interrupt controller's resources are moved into the card's window and get its interrupt.
unfoldable pub fill_vic : (vme_start vme_irq : ℕ) → List Resource → List Resource
fill_vic vme_start vme_irq (mem s e ∷ irq i j ∷ rest) =
    mem (s + vme_start) (e + vme_start) ∷ irq vme_irq vme_irq ∷ rest
fill_vic vme_start vme_irq other = other

-- The cells that `svec_fpga_devices_init` adds: the SPI master only with its capability, and no
-- interrupts without a domain for them.
unfoldable pub mfd_cells : RegMap → (has_spi has_domain : Bool) → List Cell
unfolding mfd_fmc_i2c mfd_spi
mfd_cells regs has_spi has_domain =
    let n = if has_domain then 2 else 1 in
    record (mfd_fmc_i2c regs) { num_resources = n }
    ∷ (if has_spi then record (mfd_spi regs) { num_resources = n } ∷ [] else [])

abbrev pub app_irq_base : ℕ
app_irq_base = 6

abbrev pub app_res_irq_n : ℕ
app_res_irq_n = 32 - app_irq_base

-- The loop of `svec_fpga_app_init_res_irq`: the entries left, and the next interrupt of the
-- controller. An entry's end stays zero.
unfoldable pub app_irqs : (irq_find_mapping : ℕ → ℕ) → ℕ → ℕ → List Resource
app_irqs irq_find_mapping zero hwirq = []
app_irqs irq_find_mapping (suc n) hwirq =
    irq (irq_find_mapping hwirq) 0 ∷ app_irqs irq_find_mapping n (hwirq + 1)

abbrev pub zeros : ℕ → List Resource
zeros zero = []
zeros (suc n) = zeroed ∷ zeros n

-- The resources of the application: the rest of the window from its offset on, and its interrupts.
unfoldable pub app_resources :
    (vme_start vme_end app_offset : ℕ)
    → (has_vic : Bool) → (irq_find_mapping : ℕ → ℕ) → List Resource
unfolding app_irqs
app_resources vme_start vme_end app_offset has_vic irq_find_mapping =
    mem (vme_start + app_offset) vme_end
    ∷ (if has_vic
        then app_irqs irq_find_mapping app_res_irq_n app_irq_base
        else zeros app_res_irq_n)

-- `struct mtd_partition`: `none` is MTDPART_OFS_APPEND or MTDPART_SIZ_FULL.
pub record Partition : Type 0 where
  pub name : String
  pub offset : Option ℕ
  pub size : Option ℕ

abbrev pub sz_1m : ℕ
sz_1m = 0x100000

abbrev pub svec_flash_parts : List Partition
svec_flash_parts =
    record { name = "SFPGA"; offset = some 0; size = some sz_1m }
    ∷ record { name = "AFPGA"; offset = some 0x100000; size = some (5 * sz_1m) }
    ∷ record { name = "AFPGA_DATA"; offset = none; size = none }
    ∷ []
