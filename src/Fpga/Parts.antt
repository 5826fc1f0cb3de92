-- ===== src/Fpga/Parts.antt =====
-- The parts that `svec_fpga_init` sets up and `svec_fpga_exit` takes down, in
-- software/kernel/svec-core-fpga.c: debugfs, the interrupt controller, the multi-function devices,
-- the FMC carrier and the application. The debugfs code is that for kernels from 5.6 on.
use svec.Base.{
  ℕ, zero, suc, ◌+◌, true, false, not, ◌==◌, if◌then◌else◌, flag, bswap32, List, [], ◌∷◌, true,
  false, Option, some, none,
}
use svec.Base.Errors.{Code, ok, err, enodev, enomem}
use svec.Bus.{Hardware, fault, pure, ◌>>=◌, ◌>>◌}
use svec.Fpga.{RegMap, svec_fmc_slots, svec_meta_cap_vic, svec_meta_cap_spi}
use mathlib.Core.Option
use svec.Fpga.Resources.{Resource, Slot, svec_fpga_vic_res, fill_vic, mfd_cells, app_resources}
use svec.Fpga.App.{app_name, app_name_max}
use svec.Fpga.I2c.{svec_i2c_get_bus}
use svec.Fpga.Board.{
  Kernel, Drv, change, get, or_goto, ioread32be, csr_app_off, svec_fpga_metadata_get,
  svec_fpga_app_restart,
}

-- The resources that `svec_fpga_app_init` fills in; the interrupts only if there is a controller.
unfoldable pub app_res : Kernel → (app_offset : ℕ) → Option (List Resource) → List Resource
app_res k app_offset none = app_resources k.vme_start k.vme_end app_offset false k.irq_find_mapping
app_res k app_offset (some res) =
    app_resources k.vme_start k.vme_end app_offset true k.irq_find_mapping

module _ (k : Kernel) where
  unfoldable pub svec_fpga_dbg_exit : Drv (Unit {0})
  svec_fpga_dbg_exit = change (λ b. record b { dbg_dir = false })

  unfoldable pub svec_fpga_dbg_init : Drv Code
  unfolding svec_fpga_dbg_exit
  svec_fpga_dbg_init =
      or_goto k.create_dir (λ e. pure e)
        (do
          change (λ b. record b { dbg_dir = true })
          or_goto k.create_file (λ e. do svec_fpga_dbg_exit; pure e) (pure ok))

  unfoldable pub svec_fpga_vic_init : RegMap → Drv Code
  svec_fpga_vic_init regs = do
    b ← get
    if not (flag b.meta.cap svec_meta_cap_vic)
        then pure ok
        else or_goto k.register_vic (λ e. pure e)
            (do
              let res = fill_vic k.vme_start k.vme_irq (svec_fpga_vic_res regs)
              change (λ b. record b { vic_pdev = some res })
              pure ok)

  unfoldable pub svec_fpga_vic_exit : Drv (Unit {0})
  svec_fpga_vic_exit = do
    b ← get
    elim b.vic_pdev [ some res ↦ change (λ b. record b { vic_pdev = none }) | none ↦ pure tt ]

  -- The domain is looked up through `vic_pdev`: without one the code follows a null pointer.
  unfoldable pub svec_fpga_devices_init : RegMap → Drv Code
  svec_fpga_devices_init regs = do
    b ← get
    if not k.devm_kzalloc_ok then pure (err enomem) else elim b.vic_pdev [
      | none ↦ fault
      | some res ↦
          or_goto k.mfd_add_devices (λ e. pure e)
            (do
              let cells = mfd_cells regs (flag b.meta.cap svec_meta_cap_spi) k.vic_domain_found
              change (λ b. record b { mfd = cells })
              pure ok)
    ]

  unfoldable pub svec_fpga_devices_exit : Drv (Unit {0})
  svec_fpga_devices_exit = change (λ b. record b { mfd = [] })

  -- The loop of `svec_fmc_init`: the slots left, and the next slot.
  unfoldable pub fill_slots : ℕ → ℕ → Option (List Slot)
  fill_slots zero i = some []
  fill_slots (suc n) i =
      let nr = svec_i2c_get_bus k.i2c_for_each_dev k.fpga_dev i in
      if nr == 0
      then none
      else Option.map (λ rest. record { i2c_bus_nr = nr; ga = i; lun = i + 1 } ∷ rest)
          (fill_slots n (i + 1))

  -- The rest of `svec_fmc_init`: `none` if a slot has no bus.
  unfoldable pub register_slots : Option (List Slot) → Drv Code
  register_slots none = pure (err enodev)
  register_slots (some slots) =
      or_goto k.fmc_carrier_register (λ e. pure e)
        (do change (λ b. record b { fmc_carrier = slots }); pure ok)

  unfoldable pub svec_fmc_init : Drv Code
  svec_fmc_init = register_slots (fill_slots svec_fmc_slots 0)

  unfoldable pub svec_fmc_exit : Drv (Unit {0})
  svec_fmc_exit = change (λ b. record b { fmc_carrier = [] })

  unfoldable pub svec_fpga_app_exit : Drv (Unit {0})
  svec_fpga_app_exit = do
    b ← get
    elim b.app_pdev [ some res ↦ change (λ b. record b { app_pdev = none }) | none ↦ pure tt ]

  module _ (hw : Hardware) (regs : RegMap) where
    -- `svec_fpga_app_id_build`: the little-endian read swaps the bytes of the register. The name stays
    -- empty on an error.
    unfoldable pub svec_fpga_app_id_build : (app_offset size : ℕ) → Drv (Code × List ℕ)
    svec_fpga_app_id_build app_offset size = do
      vendor ← ioread32be hw regs (app_offset + 0x00)
      device ← ioread32be hw regs (app_offset + 0x04)
      if bswap32 vendor == 0xff000000
          then pure (err enodev, [])
          else pure (ok, app_name size (bswap32 vendor) (bswap32 device))

    unfoldable pub svec_fpga_app_init : Drv Code
    unfolding svec_fpga_app_id_build
    svec_fpga_app_init = do
      app_offset ← ioread32be hw regs (regs.csr + csr_app_off)
      if not k.kcalloc_ok then pure (err enomem) else if app_offset == 0 then pure ok else do
        m ← svec_fpga_metadata_get hw regs app_offset
        change (λ b. record b { meta_app = m })
        id ← svec_fpga_app_id_build app_offset app_name_max
        or_goto id.0 (λ e'. pure e')
            (do
              svec_fpga_app_restart hw regs
              or_goto k.register_app (λ e'. pure e')
                  (do
                    b ← get
                    change (λ b. record b {
                      app_pdev =
                          some
                            (record { name = id.1; resources = app_res k app_offset b.vic_pdev });
                    })
                    pure ok))
