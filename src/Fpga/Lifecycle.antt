-- ===== src/Fpga/Lifecycle.antt =====
-- `svec_fpga_init` and `svec_fpga_exit` of software/kernel/svec-core-fpga.c.
use svec.Base.{Bool, true, false, not, if◌then◌else◌}
use svec.Base.Errors.{Code, ok, err, einval, enomem}
use svec.Bus.{Hardware, pure, ◌>>=◌, ◌>>◌}
use svec.Fpga.{RegMap, svec_fpga_is_valid}
use svec.Fpga.Board.{Kernel, Drv, change, get, or_goto, svec_fpga_metadata_get}
use svec.Fpga.Parts.{
  svec_fpga_dbg_init, svec_fpga_dbg_exit, svec_fpga_vic_init, svec_fpga_vic_exit,
  svec_fpga_devices_init, svec_fpga_devices_exit, svec_fmc_init, svec_fmc_exit, svec_fpga_app_init,
  svec_fpga_app_exit,
}

-- `kfree(svec_fpga)` and what follows it under `err_map`.
unfoldable pub err_map : Code → Drv Code
err_map e = do
  change (λ b. record b { allocated = false })
  change (λ b. record b { svec_fpga = false })
  pure e

unfoldable pub err_valid : Code → Drv Code
unfolding err_map
err_valid e = do change (λ b. record b { mapped = false }); err_map e

unfoldable pub err_vic : Code → Drv Code
err_vic e = pure e

module _ (k : Kernel) where
  unfoldable pub err_devs : Code → Drv Code
  unfolding err_vic
  err_devs e = do svec_fpga_vic_exit k; err_vic e

  unfoldable pub err_fmc : Code → Drv Code
  unfolding err_devs
  err_fmc e = do svec_fpga_devices_exit k; err_devs e

  unfoldable pub err_app : Code → Drv Code
  unfolding err_fmc
  err_app e = do svec_fmc_exit k; err_fmc e

  -- `svec_fpga_exit` from a pointer that is not null to `kfree(svec_fpga)`.
  unfoldable pub take_down : Drv (Unit {0})
  take_down = do
    svec_fpga_app_exit k
    svec_fmc_exit k
    svec_fpga_devices_exit k
    svec_fpga_vic_exit k
    svec_fpga_dbg_exit k
    change (λ b. record b { registered = false })
    change (λ b. record b { mapped = false })
    change (λ b. record b { allocated = false })

module _ (k : Kernel) (hw : Hardware) (regs : RegMap) (version_ignore : Bool) where
  -- From `device_register` on.
  unfoldable pub init_parts : Drv Code
  unfolding err_vic err_devs err_fmc err_app
  init_parts = do
    change (λ b. record b { registered = true })
    ignored ← svec_fpga_dbg_init k
    e ← svec_fpga_vic_init k regs
    or_goto e err_vic (do
      e ← svec_fpga_devices_init k regs
      or_goto e (err_devs k) (do
        e ← svec_fmc_init k
        or_goto e (err_fmc k) (do
          e ← svec_fpga_app_init k hw regs
          or_goto e (err_app k) (do change (λ b. record b { svec_fpga = true }); pure ok))))

  unfoldable pub svec_fpga_init : Drv Code
  unfolding init_parts err_valid err_map
  svec_fpga_init =
      if not k.resource_is_mem
      then pure (err einval)
      else if not k.kzalloc_ok
      then pure (err enomem)
      else do
        change (λ b. record b { allocated = true })
        if not k.ioremap_ok then err_map (err enomem) else do
          change (λ b. record b { mapped = true })
          m ← svec_fpga_metadata_get hw regs regs.metadata
          change (λ b. record b { meta = m })
          if not (svec_fpga_is_valid version_ignore regs.version_bld m)
              then err_valid (err einval)
              else or_goto k.dev_set_name err_valid (or_goto k.device_register err_valid init_parts)

  unfoldable pub svec_fpga_exit : Drv Code
  unfolding take_down
  svec_fpga_exit = do
    b ← get
    if not b.svec_fpga
        then pure ok
        else do take_down k; change (λ b. record b { svec_fpga = false }); pure ok
