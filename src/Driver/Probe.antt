-- ===== src/Driver/Probe.antt =====
-- `svec_probe` and `svec_remove` of software/kernel/svec-core.c, and the driver's debugfs directory.
use svec.Base.{◌+◌, true, false, not, if◌then◌else◌, []}
use svec.Base.Errors.{Code, ok, err, enomem, eperm}
use svec.Bus.{pure, ◌>>=◌, ◌>>◌}
use svec.Fpga.{Meta}
use svec.Fpga.Lifecycle.{svec_fpga_init, svec_fpga_exit}
use svec.Fpga.Holding.{idle}
use svec.Driver.{Ptr, ptr, ptr_err, Host, Device, Dev, update, or_label, on_fpga}
use svec.Driver.Vme.{svec_vme_init, svec_vme_exit}

abbrev pub zero_meta : Meta
zero_meta = record { vendor = 0; device = 0; version = 0; bom = 0; src = []; cap = 0; uuid = [] }

-- The rest of `svec_dbg_init` after `debugfs_create_dir`.
unfoldable pub dbg_file : Ptr → Code
dbg_file ptr = ok
dbg_file other = ptr_err other

unfoldable pub dbg_from : (dir file : Ptr) → Dev Code
unfolding dbg_file
dbg_from ptr file = do update (λ d. record d { dbg_dir = true }); pure (dbg_file file)
dbg_from other file = pure (ptr_err other)

unfoldable pub svec_dbg_exit : Dev (Unit {0})
svec_dbg_exit = update (λ d. record d { dbg_dir = false })

-- `kfree(svec)` and what stands before it under `err_dev` and `err_name`.
unfoldable pub err_name : Code → Dev Code
err_name e = do
  update (λ d. record d { drvdata = false })
  update (λ d. record d { allocated = false })
  pure e

unfoldable pub err_fpga_new : Code → Dev Code
unfolding err_name
err_fpga_new e = do update (λ d. record d { registered = false }); err_name e

unfoldable pub err_fpga_reg : Code → Dev Code
unfolding err_fpga_new
err_fpga_reg e = do update (λ d. record d { mgr_created = false }); err_fpga_new e

-- `if (err) dev_warn(...)`.
unfoldable pub warn : Code → Dev (Unit {0})
warn ok = pure tt
warn (err x) = update (λ d. record d { leaks = record d.leaks { warnings = d.leaks.warnings + 1 } })

module _ (k : Host) where
  unfoldable pub svec_dbg_init : Dev Code
  svec_dbg_init = dbg_from k.create_dir k.create_file

  -- The structure from `kzalloc` is zero: it refers to no FPGA device, and one that was left allocated
  -- before is lost. The histories of accesses go on.
  unfoldable pub kzalloc_svec : Device → Device
  kzalloc_svec d = record d {
    allocated = true;
    mtx = false;
    fpga = idle zero_meta zero_meta d.fpga.bus;
    svec = record d.svec { bitstream_last_word = 0; bitstream_last_word_size = 0 };
    leaks = record d.leaks { lost = d.leaks.lost + (if d.fpga.allocated then 1 else 0) };
  }

  -- From `svec_vme_init` on.
  unfoldable pub probe_parts : Dev Code
  unfolding err_fpga_new err_fpga_reg warn
  probe_parts = do
    ignored ← svec_vme_init k
    if not k.fpga_mgr_create then err_fpga_new (err eperm) else do
      update (λ d. record d { mgr_created = true })
      or_label k.fpga_mgr_register err_fpga_reg (do
        update (λ d. record d { mgr_registered = true })
        ignored' ← svec_dbg_init
        e ← on_fpga (svec_fpga_init k.kernel k.window k.regs k.version_ignore)
        warn e
        pure ok)

  unfoldable pub svec_probe : Dev Code
  unfolding probe_parts err_name
  svec_probe =
      if not k.has_dev then pure (err eperm) else if not k.kzalloc_ok then pure (err enomem) else do
        update kzalloc_svec
        update (λ d. record d { drvdata = true })
        or_label k.dev_set_name err_name (
            or_label k.device_register err_name
              (do update (λ d. record d { registered = true }); probe_parts))

  unfoldable pub svec_remove : Dev Code
  svec_remove = do
    ignored ← on_fpga (svec_fpga_exit k.kernel k.window k.regs k.version_ignore)
    svec_dbg_exit
    update (λ d. record d { mgr_registered = false })
    update (λ d. record d { mgr_created = false })
    ignored' ← svec_vme_exit k
    update (λ d. record d { registered = false })
    update (λ d. record d { allocated = false })
    update (λ d. record d { drvdata = false })
    pure ok
