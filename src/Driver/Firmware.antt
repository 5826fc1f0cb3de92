-- ===== src/Driver/Firmware.antt =====
-- Reprogramming a card, in software/kernel/svec-core.c: the attribute `firmware_name`.
use Prim.Native.String.{String}
use svec.Base.{ℕ, true, false, if◌then◌else◌, ◌⊎◌, inl, inr}
use svec.Base.Errors.{Code, Errno, ok, err}
use svec.Bus.{Io, fault, pure, ◌>>=◌, ◌>>◌}
use svec.Fpga.Board.{Board}
use svec.Core.{Svec}
use svec.Fpga.Lifecycle.{svec_fpga_exit}
use svec.Driver.{Host, Dev, update, get_dev, or_label, on_fpga}
use svec.Driver.Compat.{Manager, compat_svec_fw_load}

-- A thread that locks `mtx` twice would wait for itself for ever: that is a fault of the model.
unfoldable pub mutex_lock : Dev (Unit {0})
mutex_lock = do d ← get_dev; if d.mtx then fault else update (λ d. record d { mtx = true })

unfoldable pub mutex_unlock : Dev (Unit {0})
mutex_unlock = update (λ d. record d { mtx = false })

-- `err ? err : count`.
abbrev pub err_or_count : Code → ℕ → Errno ⊎ ℕ
err_or_count ok count = inr count
err_or_count (err e) count = inl e

module _ (k : Host) (m : Manager) (fpga_mgr_load : Board → String → Io Svec Code) where
  unfoldable pub svec_fw_load : String → Dev Code
  unfolding mutex_lock mutex_unlock
  svec_fw_load name = do
    e ← on_fpga (svec_fpga_exit k.kernel k.window k.regs k.version_ignore)
    or_label e (λ e'. pure e')
        (do mutex_lock; e' ← compat_svec_fw_load m fpga_mgr_load name; mutex_unlock; pure e')

  -- `vme_unregister_device` is the VME bus driver's.
  unfoldable pub firmware_name_store :
      (vme_unregister_device : Dev (Unit {0})) → (buf : String) (count : ℕ) → Dev (Errno ⊎ ℕ)
  unfolding svec_fw_load
  firmware_name_store vme_unregister_device buf count = do
    e ← svec_fw_load buf
    if k.device_remove_file_self then vme_unregister_device else pure tt
    pure (err_or_count e count)
