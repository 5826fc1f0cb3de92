-- ===== src/Driver/Vme.antt =====
-- The VME interface of a card, in software/kernel/svec-core.c: its interrupt's level and vector.
use svec.Base.{ℕ, ◌-◌, ◌%◌, ◌^◌, true, false}
use svec.Base.Errors.{Code, ok}
use svec.Bus.{pure, ◌>>=◌, ◌>>◌}
use svec.Core.{iowrite32be}
use svec.Driver.{Host, Dev, update, or_label, on_svec}

abbrev pub svec_user_csr_int_level : ℕ
svec_user_csr_int_level = 0x7ff5b

abbrev pub svec_user_csr_int_vector : ℕ
svec_user_csr_int_vector = 0x7ff5f

-- The value is an `u8`.
unfoldable pub svec_csr_write : (value offset : ℕ) → Dev (Unit {0})
svec_csr_write value offset = on_svec (iowrite32be (value % 2 ^ 8) (offset - offset % 4))

module _ (k : Host) where
  -- The kernel's functions: the device is disabled or enabled if they return zero.
  abbrev pub disabling : Dev Code
  disabling =
      or_label k.vme_disable_device (λ e. pure e)
        (do update (λ d. record d { enabled = false }); pure ok)

  abbrev pub enabling : Dev Code
  enabling =
      or_label k.vme_enable_device (λ e. pure e)
        (do update (λ d. record d { enabled = true }); pure ok)

  unfoldable pub svec_vme_init : Dev Code
  unfolding svec_csr_write
  svec_vme_init = do
    e ← disabling
    or_label e (λ e'. pure e')
        (do
          svec_csr_write k.irq_vector svec_user_csr_int_vector
          svec_csr_write k.irq_level svec_user_csr_int_level
          enabling)

  unfoldable pub svec_vme_exit : Dev Code
  unfolding svec_csr_write
  svec_vme_exit = do
    e ← disabling
    or_label e (λ e'. pure e') (do svec_csr_write 0x0 svec_user_csr_int_vector; enabling)
