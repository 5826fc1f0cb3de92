-- ===== src/Driver/Compat.antt =====
-- software/kernel/svec-compat.c: the reference to the FPGA manager and its lock around a load. The
-- kernel's operations on its manager are a parameter; before the kernel 4.10 `fpga_mgr_get` is the
-- driver's own.
use Prim.Native.String.{String}
use svec.Base.{◌+◌, ◌-◌, Bool, true, false, not, if◌then◌else◌, ◌≡◌}
use svec.Base.Errors.{Code, Errno, ok, err, enodev, ebusy}
use svec.Bus.{Io, ret, Returns, pure, ◌>>=◌, ◌>>◌}
use svec.Fpga.Board.{Board}
use svec.Core.{Svec}
use svec.Driver.{Ptr, ptr, null, bad, Mgr, Dev, get_dev, on_svec, on_mgr, or_label}

-- The kernel's operations on the manager.
pub record Manager : Type 0 where
  pub fpga_mgr_get : Io Mgr Ptr
  pub fpga_mgr_lock : Io Mgr Code
  pub fpga_mgr_unlock : Io Mgr (Unit {0})
  pub fpga_mgr_put : Io Mgr (Unit {0})

-- A reference is given back by `fpga_mgr_put`; without one nothing is held.
abbrev pub GetEnd : Io Mgr (Unit {0}) → Mgr → Ptr → Mgr → Type 0
GetEnd put s ptr s' = put s' ≡ ret tt s
GetEnd put s null s' = s' ≡ s
GetEnd put s (bad e) s' = s' ≡ s

abbrev pub LockEnd : Io Mgr (Unit {0}) → Mgr → Code → Mgr → Type 0
LockEnd unlock s ok s' = unlock s' ≡ ret tt s
LockEnd unlock s (err e) s' = s' ≡ s

-- What the kernel documents of them.
pub record Documented (m : Manager) : Type 0 where
  pub gets : (s : Mgr) → Returns (GetEnd m.fpga_mgr_put s) (m.fpga_mgr_get s)
  pub locks : (s : Mgr) → Returns (LockEnd m.fpga_mgr_unlock s) (m.fpga_mgr_lock s)

-- What the kernel answers before 4.10: the class has the device, it is a manager's, and its module
-- is still there.
pub record Class : Type 0 where
  pub class_find_device : Bool
  pub to_fpga_manager : Bool
  pub try_module_get : Bool

module _ (c : Class) where
  abbrev update_mgr : (Mgr → Mgr) → Io Mgr (Unit {0})
  update_mgr f s = ret tt (f s)

  -- `put_device(dev)` and the return.
  unfoldable pub err_dev : Errno → Io Mgr Ptr
  err_dev e = do update_mgr (λ s. record s { refs = s.refs - 1 }); pure (bad e)

  -- From the taken mutex on, with `err_ll_mod`.
  unfoldable pub get_module : Io Mgr Ptr
  unfolding err_dev
  get_module =
      if not c.try_module_get
      then (do update_mgr (λ s. record s { ref_mutex = false }); err_dev enodev)
      else (do update_mgr (λ s. record s { module_refs = s.module_refs + 1 }); pure ptr)

  -- `__fpga_mgr_get`.
  unfoldable pub fpga_mgr_get_dev : Io Mgr Ptr
  unfolding err_dev get_module
  fpga_mgr_get_dev s =
      if not c.to_fpga_manager
      then err_dev enodev s
      else if s.ref_mutex
      then err_dev ebusy s
      else get_module (record s { ref_mutex = true })

  unfoldable pub fpga_mgr_get : Io Mgr Ptr
  unfolding fpga_mgr_get_dev
  fpga_mgr_get =
      if not c.class_find_device
      then pure (bad enodev)
      else do update_mgr (λ s. record s { refs = s.refs + 1 }); fpga_mgr_get_dev

module _ (m : Manager) (fpga_mgr_load : Board → String → Io Svec Code) where
  -- `fpga_mgr_load` is the kernel's, down to the driver's own operations on the loader. What it does can
  -- depend on the FPGA device that the driver has at that time.
  --
  -- `__compat_svec_fw_load`: the image information is zero but for the name and the device.
  unfoldable pub load_named : String → Dev Code
  load_named name = do d ← get_dev; on_svec (fpga_mgr_load d.fpga name)

  -- From a pointer that is neither null nor an error on.
  unfoldable pub load_locked : String → Dev Code
  unfolding load_named
  load_locked name = do
    e ← on_mgr m.fpga_mgr_lock
    or_label e (λ e'. do on_mgr m.fpga_mgr_put; pure e')
        (do e' ← load_named name; on_mgr m.fpga_mgr_unlock; on_mgr m.fpga_mgr_put; pure e')

  unfoldable pub load_by : Ptr → String → Dev Code
  unfolding load_locked
  load_by ptr name = load_locked name
  load_by null name = pure (err enodev)
  load_by (bad e) name = pure (err e)

  unfoldable pub compat_svec_fw_load : String → Dev Code
  unfolding load_by
  compat_svec_fw_load name = do p ← on_mgr m.fpga_mgr_get; load_by p name
