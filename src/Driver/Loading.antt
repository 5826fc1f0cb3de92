-- ===== src/Driver/Loading.antt =====
-- The load of a bitstream as software/kernel/svec-compat.c and `svec_fw_load` of
-- software/kernel/svec-core.c wrap it: the reference, the locks, and the FPGA device before it.
use Prim.Native.String.{String}
use svec.Base.{◌≡◌, refl, inl, inr, ◌⊎◌, true, false, if◌then◌else◌}
use svec.Base.Errors.{Code, Errno, ok, err, enodev}
use svec.Bus.{Io, ret, Returns, returns, bind, pure, ◌>>=◌, ◌>>◌}
use svec.Core.{Svec}
use svec.Fpga.Board.{Board}
use svec.Fpga.Holding.{idle}
use svec.Fpga.Teardown.{svec_fpga_exit_lem}
use svec.Driver.{Ptr, ptr, null, bad, Mgr, Device, Host, or_label, on_svec, on_mgr}
use svec.Driver.Compat.{
  Manager, GetEnd, LockEnd, Documented, load_named, load_locked, load_by, compat_svec_fw_load,
}
use svec.Driver.Firmware.{mutex_lock, mutex_unlock, svec_fw_load}

-- Code on a part of the state changes that part alone.
pub on_mgr-Returns :
    {A : Type 0} {P : A → Mgr → Type 0} (m : Io Mgr A) (d : Device)
    → Returns P (m d.mgr)
    → Returns (λ a d'. (s : Mgr) × P a s × (d' ≡ record d { mgr = s })) (on_mgr m d)
on_mgr-Returns m d p = rw p.returned (returns p.value _ (p.state, p.holds, refl))

pub on_svec-Returns :
    {A : Type 0} {P : A → Svec → Type 0} (m : Io Svec A) (d : Device)
    → Returns P (m d.svec)
    → Returns (λ a d'. (s : Svec) × P a s × (d' ≡ record d { svec = s })) (on_svec m d)
on_svec-Returns m d p = rw p.returned (returns p.value _ (p.state, p.holds, refl))

-- How a load ends: it was not tried, and nothing changed, or it was, and it has changed the part
-- `svec` alone, the way that `P` says.
abbrev pub LoadEnd : (Code → Svec → Type 0) → Device → Code → Device → Type 0
LoadEnd P d c d' =
    ((x : Errno) × (c ≡ err x) × (d' ≡ d)) ⊎ ((s : Svec) × P c s × (d' ≡ record d { svec = s }))

module _ (m : Manager) (doc : Documented m) (fpga_mgr_load : Board → String → Io Svec Code)
    (name : String) (P : Code → Svec → Type 0) where
  load_locked-LoadEnd :
      (d : Device) (s : Mgr)
      → m.fpga_mgr_put s ≡ ret tt d.mgr
      → Returns P (fpga_mgr_load d.fpga name d.svec)
      → Returns (LoadEnd P d) (load_locked m fpga_mgr_load name (record d { mgr = s }))
  unfolding load_locked load_named
  load_locked-LoadEnd d s gives_back loads =
      bind (on_mgr-Returns m.fpga_mgr_lock (record d { mgr = s }) (doc.locks s)) next
    where
      next :
          (e : Code) (d1 : Device)
          → ((s1 : Mgr) × LockEnd m.fpga_mgr_unlock s e s1 × (d1 ≡ record d { mgr = s1 }))
          → Returns (LoadEnd P d) (
              or_label e
                (λ e'. do on_mgr m.fpga_mgr_put; pure e')
                (do
                  e' ← load_named m fpga_mgr_load name
                  on_mgr m.fpga_mgr_unlock
                  on_mgr m.fpga_mgr_put
                  pure e')
                d1)
      next ok d1 (s1, unlocks, e) =
          rw (e, loads.returned, unlocks, gives_back)
            (returns _ _ (inr (loads.state, loads.holds, refl)))
      next (err x) d1 (s1, same, e) = rw (e, same, gives_back) (returns _ _ (inl (x, refl, refl)))

  -- Whatever the kernel answers, if it keeps what it documents of its manager and the load returns,
  -- `compat_svec_fw_load` returns, and the manager is then as before it: each reference and each lock
  -- that it takes is given back, on the error paths too. It returns what the load returns, or an error
  -- of the kernel or ENODEV and has not loaded anything.
  pub compat_svec_fw_load_lem :
      (d : Device)
      → Returns P (fpga_mgr_load d.fpga name d.svec)
      → Returns (LoadEnd P d) (compat_svec_fw_load m fpga_mgr_load name d)
  unfolding compat_svec_fw_load load_by
  compat_svec_fw_load_lem d loads = bind (on_mgr-Returns m.fpga_mgr_get d (doc.gets d.mgr)) next
    where
      next :
          (p : Ptr) (d1 : Device)
          → ((s : Mgr) × GetEnd m.fpga_mgr_put d.mgr p s × (d1 ≡ record d { mgr = s }))
          → Returns (LoadEnd P d) (load_by m fpga_mgr_load p name d1)
      next ptr d1 (s, gives_back, e) = rw e (load_locked-LoadEnd d s gives_back loads)
      next null d1 (s, same, e) = rw (e, same) (returns _ _ (inl (enodev, refl, refl)))
      next (bad x) d1 (s, same, e) = rw (e, same) (returns _ _ (inl (x, refl, refl)))

-- What is left of the FPGA device after `svec_fpga_exit`.
abbrev pub exited : Board → Board
exited b = if b.svec_fpga then idle b.meta b.meta_app b.bus else b

module _ (k : Host) (m : Manager) (doc : Documented m)
    (fpga_mgr_load : Board → String → Io Svec Code) (name : String) (P : Code → Svec → Type 0) where
  -- If `mtx` is free, and the load returns where the FPGA device that the driver referred to is taken
  -- down, `svec_fw_load` never waits for itself and returns, with `mtx` free and the manager as before.
  -- The load finds that device taken down already; nothing else changes but by the load.
  pub svec_fw_load_lem :
      (d : Device)
      → d.mtx ≡ false
      → Returns P (fpga_mgr_load (exited d.fpga) name d.svec)
      → Returns
          (LoadEnd P (record d { fpga = exited d.fpga }))
          (svec_fw_load k m fpga_mgr_load name d)
  unfolding svec_fw_load mutex_lock mutex_unlock
  svec_fw_load_lem d free loads =
      simp (svec_fpga_exit_lem k.kernel k.window k.regs k.version_ignore d.fpga, free)
        (bind (compat_svec_fw_load_lem m doc fpga_mgr_load name P _ loads) next)
    where
      next :
          (e : Code) (d1 : Device)
          → LoadEnd P (record d { fpga = exited d.fpga; mtx = true }) e d1
          → Returns
              (LoadEnd P (record d { fpga = exited d.fpga; mtx = false }))
              ((do mutex_unlock; pure e) d1)
      next e d1 (inl (x, failed, same)) = rw same (returns _ _ (inl (x, failed, refl)))
      next e d1 (inr (s, holds, same)) = rw same (returns _ _ (inr (s, holds, refl)))
