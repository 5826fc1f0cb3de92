-- ===== src/Driver/Success.antt =====
-- A write of `firmware_name` (software/kernel/svec-core.c) that nothing stands in the way of.
use Prim.Native.String.{String}
use svec.Base.{subst, ◌⊎◌, ℕ, suc, ◌*◌, ◌^◌, ◌≤◌, ◌<◌, ◌≡◌, ◌≢◌, refl, true, false, List, []}
use svec.Base.Errors.{Code, Errno, ok}
use svec.Base.{inr}
use svec.Bus.{Io, ret, Hardware, KeepsTime, Returns, returns, bind, pure, ◌>>=◌}
use svec.Fpga.Board.{Board}
use svec.Core.{Svec, Buffer}
use svec.Core.Stop.{patience}
use svec.Core.Manager.{load_image}
use svec.Core.Image.{image, AllBytes, ImageEnd}
use svec.Core.Polling.{Serves}
use svec.Core.Serving.{load_image-Serves}
use svec.Fpga.Teardown.{svec_fpga_exit_lem}
use svec.Driver.{ptr, Mgr, Device, Host, Dev}
use svec.Driver.Compat.{Manager, load_named, load_locked, load_by, compat_svec_fw_load}
use svec.Driver.Probe.{svec_remove}
use svec.Driver.Firmware.{mutex_lock, mutex_unlock, svec_fw_load, firmware_name_store}
use svec.Driver.Loading.{exited}
use svec.Driver.States.{IsVacant, IsPresent}
use svec.Driver.Interface.{Extended, exit_writes}
use svec.Driver.Gone.{GoneFrom}
use svec.Driver.Reprogram.{GoneFrom-then, LoadedWith, LoadedWith-at, unregister-IsVacant}

-- The manager is there and free: the reference and the lock are given, and can be given back.
pub record Grants (m : Manager) (s : Mgr) : Type 0 where
  pub taken : Mgr
  pub locked : Mgr
  pub gets : m.fpga_mgr_get s ≡ ret ptr taken
  pub locks : m.fpga_mgr_lock taken ≡ ret ok locked
  pub unlocks : m.fpga_mgr_unlock locked ≡ ret tt taken
  pub puts : m.fpga_mgr_put taken ≡ ret tt s

module _ (k : Host) (m : Manager) (fpga_mgr_load : Board → String → Io Svec Code) (name : String)
    (P : Code → Svec → Type 0) (d : Device) (grants : Grants m d.mgr) (free : d.mtx ≡ false)
    (loads : Returns P (fpga_mgr_load (exited d.fpga) name d.svec)) where
  -- The load is tried, and its result is returned.
  fw_load-runs :
      Returns
        (λ c d'. (s : Svec) × P c s × (d' ≡ record d { fpga = exited d.fpga; svec = s }))
        (svec_fw_load k m fpga_mgr_load name d)
  unfolding svec_fw_load mutex_lock mutex_unlock compat_svec_fw_load load_by load_locked load_named
  fw_load-runs =
      simp
        (
          svec_fpga_exit_lem k.kernel k.window k.regs k.version_ignore d.fpga,
          free,
          grants.gets,
          grants.locks,
          grants.unlocks,
          grants.puts,
          loads.returned,
        )
        (returns _ _ (loads.state, loads.holds, refl))

-- The count, with the state `s` that the load has left, what the remove has added, and nothing held.
abbrev pub SuccessEnd : Mgr → (Svec → Type 0) → (count : ℕ) → Device → Errno ⊎ ℕ → Device → Type 0
SuccessEnd mgr Q count d r d' =
    (r ≡ inr count)
    × ((s : Svec) × Q s × Extended exit_writes s d'.svec)
    × IsVacant mgr d'
    × GoneFrom d d'

module _ (k : Host) (m : Manager) (vme_unregister_device : Dev (Unit {0}))
    (unregisters : (d : Device)
      → vme_unregister_device d ≡ (do ignored ← svec_remove k; pure tt) d) where
  store-runs :
      (fpga_mgr_load : Board → String → Io Svec Code) (k0 : Host) (mgr : Mgr) (Q : Svec → Type 0)
      (buf : String) (count : ℕ) (d : Device)
      → IsPresent k0 mgr d
      → Grants m d.mgr
      → k.device_remove_file_self ≡ true
      → Returns (λ c s. (c ≡ ok) × Q s) (fpga_mgr_load (exited d.fpga) buf d.svec)
      → Returns
          (SuccessEnd mgr Q count d)
          (firmware_name_store k m fpga_mgr_load vme_unregister_device buf count d)
  unfolding firmware_name_store
  store-runs fpga_mgr_load k0 mgr Q buf count d is_present grants removes loads =
      let P : Code → Svec → Type 0 = λ c s. (c ≡ ok) × Q s in
      bind (fw_load-runs k m fpga_mgr_load buf P d grants (λ i. (is_present.1 i).mtx) loads)
        (λ c d1 (s, (fine, holds), same).
          simp (removes, fine)
            (bind
              (unregister-IsVacant k vme_unregister_device unregisters mgr d1
                (loaded c d1 s fine holds same).0)
              (λ u d2 (vacant, gone', more).
                let (reloaded, gone, at) = loaded c d1 s fine holds same in
                returns _ _ (
                  refl,
                  (s, holds, subst (λ z. Extended exit_writes z d2.svec) at more),
                  vacant,
                  GoneFrom-then d d1 d2 gone gone',
                ))))
    where
      loaded :
          (c : Code) (d1 : Device) (s : Svec)
          → c ≡ ok
          → Q s
          → d1 ≡ record d { fpga = exited d.fpga; svec = s }
          → LoadedWith mgr d s d1
      loaded c d1 s fine holds same = LoadedWith-at k0 mgr d d1 s is_present same

  -- On a card whose FIFO has room after at most 10000 reads and that is done, without an error, after
  -- at most `polls` rounds of the wait, which fit into the default time limit, with a clock that runs
  -- and an FPGA manager that is there and free: a write of `firmware_name` on a device that the driver
  -- runs returns the count. The loader has then taken in exactly the bytes of the file, at most the
  -- accesses of `svec_vme_exit` follow on its own, and nothing is held for the VME device, nor for an
  -- FPGA device whose setting up had not failed before.
  pub firmware_name_store-Serves :
      (hw : Hardware) (polls : ℕ) (serves : Serves hw 0 polls) {period : ℕ}
      (time : KeepsTime hw period) (fuel : ℕ)
      → polls ≤ fuel
      → patience hw 0 < 2 ^ 62
      → patience hw 0 * period < 900 * fuel
      → (k0 : Host) (mgr : Mgr) (file : String → List Buffer) (buf : String) (count : ℕ)
        (d : Device)
      → AllBytes (file buf)
      → image (file buf) ≢ []
      → IsPresent k0 mgr d
      → Grants m d.mgr
      → k.device_remove_file_self ≡ true
      → Returns (SuccessEnd mgr (ImageEnd hw d.svec (image (file buf)) ok) count d) (
          firmware_name_store k m
            (λ b name. load_image hw (suc fuel) 0 (file name))
            vme_unregister_device
            buf
            count
            d)
  firmware_name_store-Serves hw polls serves time fuel some_fuel small enough k0 mgr file buf count
        d bytes some_bytes is_present grants removes =
      store-runs (λ b name. load_image hw (suc fuel) 0 (file name)) k0 mgr
        (ImageEnd hw d.svec (image (file buf)) ok) buf count d is_present grants removes
        (load_image-Serves hw 0 polls serves time fuel some_fuel small enough (file buf) d.svec
          bytes some_bytes)
