-- ===== src/Driver/Reprogram.antt =====
-- The attribute `firmware_name` of software/kernel/svec-core.c: a card that is reprogrammed, down to
-- what its loader takes in.
use Prim.Native.String.{String}
use svec.Base.{
  ℕ, suc, ◌*◌, ◌^◌, ◌<◌, ◌≡◌, ◌≢◌, refl, sym, ◌∙◌, subst, inl, inr, ◌⊎◌, Bool, false, Bool-cases,
  List, [], if◌then◌else◌,
}
use svec.Base.Errors.{Code, Errno, ok, err}
use svec.Bus.{Io, Hardware, KeepsTime, Returns, returns, bind, weaken, pure, ◌>>=◌, ◌>>◌}
use svec.Core.{Svec, Buffer}
use svec.Core.Stop.{patience}
use svec.Core.Manager.{load_image}
use svec.Core.Image.{image, AllBytes, ImageEnd, load_image-ImageEnd}
use svec.Fpga.Board.{Board}
use svec.Driver.{Mgr, Device, Host, Dev}
use svec.Driver.Compat.{Manager, Documented}
use svec.Driver.Probe.{svec_remove}
use svec.Driver.Firmware.{err_or_count, firmware_name_store}
use svec.Driver.Loading.{LoadEnd, exited, svec_fw_load_lem}
use svec.Driver.Interface.{Extended, exit_writes}
use svec.Driver.States.{present, Unreferenced, IsVacant, IsPresent}
use svec.Driver.Ends.{svec_remove_lem}
use svec.Driver.Gone.{Gone, GoneFrom, Gone-Unreferenced, Gone-then, exited-Gone}

-- What `svec_remove` leaves of a device that the driver runs.
abbrev pub RemoveEnd : Mgr → Device → Device → Type 0
RemoveEnd mgr d d' = IsVacant mgr d' × GoneFrom d d' × Extended exit_writes d.svec d'.svec

-- `svec_remove` on a device that the driver runs returns zero, and nothing is held for the VME device
-- after it. Nothing of the FPGA device is held either, unless the driver did not refer to one because
-- its setting up failed before: then what was left of that is left still. Nothing else is lost.
pub svec_remove-IsPresent :
    (k k0 : Host) (mgr : Mgr) (d : Device)
    → IsPresent k0 mgr d
    → Returns (λ c d'. (c ≡ ok) × RemoveEnd mgr d d') (svec_remove k d)
svec_remove-IsPresent k k0 mgr d (dbg, e, fpga) =
    weaken (svec_remove_lem k d) (λ c d' (returned, e', more).
      let same : d'.mgr ≡ mgr = (λ i. (e' i).mgr) ∙ (λ i. (e i).mgr) in
      let free : d'.mtx ≡ false = (λ i. (e' i).mtx) ∙ (λ i. (e i).mtx) in
      let left : Gone d.fpga d'.fpga =
        subst (Gone d.fpga) (λ i. (sym e' i).fpga) (exited-Gone k0 d.fpga fpga) in
      (
        returned,
        (
          (
            (λ i. record (e' i) { fpga = d'.fpga; mgr = same i; mtx = free i; leaks = d'.leaks }),
            Gone-Unreferenced d.fpga d'.fpga left,
          ),
          (left, λ i. (e' i).leaks),
          more,
        ),
      ))

exited-null : (b : Board) → (exited b).svec_fpga ≡ false
exited-null b = elim (Bool-cases b.svec_fpga) [ inl e ↦ simp e refl | inr e ↦ simp e refl ]

-- The driver runs the VME device, and nothing refers to an FPGA device.
abbrev pub Reloaded : Mgr → Device → Type 0
Reloaded mgr d =
    (dbg : Bool) × (d ≡ present dbg d.enabled mgr d.fpga d.svec d.leaks) × Unreferenced d.fpga

-- After the load, with `s` as the state of the loader's accesses.
abbrev pub LoadedWith : Mgr → Device → Svec → Device → Type 0
LoadedWith mgr d s d' = Reloaded mgr d' × GoneFrom d d' × (d'.svec ≡ s)

-- What the result says of the load: `P` is how the load itself ends. If it was not tried, the loader's
-- accesses are those of before.
abbrev pub Loaded : (Code → Svec → Type 0) → (count : ℕ) → Svec → Errno ⊎ ℕ → Svec → Type 0
Loaded P count s0 (inr n) s = (n ≡ count) × P ok s
Loaded P count s0 (inl x) s = (s ≡ s0) ⊎ P (err x) s

pub LoadedWith-at :
    (k : Host) (mgr : Mgr) (d d' : Device) (s : Svec)
    → IsPresent k mgr d
    → d' ≡ record d { fpga = exited d.fpga; svec = s }
    → LoadedWith mgr d s d'
LoadedWith-at k mgr d d' s (dbg, e, fpga) same =
    let left = exited-Gone k d.fpga fpga in
    subst (LoadedWith mgr d s) (sym same) (
      (dbg, (λ i. record (e i) { fpga = exited d.fpga; svec = s }), Gone-Unreferenced _ _ left),
      (left, refl),
      refl,
    )

LoadEnd-LoadedWith :
    (k : Host) (mgr : Mgr) (P : Code → Svec → Type 0) (count : ℕ) (c : Code) (d d' : Device)
    → IsPresent k mgr d
    → LoadEnd P (record d { fpga = exited d.fpga }) c d'
    → (s : Svec) × Loaded P count d.svec (err_or_count c count) s × LoadedWith mgr d s d'
LoadEnd-LoadedWith k mgr P count c d d' is_present (inl (x, failed, same)) =
    (d.svec, rw failed (inl refl), LoadedWith-at k mgr d d' d.svec is_present same)
LoadEnd-LoadedWith k mgr P count c d d' is_present (inr (s, holds, same)) =
    (s, loaded c holds, LoadedWith-at k mgr d d' s is_present same)
  where
    loaded : (c : Code) → P c s → Loaded P count d.svec (err_or_count c count) s
    loaded ok p = (refl, p)
    loaded (err x) p = inr p

-- After a load that has left the accesses `s`, the driver instance removes itself, with the accesses of
-- `svec_vme_exit` at most, and nothing is held for the VME device afterwards.
abbrev pub Left : Host → Mgr → Svec → Device → Type 0
Left k mgr s d' =
    if k.device_remove_file_self
    then IsVacant mgr d' × Extended exit_writes s d'.svec
    else Reloaded mgr d' × (d'.svec ≡ s)

abbrev pub StoreEnd :
    Host → Mgr → (Code → Svec → Type 0) → (count : ℕ) → Device → Errno ⊎ ℕ → Device → Type 0
StoreEnd k mgr P count d r d' =
    ((s : Svec) × Loaded P count d.svec r s × Left k mgr s d') × GoneFrom d d'

module _ (k : Host) (vme_unregister_device : Dev (Unit {0}))
    (unregisters : (d : Device)
      → vme_unregister_device d ≡ (do ignored ← svec_remove k; pure tt) d) where
  pub unregister-IsVacant :
      (mgr : Mgr) (d : Device)
      → Reloaded mgr d
      → Returns (λ u d'. RemoveEnd mgr d d') (vme_unregister_device d)
  unregister-IsVacant mgr d (dbg, e, rest) =
      rw (unregisters d)
        (bind (svec_remove-IsPresent k k mgr d (dbg, e, inr rest)) (λ c d' p. returns _ _ p.1))

pub GoneFrom-then : (d d1 d2 : Device) → GoneFrom d d1 → GoneFrom d1 d2 → GoneFrom d d2
GoneFrom-then d d1 d2 (p, e) (q, e') = (Gone-then d.fpga d1.fpga d2.fpga p q, e' ∙ e)

module _ (k : Host) (m : Manager) (doc : Documented m)
    (fpga_mgr_load : Board → String → Io Svec Code) (vme_unregister_device : Dev (Unit {0}))
    (unregisters : (d : Device)
      → vme_unregister_device d ≡ (do ignored ← svec_remove k; pure tt) d) where
  -- If the VME bus driver's `vme_unregister_device` calls the driver's remove, and the load returns,
  -- a write of `firmware_name` on a device that the driver runs returns. It returns the count only if
  -- the load succeeded. If the attribute can remove itself, nothing is held for the VME device after
  -- it, and otherwise the driver runs it still, without an FPGA device, and its mutex and its FPGA
  -- manager are as before.
  pub firmware_name_store_lem :
      (k0 : Host) (mgr : Mgr) (P : Code → Svec → Type 0) (buf : String) (count : ℕ) (d : Device)
      → IsPresent k0 mgr d
      → Returns P (fpga_mgr_load (exited d.fpga) buf d.svec)
      → Returns
          (StoreEnd k mgr P count d)
          (firmware_name_store k m fpga_mgr_load vme_unregister_device buf count d)
  unfolding firmware_name_store
  firmware_name_store_lem k0 mgr P buf count d is_present loads =
      bind (svec_fw_load_lem k m doc fpga_mgr_load buf P d (λ i. (is_present.1 i).mtx) loads) next
    where
      next :
          (e : Code) (d1 : Device)
          → LoadEnd P (record d { fpga = exited d.fpga }) e d1
          → Returns (StoreEnd k mgr P count d) (
              (do
                if k.device_remove_file_self then vme_unregister_device else pure tt
                pure (err_or_count e count))
                d1)
      next e d1 p =
          let (s, loaded, (reloaded, gone, same)) =
            LoadEnd-LoadedWith k0 mgr P count e d d1 is_present p in
          elim (Bool-cases k.device_remove_file_self) [
            | inr stays ↦ rw stays (returns _ _ ((s, loaded, (reloaded, same)), gone))
            | inl removes ↦ rw removes (
                bind (unregister-IsVacant k vme_unregister_device unregisters mgr d1 reloaded)
                  (λ u d2 (vacant, gone', more). returns _ _ (
                    (s, loaded, (vacant, subst (λ z. Extended exit_writes z d2.svec) same more)),
                    GoneFrom-then d d1 d2 gone gone',
                  )))
          ]

  -- The same with the bitstream of a file, which, while the driver refers to no FPGA device, the FPGA
  -- manager hands to the driver's own operations
  -- in any cut into buffers, on a card and a clock that runs. A write of `firmware_name` on a device that
  -- the driver runs then returns. It returns the count only if the loader has taken in exactly the bytes
  -- of the file, with the last entry alone marked as the last, and reported DONE without ERROR; it
  -- returns an error only if the load was not tried, and the loader's accesses are those of before, or if
  -- the load has ended with that error. At most the accesses of `svec_vme_exit` follow. If the attribute
  -- can remove itself, nothing is held for the VME device then, and otherwise the driver runs it without
  -- an FPGA device. Nothing is left of an FPGA device whose setting up had not failed before.
  pub firmware_name_store-load_image :
      (hw : Hardware) {period : ℕ} (time : KeepsTime hw period) (fuel : ℕ)
      → patience hw 0 < 2 ^ 62
      → patience hw 0 * period < 900 * fuel
      → (k0 : Host) (mgr : Mgr) (file : String → List Buffer) (buf : String) (count : ℕ)
        (d : Device)
      → ((b : Board) (name : String)
          → b.svec_fpga ≡ false
          → fpga_mgr_load b name ≡ load_image hw (suc fuel) 0 (file name))
      → AllBytes (file buf)
      → image (file buf) ≢ []
      → IsPresent k0 mgr d
      → Returns
          (StoreEnd k mgr (ImageEnd hw d.svec (image (file buf))) count d)
          (firmware_name_store k m fpga_mgr_load vme_unregister_device buf count d)
  firmware_name_store-load_image hw time fuel small enough k0 mgr file buf count d loader bytes
        some_bytes is_present =
      firmware_name_store_lem k0 mgr (ImageEnd hw d.svec (image (file buf))) buf count d is_present
        (rw (loader (exited d.fpga) buf (exited-null d.fpga))
          (load_image-ImageEnd hw time fuel 0 small enough (file buf) d.svec bytes some_bytes))
