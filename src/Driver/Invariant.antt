-- ===== src/Driver/Invariant.antt =====
-- The states that the board driver of software/kernel/svec-core.c can be in, whatever the kernel
-- answers: the bus probes a device that the driver does not hold, and removes one that it holds, and a
-- user writes to `firmware_name` in between.
use Prim.Native.String.{String}
use svec.Base.{arith, ℕ, ◌≡◌, sym, ◌∙◌, subst, inl, inr, ◌⊎◌, true, false, Bool-cases}
use svec.Base.Errors.{Code, Errno, ok, err}
use svec.Bus.{Io, Run, ret, Returns, Returns-ret, pure, ◌>>=◌}
use svec.Fpga.Board.{Board}
use svec.Core.{Svec}
use svec.Fpga.Holding.{Ends}
use svec.Driver.{Mgr, Device, Host, Dev}
use svec.Driver.Compat.{Manager, Documented}
use svec.Driver.Probe.{svec_probe, svec_remove}
use svec.Driver.Firmware.{firmware_name_store}
use svec.Driver.States.{IsVacant, IsPresent, ProbeEnd, Balanced}
use svec.Driver.Ends.{Oops, svec_probe_lem}
use svec.Driver.Loading.{exited}
use svec.Driver.Gone.{GoneFrom-Balanced}
use svec.Driver.Reprogram.{StoreEnd, Reloaded, svec_remove-IsPresent, firmware_name_store_lem}

-- A call that returns, from one state to another. Each has answers of the kernel of its own.
pub data Step : Device → Device → Type 0 where
  probed :
      (k : Host) (d d' : Device) (c : Code)
      → d.allocated ≡ false
      → svec_probe k d ≡ ret c d'
      → Step d d'
  removed :
      (k : Host) (d d' : Device) (c : Code)
      → d.allocated ≡ true
      → svec_remove k d ≡ ret c d'
      → Step d d'
  stored :
      (k : Host) (m : Manager) (doc : Documented m) (load : Board → String → Io Svec Code)
      (unregister : Dev (Unit {0})) (buf : String) (count : ℕ) (d d' : Device) (r : Errno ⊎ ℕ)
      → ((e : Device) → unregister e ≡ (do ignored ← svec_remove k; pure tt) e)
      → Returns (λ c s. Unit {0}) (load (exited d.fpga) buf d.svec)
      → d.allocated ≡ true
      → firmware_name_store k m load unregister buf count d ≡ ret r d'
      → Step d d'

pub data Reaches : Device → Device → Type 0 where
  here : (d : Device) → Reaches d d
  after : (d d1 d2 : Device) → Reaches d d1 → Step d1 d2 → Reaches d d2

-- Either nothing is held for the VME device, or the driver runs it; `mtx` is free and the FPGA manager
-- has the references that it had at first.
abbrev pub Sound : Mgr → Device → Type 0
Sound mgr d = IsVacant mgr d ⊎ ((k : Host) × IsPresent k mgr d)

-- Sound, and since `d0` each FPGA device that is not released comes with a warning.
abbrev pub SoundFrom : Mgr → Device → Device → Type 0
SoundFrom mgr d0 d = Sound mgr d × Balanced d0 d

pub Balanced-then : (d d1 d2 : Device) → Balanced d d1 → Balanced d1 d2 → Balanced d d2
Balanced-then d d1 d2 p q = omega (arith, p, q)

probe-SoundFrom :
    (k : Host) (mgr : Mgr) (d0 : Device) (c : Code) (d : Device)
    → ProbeEnd k mgr d0 c d
    → SoundFrom mgr d0 d
probe-SoundFrom k mgr d0 ok d (p, few) = (inr (k, p), few)
probe-SoundFrom k mgr d0 (err x) d (p, few) = (inl p, few)

-- From what holds at the end of a run to what holds where the run returned.
Ends-at :
    {S A : Type 0} (Q : A → S → Type 0) (F : S → Type 0) (r : Run S A) (a : A) (s : S)
    → Ends Q F r
    → r ≡ ret a s
    → Q a s
Ends-at Q F r a s p e = subst (Ends Q F) e p

module _ (mgr : Mgr) where
  Sound-IsVacant : (d : Device) → Sound mgr d → d.allocated ≡ false → IsVacant mgr d
  Sound-IsVacant d (inl p) off = p
  Sound-IsVacant d (inr (k, (dbg, e, fpga))) off =
      let no : true ≡ false = sym (λ i. (e i).allocated) ∙ off in absurd (ground (arith, no))

  Sound-IsPresent : (d : Device) → Sound mgr d → d.allocated ≡ true → (k : Host) × IsPresent k mgr d
  Sound-IsPresent d (inr p) on = p
  Sound-IsPresent d (inl (e, rest)) on =
      let no : true ≡ false = sym on ∙ (λ i. (e i).allocated) in absurd (ground (arith, no))

  probed-SoundFrom :
      (k : Host) (d d' : Device) (c : Code)
      → IsVacant mgr d
      → svec_probe k d ≡ ret c d'
      → SoundFrom mgr d d'
  probed-SoundFrom k d d' c (e, rest) called = probe-SoundFrom k mgr d c d' (
      Ends-at (ProbeEnd k mgr d) Oops _ c d'
        (subst (λ z. Ends (ProbeEnd k mgr z) Oops (svec_probe k z)) (sym e)
          (svec_probe_lem k d.enabled mgr d.fpga d.svec d.leaks rest))
        called)

  store-Sound :
      (k : Host) (count : ℕ) (P : Code → Svec → Type 0) (d : Device) (r : Errno ⊎ ℕ) (d' : Device)
      → StoreEnd k mgr P count d r d'
      → SoundFrom mgr d d'
  store-Sound k count P d r d' ((s, loaded, p), gone) =
      let few = GoneFrom-Balanced d d' gone in
      elim (Bool-cases k.device_remove_file_self) [
        | inl e ↦ (inl (rw e at p).0, few)
        | inr e ↦
            let ((dbg, same, rest), at) : Reloaded mgr d' × (d'.svec ≡ s) = rw e at p in
            (inr (k, (dbg, same, inr rest)), few)
      ]

  -- Every call that returns, of the bus or of a user, leads from a sound state to one, whatever the
  -- kernel answers and whatever the load of a bitstream does.
  Step-SoundFrom : (d d' : Device) → Sound mgr d → Step d d' → SoundFrom mgr d d'
  Step-SoundFrom d d' s (probed k _ _ c off called) =
      probed-SoundFrom k d d' c (Sound-IsVacant d s off) called
  Step-SoundFrom d d' s (removed k _ _ c on called) =
      let (k0, held) = Sound-IsPresent d s on in
      let (vacant, gone, more) =
        (Returns-ret _ _ c d' (svec_remove-IsPresent k k0 mgr d held) called).1 in
      (inl vacant, GoneFrom-Balanced d d' gone)
  Step-SoundFrom d d' s (stored k m doc load unregister buf count _ _ r calls loads on called) =
      let (k0, held) = Sound-IsPresent d s on in
      store-Sound k count (λ c z. Unit) d r d'
        (Returns-ret _ _ r d'
          (firmware_name_store_lem k m doc load unregister calls k0 mgr (λ c z. Unit) buf count d
            held loads)
          called)

  pub Reaches-keeps : (d d' : Device) → Sound mgr d → Reaches d d' → SoundFrom mgr d d'
  Reaches-keeps d d' start (here _) = (start, omega arith)
  Reaches-keeps d d' start (after _ d1 _ reached step) =
      let (sound, few) = Reaches-keeps d d1 start reached in
      let (sound', few') = Step-SoundFrom d1 d' sound step in
      (sound', Balanced-then d d1 d' few few')

  -- From a state where nothing is held for the VME device, every sequence of probes, removes and writes
  -- of `firmware_name` that return leads to one where nothing is held, or where the driver runs the
  -- device: its structure, its registration and the FPGA manager are there together, and the FPGA
  -- device is up or nothing refers to one. The mutex is free, and the FPGA manager has the references
  -- and the locks that it had at first. The FPGA devices that nothing refers to and that are not
  -- released have become more by at most the number of warnings of `svec_probe` that the FPGA is
  -- incorrectly programmed.
  pub Reaches-Sound : (d d' : Device) → IsVacant mgr d → Reaches d d' → SoundFrom mgr d d'
  Reaches-Sound d d' start reached = Reaches-keeps d d' (inl start) reached
