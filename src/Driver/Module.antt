-- ===== src/Driver/Module.antt =====
-- The module's tables and entry points at the end of software/kernel/svec-core.c: `svec_id_table`,
-- `svec_driver`, `svec_init` and `svec_exit`. The VME core, which keeps the devices on the bus and calls the
-- driver, is a parameter with what it documents.
use Prim.Native.String.{String}
use svec.Base.{ℕ, ◌≡◌, ◌⊎◌, Bool, true, false, List, [], ◌∷◌}
use svec.Base.Errors.{Code, ok, err}
use svec.Bus.{Io, ret, Returns, pure, ◌>>=◌, ◌>>◌}
use svec.Driver.{Device, Host, Dev}
use svec.Driver.Probe.{svec_probe, svec_remove}

-- `struct vme_device_id`.
pub record VmeDeviceId : Type 0 where
  pub name : String
  pub manufacturer : ℕ
  pub board : ℕ
  pub revision : ℕ

-- `struct vme_driver`. The two functions take what the kernel answers to their calls.
pub record VmeDriver : Type 0 where
  pub probe : Host → Dev Code
  pub remove : Host → Dev Code
  pub name : String
  pub id_table : List VmeDeviceId

abbrev pub svec_id_table : List VmeDeviceId
svec_id_table =
    record { name = "fmc-svec-a24"; manufacturer = 0x00080030; board = 0x00000198; revision = 1 }
    ∷ record { name = "fmc-svec-a32"; manufacturer = 0x00080030; board = 0x00000198; revision = 1 }
    ∷ record { name = "\0"; manufacturer = 0; board = 0; revision = 0 }
    ∷ []

abbrev pub svec_driver : VmeDriver
svec_driver = record {
  probe = svec_probe;
  remove = svec_remove;
  name = "svec-fmc-carrier";
  id_table = svec_id_table;
}

-- A device on the VME bus: what it is, whether a driver is bound to it, what the driver holds for it, and
-- what the kernel will answer to the next probe and to the remove.
pub record Card : Type 0 where
  pub id : VmeDeviceId
  pub bound : Bool
  pub dev : Device
  pub at_probe : Host
  pub at_remove : Host

abbrev pub Cards : Type 0
Cards = List Card

-- The VME core's operations on the devices of the bus.
pub record VmeCore : Type 0 where
  pub vme_match : List VmeDeviceId → VmeDeviceId → Bool
  pub vme_register_driver : VmeDriver → (ndevs : ℕ) → Io Cards Code
  pub vme_unregister_driver : VmeDriver → Io Cards (Unit {0})

-- `svec_init` and `svec_exit`.
unfoldable pub svec_init : VmeCore → Io Cards Code
svec_init core = core.vme_register_driver svec_driver 0

unfoldable pub svec_exit : VmeCore → Io Cards (Unit {0})
svec_exit core = core.vme_unregister_driver svec_driver

-- The module is loaded, used, and unloaded; one that cannot be loaded is not unloaded.
unfoldable pub once_loaded : VmeCore → (life : Io Cards (Unit {0})) → Code → Io Cards Code
once_loaded core life (err x) = pure (err x)
once_loaded core life ok = do life; svec_exit core; pure ok

unfoldable pub module_life : VmeCore → (life : Io Cards (Unit {0})) → Io Cards Code
module_life core life = do e ← svec_init core; once_loaded core life e

abbrev pub AllCards : (Card → Type 0) → Cards → Type 0
AllCards P [] = Unit
AllCards P (c ∷ cs) = P c × AllCards P cs

-- Card by card.
abbrev pub Each : (Card → Card → Type 0) → Cards → Cards → Type 0
Each R [] [] = Unit
Each R [] (c' ∷ cs') = ⊥
Each R (c ∷ cs) [] = ⊥
Each R (c ∷ cs) (c' ∷ cs') = R c c' × Each R cs cs'

abbrev pub is_zero : Code → Bool
is_zero ok = true
is_zero (err x) = false

abbrev pub Returning : {A : Type 0} → Dev A → Device → Type 0
Returning m d = Returns (λ a d'. Unit {0}) (m d)

-- A device that no driver is bound to and that the driver's table names is probed, and bound if the probe
-- returns zero.
abbrev pub ProbedBy : VmeCore → VmeDriver → Card → Card → Type 0
ProbedBy core drv c c' =
    (((c.bound ≡ true) ⊎ (core.vme_match drv.id_table c.id ≡ false)) × (c' ≡ c))
    ⊎ ((c.bound ≡ false)
        × (core.vme_match drv.id_table c.id ≡ true)
        × ((e : Code) × (d : Device) × (drv.probe c.at_probe c.dev ≡ ret e d)
            × (c' ≡ record c { bound = is_zero e; dev = d })))

-- A device that the driver is bound to is removed, and the result is ignored.
abbrev pub RemovedBy : VmeDriver → Card → Card → Type 0
RemovedBy drv c c' =
    ((c.bound ≡ false) × (c' ≡ c))
    ⊎ ((c.bound ≡ true)
        × ((e : Code) × (d : Device) × (drv.remove c.at_remove c.dev ≡ ret e d)
            × (c' ≡ record c { bound = false; dev = d })))

abbrev pub RegisterEnd : VmeCore → VmeDriver → Cards → Code → Cards → Type 0
RegisterEnd core drv cs ok cs' = Each (ProbedBy core drv) cs cs'
RegisterEnd core drv cs (err x) cs' = cs' ≡ cs

-- What the VME core documents: it returns where the driver's functions return, it probes the devices if the
-- driver is registered, and it removes those that are bound where the driver is unregistered.
pub record Binds (core : VmeCore) : Type 0 where
  pub registers :
      (drv : VmeDriver) (ndevs : ℕ) (cs : Cards)
      → AllCards
          (λ c.
            c.bound ≡ false
            → core.vme_match drv.id_table c.id ≡ true
            → Returning (drv.probe c.at_probe) c.dev)
          cs
      → Returns (RegisterEnd core drv cs) (core.vme_register_driver drv ndevs cs)
  pub unregisters :
      (drv : VmeDriver) (cs : Cards)
      → AllCards (λ c. c.bound ≡ true → Returning (drv.remove c.at_remove) c.dev) cs
      → Returns (λ u cs'. Each (RemovedBy drv) cs cs') (core.vme_unregister_driver drv cs)
