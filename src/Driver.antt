-- ===== src/Driver.antt =====
-- The board driver of software/kernel/svec-core.c, above the operations of the FPGA manager (Core) and
-- the FPGA device (Fpga), and software/kernel/svec-compat.c. The state is what the driver holds for
-- one VME device; what the kernel answers is a parameter.
pub mod Vme
pub mod Compat
pub mod Probe
pub mod Firmware
pub mod Show
pub mod Manager
pub mod Interface
pub mod Loading
pub mod States
pub mod Ends
pub mod Gone
pub mod Reprogram
pub mod Success
pub mod Invariant
pub mod Writers
pub mod Race
pub mod Frees
pub mod Module
pub mod Cards
pub mod Unload
pub mod Samples
mod Tests
mod ModuleTests
use svec.Base.{ℕ, Bool}
use svec.Base.Errors.{Code, Errno, ok, err}
use svec.Bus.{Io, Run, ret, exit, out_of_fuel, fault, Hardware}
use svec.Core.{Svec}
use svec.Fpga.{RegMap}
use svec.Fpga.Board.{Board, Kernel}

-- A pointer that a function of the kernel returns: it can be null, or hold an error.
pub data Ptr : Type 0 where
  ptr null : Ptr
  bad : Errno → Ptr

-- `PTR_ERR` where `IS_ERR_OR_NULL` holds.
abbrev pub ptr_err : Ptr → Code
ptr_err ptr = ok
ptr_err null = ok
ptr_err (bad e) = err e

-- The FPGA manager's device: its references, its mutex, and the references to its module.
pub record Mgr : Type 0 where
  pub refs : ℕ
  pub ref_mutex : Bool
  pub module_refs : ℕ

-- What is left of earlier times: the FPGA devices that no structure of the driver refers to any more, and
-- the warnings "FPGA incorrectly programmed or empty" in the log.
pub record Leaks : Type 0 where
  pub lost : ℕ
  pub warnings : ℕ

-- What the driver holds for one VME device, and the mutex `mtx`.
pub record Device : Type 0 where
  pub allocated : Bool
  pub drvdata : Bool
  pub registered : Bool
  pub mgr_created : Bool
  pub mgr_registered : Bool
  pub dbg_dir : Bool
  pub mtx : Bool
  -- the VME core lets the device's windows and interrupt through
  pub enabled : Bool
  pub mgr : Mgr
  -- through `svec_fpga`
  pub fpga : Board
  -- the words held back, and the accesses to the CR/CSR space
  pub svec : Svec
  pub leaks : Leaks

-- What the kernel answers.
pub record Host : Type 0 where
  pub has_dev : Bool
  pub kzalloc_ok : Bool
  pub dev_set_name : Code
  pub device_register : Code
  pub vme_disable_device : Code
  pub vme_enable_device : Code
  pub irq_vector : ℕ
  pub irq_level : ℕ
  pub fpga_mgr_create : Bool
  pub fpga_mgr_register : Code
  pub create_dir : Ptr
  pub create_file : Ptr
  -- to `svec_fpga_init`
  pub kernel : Kernel
  pub window : Hardware
  pub regs : RegMap
  pub version_ignore : Bool
  pub device_remove_file_self : Bool

abbrev pub Dev : Type 0 → Type 0
Dev = Io Device

abbrev pub update : (Device → Device) → Dev (Unit {0})
update f d = ret tt (f d)

abbrev pub get_dev : Dev Device
get_dev d = ret d d

-- `if (err) goto label;`
abbrev pub or_label : Code → (Code → Dev Code) → Dev Code → Dev Code
or_label ok label k = k
or_label (err x) label k = label (err x)

-- Code that runs on a part of the state.
abbrev pub zoom_run : {S A : Type 0} → (S → Device → Device) → Device → Run S A → Run Device A
zoom_run put d (ret a s) = ret a (put s d)
zoom_run put d (exit c s) = exit c (put s d)
zoom_run put d (out_of_fuel s) = out_of_fuel (put s d)
zoom_run put d (fault s) = fault (put s d)

abbrev pub on_fpga : {A : Type 0} → Io Board A → Dev A
on_fpga m d = zoom_run (λ s e. record e { fpga = s }) d (m d.fpga)

abbrev pub on_svec : {A : Type 0} → Io Svec A → Dev A
on_svec m d = zoom_run (λ s e. record e { svec = s }) d (m d.svec)

abbrev pub on_mgr : {A : Type 0} → Io Mgr A → Dev A
on_mgr m d = zoom_run (λ s e. record e { mgr = s }) d (m d.mgr)
