-- ===== src/Driver/Writers.antt =====
-- Several writers of `firmware_name` at once, in software/kernel/svec-core.c: each has opened the file
-- for itself, so that the kernel lets them run `firmware_name_store` side by side. A writer stops
-- between any two accesses to what the writers share. What follows `device_remove_file_self` is left
-- out: it waits for the other writers.
use Prim.Native.String.{String}
use svec.Base.{ℕ, ◌+◌, ◌<◌, ◌≡◌, Bool, true, false, if◌then◌else◌, ◌==◌}
use svec.Base.Errors.{Code}
use svec.Bus.{Run, Io, ret, exit, out_of_fuel, fault}
use svec.Core.{Svec}
use svec.Fpga.Board.{Board}
use svec.Fpga.Lifecycle.{take_down}
use svec.Driver.{Device, Host}
use svec.Driver.Compat.{Manager, compat_svec_fw_load}

-- What the writers share: what the driver holds with `mtx`, how often the structure of an FPGA device
-- was freed, and whether the attribute has removed itself.
pub record Shared : Type 0 where
  pub dev : Device
  pub frees : ℕ
  pub removed : Bool

-- How often `take_down` frees the structure: once if a structure that is allocated when it starts is not
-- any more when it ends.
abbrev pub freed_by : Run Board (Unit {0}) → ℕ
freed_by (ret u b) = if b.allocated then 0 else 1
freed_by (exit c b) = 0
freed_by (out_of_fuel b) = 0
freed_by (fault b) = 0

abbrev pub frees_of : Host → Board → ℕ
frees_of k b = freed_by (take_down k.kernel (record b { allocated = true }))

-- Where a writer stands.
pub data Pc : Type 0 where
  -- at the start of `svec_fpga_exit`
  start : Pc
  -- there, with a pointer that is not null
  tearing : Pc
  -- before `svec_dev->svec_fpga = NULL`
  clearing : Pc
  -- before `mutex_lock`
  waiting : Pc
  -- before `compat_svec_fw_load`, and before `mutex_unlock`
  locked : Pc
  loaded : Code → Pc
  -- before `device_remove_file_self`
  unlocked : Code → Pc
  -- after it, with its answer
  gone : Bool → Pc

abbrev pub with_fpga : Board → Device → Device
with_fpga b d = record d { fpga = b }

-- One step of one writer.
pub data Move (k : Host) (m : Manager) (fpga_mgr_load : Board → String → Io Svec Code) (s : Shared)
    : Pc → Shared → Pc → Type 0 where
  no_fpga : s.dev.fpga.svec_fpga ≡ false → Move k m fpga_mgr_load s start s waiting
  has_fpga : s.dev.fpga.svec_fpga ≡ true → Move k m fpga_mgr_load s start s tearing
  torn :
      (b : Board)
      → take_down k.kernel s.dev.fpga ≡ ret tt b
      → Move k m fpga_mgr_load s tearing
          (record s { dev = with_fpga b s.dev; frees = s.frees + frees_of k s.dev.fpga })
          clearing
  cleared :
      Move k m fpga_mgr_load s clearing
        (record s { dev = with_fpga (record s.dev.fpga { svec_fpga = false }) s.dev })
        waiting
  locks :
      s.dev.mtx ≡ false
      → Move k m fpga_mgr_load s waiting (record s { dev = record s.dev { mtx = true } }) locked
  loads :
      (name : String) (c : Code) (d' : Device)
      → compat_svec_fw_load m fpga_mgr_load name s.dev ≡ ret c d'
      → Move k m fpga_mgr_load s locked (record s { dev = d' }) (loaded c)
  unlocks :
      {c : Code}
      → Move k m fpga_mgr_load s
          (loaded c)
          (record s { dev = record s.dev { mtx = false } })
          (unlocked c)
  removes :
      {c : Code}
      → s.removed ≡ false
      → Move k m fpga_mgr_load s (unlocked c) (record s { removed = true }) (gone true)
  stays : {c : Code} → Move k m fpga_mgr_load s (unlocked c) s (gone false)

-- An index from `n` on is no writer.
pub record System : Type 0 where
  pub shared : Shared
  pub pc : ℕ → Pc

abbrev pub update : (ℕ → Pc) → ℕ → Pc → ℕ → Pc
update f i p j = if i == j then p else f j

pub data Step (k : Host) (m : Manager) (fpga_mgr_load : Board → String → Io Svec Code) (n : ℕ)
    (s : System) : System → Type 0 where
  pick :
      (i : ℕ) {s' : Shared} {p : Pc}
      → i < n
      → Move k m fpga_mgr_load s.shared (s.pc i) s' p
      → Step k m fpga_mgr_load n s (record { shared = s'; pc = update s.pc i p })

-- All writers start, with what the driver holds and nothing freed.
abbrev pub initial : Device → System
initial d = record { shared = record { dev = d; frees = 0; removed = false }; pc = λ i. start }

pub data Reach (k : Host) (m : Manager) (fpga_mgr_load : Board → String → Io Svec Code) (n : ℕ)
    (d : Device) : System → Type 0 where
  begin : Reach k m fpga_mgr_load n d (initial d)
  next :
      {s t : System}
      → Reach k m fpga_mgr_load n d s
      → Step k m fpga_mgr_load n s t
      → Reach k m fpga_mgr_load n d t
