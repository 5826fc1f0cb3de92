-- ===== src/Driver/States.antt =====
-- What the board driver of software/kernel/svec-core.c can hold for a card.
use svec.Base.{
  arith, ℕ, ◌+◌, ◌≤◌, ◌≡◌, refl, inl, inr, ◌⊎◌, Bool, true, false, Bool-cases, if◌then◌else◌,
}
use svec.Base.Errors.{Code, ok, err}
use svec.Core.{Svec}
use svec.Fpga.Board.{Board}
use svec.Fpga.Cycle.{Up, Idle, Lost}
use svec.Driver.{Leaks, Mgr, Device, Host}

-- The driver holds nothing for the VME device.
abbrev pub vacant : (enabled : Bool) → Mgr → Board → Svec → Leaks → Device
vacant enabled mgr fpga svec leaks = record {
  allocated = false;
  drvdata = false;
  registered = false;
  mgr_created = false;
  mgr_registered = false;
  dbg_dir = false;
  mtx = false;
  enabled = enabled;
  mgr = mgr;
  fpga = fpga;
  svec = svec;
  leaks = leaks;
}

-- The driver runs the VME device.
abbrev pub present : (dbg enabled : Bool) → Mgr → Board → Svec → Leaks → Device
present dbg enabled mgr fpga svec leaks = record (vacant enabled mgr fpga svec leaks) {
  allocated = true;
  drvdata = true;
  registered = true;
  mgr_created = true;
  mgr_registered = true;
  dbg_dir = dbg;
}

-- Nothing refers to an FPGA device.
abbrev pub Unreferenced : Board → Type 0
Unreferenced b = Idle b ⊎ Lost b

abbrev pub IsVacant : Mgr → Device → Type 0
IsVacant mgr d = (d ≡ vacant d.enabled mgr d.fpga d.svec d.leaks) × Unreferenced d.fpga

abbrev pub IsPresent : Host → Mgr → Device → Type 0
IsPresent k mgr d =
    (dbg : Bool) × (d ≡ present dbg d.enabled mgr d.fpga d.svec d.leaks)
    × (Up k.kernel k.regs d.fpga ⊎ Unreferenced d.fpga)

-- An FPGA device that is allocated, and that the driver does not refer to.
abbrev pub orphans : Board → ℕ
orphans b = if b.svec_fpga then 0 else if b.allocated then 1 else 0

-- The FPGA devices that the driver has not released and cannot release any more.
abbrev pub unreleased : Device → ℕ
unreleased d = d.leaks.lost + orphans d.fpga

-- Each FPGA device that is not released comes with a warning that its setting up failed.
abbrev pub Balanced : Device → Device → Type 0
Balanced d d' = unreleased d' + d.leaks.warnings ≤ unreleased d + d'.leaks.warnings

abbrev Held : Host → Mgr → Code → Device → Type 0
Held k mgr ok d = IsPresent k mgr d
Held k mgr (err x) d = IsVacant mgr d

abbrev pub ProbeEnd : Host → Mgr → Device → Code → Device → Type 0
ProbeEnd k mgr d0 c d = Held k mgr c d × Balanced d0 d

-- The same, from what the new structure starts with.
abbrev pub PartEnd : Host → Mgr → Leaks → Code → Device → Type 0
PartEnd k mgr l c d = Held k mgr c d × (unreleased d + l.warnings ≤ l.lost + d.leaks.warnings)

pub orphans-few : (b : Board) → orphans b ≤ 1
orphans-few b = elim (Bool-cases b.svec_fpga) [
  | inl e ↦ rw e (omega arith)
  | inr e ↦ elim (Bool-cases b.allocated) [
    | inl e' ↦ rw (e, e') (omega arith)
    | inr e' ↦ rw (e, e') (omega arith)
  ]
]

pub Up-orphans : (k : Host) (b : Board) → Up k.kernel k.regs b → orphans b ≡ 0
Up-orphans k b (dbg, app, slots, filled, is_app, e) = rw e refl

pub Unreferenced-orphans : (b : Board) → Unreferenced b → orphans b ≡ (if b.allocated then 1 else 0)
Unreferenced-orphans b (inl e) = rw e refl
Unreferenced-orphans b (inr (dbg, e)) = rw e refl

-- What a new structure starts with.
abbrev pub again : Leaks → Board → Leaks
again l b = record l { lost = l.lost + (if b.allocated then 1 else 0) }
