-- ===== src/Driver/Samples.antt =====
-- A kernel that grants everything to the board driver, and the states of a device there.
use svec.Base.{◌≡◌, refl, true, false, []}
use svec.Base.Errors.{ok}
use svec.Bus.{ret}
use svec.Core.{iowrite32be}
use svec.Core.Samples.{card, blank}
use svec.Fpga.Lifecycle.{svec_fpga_init}
use svec.Fpga.Holding.{idle}
use svec.Fpga.Samples.{kernel, regs}
use svec.Driver.{Leaks, ptr, Mgr, Device, Host}
use svec.Driver.Vme.{svec_csr_write, svec_vme_init}
use svec.Driver.Probe.{
  warn, zero_meta, dbg_file, dbg_from, svec_dbg_init, kzalloc_svec, probe_parts, svec_probe,
}
use svec.Driver.Interface.{init_writes}
use svec.Driver.States.{vacant, present}

-- The function's window is no memory, so that there is no FPGA device to set up.
abbrev pub host : Host
host = record {
  has_dev = true;
  kzalloc_ok = true;
  dev_set_name = ok;
  device_register = ok;
  vme_disable_device = ok;
  vme_enable_device = ok;
  irq_vector = 0x86;
  irq_level = 2;
  fpga_mgr_create = true;
  fpga_mgr_register = ok;
  create_dir = ptr;
  create_file = ptr;
  kernel = record kernel { resource_is_mem = false };
  window = card;
  regs = regs;
  version_ignore = false;
  device_remove_file_self = true;
}

-- One reference of the class, and nobody else at the manager.
abbrev pub unused : Mgr
unused = record { refs = 1; ref_mutex = false; module_refs = 0 }

abbrev pub none_lost : Leaks
none_lost = record { lost = 0; warnings = 0 }

abbrev pub running : Device
running = present true true unused (idle zero_meta zero_meta []) blank none_lost

abbrev pub absent : Device
absent = vacant false unused (idle zero_meta zero_meta []) blank none_lost

abbrev pub probed_device : Device
probed_device = record running {
  svec = record blank { bus = init_writes host };
  -- the window is no memory
  leaks = record { lost = 0; warnings = 1 };
}

pub probe_works : svec_probe host absent ≡ ret ok probed_device
unfolding svec_probe probe_parts kzalloc_svec svec_vme_init svec_csr_write iowrite32be svec_dbg_init
    dbg_from dbg_file svec_fpga_init warn
probe_works = refl
