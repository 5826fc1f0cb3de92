-- ===== src/Fpga/Samples.antt =====
-- A kernel that grants everything and a card with valid metadata, for software/kernel/svec-core-fpga.c.
use svec.Base.{◌+◌, true, List, [], ◌∷◌, ◌==◌, if◌then◌else◌, some}
use svec.Base.Errors.{ok}
use svec.Bus.{Hardware}
use svec.Fpga.{RegMap, Meta}
use svec.Fpga.I2c.{I2cDev}
use svec.Fpga.Buses.{walk}
use svec.Fpga.Board.{Kernel}

-- Two adapters on the card, and one on another.
abbrev pub two_adapters : List I2cDev
two_adapters =
    record { is_adapter = true; mux_of = some 5; nr = 7 }
    ∷ record { is_adapter = true; mux_of = some 6; nr = 8 }
    ∷ record { is_adapter = true; mux_of = some 5; nr = 9 }
    ∷ []

abbrev pub kernel : Kernel
kernel = record {
  resource_is_mem = true;
  kzalloc_ok = true;
  ioremap_ok = true;
  dev_set_name = ok;
  device_register = ok;
  create_dir = ok;
  create_file = ok;
  register_vic = ok;
  devm_kzalloc_ok = true;
  vic_domain_found = true;
  mfd_add_devices = ok;
  i2c_for_each_dev = walk two_adapters;
  fpga_dev = 5;
  fmc_carrier_register = ok;
  kcalloc_ok = true;
  register_app = ok;
  vme_start = 0x900000;
  vme_end = 0x97ffff;
  vme_irq = 3;
  irq_find_mapping = λ hwirq. 100 + hwirq;
}

abbrev pub regs : RegMap
regs = record {
  metadata = 0;
  csr = 0x40;
  therm_id = 0x70;
  buildinfo = 0x200;
  buildinfo_size = 256;
  vic = 0x0;
  fmc_i2c = 0x80;
  fmc_i2c_size = 32;
  flash_spi = 0xa0;
  flash_spi_size = 32;
  version_bld = 0x01040000;
}

-- The first words are the metadata, and there is no application.
abbrev pub card : Hardware
card = record {
  answer = λ h a.
      if a == 0
      then 0x10dc
      else if a == 4
      then 0x53564543
      else if a == 8
      then 0x01050002
      else if a == 12
      then 0xfffe0000
      else if a == 32
      then 1
      else 0;
  jiffies = λ h. 0;
  usecs_to_jiffies = λ us. us;
}

abbrev pub good_meta : Meta
good_meta = record {
  vendor = 0x10dc;
  device = 0x53564543;
  version = 0x01050002;
  bom = 0xfffe0000;
  src = [];
  cap = 1;
  uuid = [];
}
