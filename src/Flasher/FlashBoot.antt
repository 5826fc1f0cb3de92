-- ===== src/Flasher/FlashBoot.antt =====
-- How the System FPGA boots the Application FPGA from the flash at power-up: the states of
-- hdl/rtl/bootloader/flash_boot.vhd, with the constants of svec_bootloader_pkg.vhd beside it. This is a
-- specification, independent of the flasher. A step stands for the clock cycles up to the next answer
-- of the flash or of the loader.
use svec.Base.{ℕ, zero, suc, ◌+◌, Bool, List, [], ◌∷◌, ◌++◌, ◌==◌, if◌then◌else◌}

pub data BootState : Type 0 where
  select_sdb : BootState
  check_sig0 check_sig1 check_sig2 check_sig3 : BootState
  select_bitstream : BootState
  fetch_bs_byte : BootState
  load_bs_byte : BootState
  no_bitstream : BootState
  boot_done : BootState

-- The address of the next byte that the flash controller reads, the byte that was fetched, the bytes
-- that were counted, and those that the loader has taken.
pub record Boot : Type 0 where
  pub state : BootState
  pub flash_addr : ℕ
  pub xldr_data : ℕ
  pub byte_count : ℕ
  pub fed : List ℕ

abbrev pub sdb_root_offset : ℕ
sdb_root_offset = 0x600000

abbrev pub sdb_bitstream_offset : ℕ
sdb_bitstream_offset = 0x100000

abbrev pub bitstream_size : ℕ
bitstream_size = 0x408000

abbrev pub power_up : Boot
power_up = record { state = select_sdb; flash_addr = 0; xldr_data = 0; byte_count = 0; fed = [] }

-- `mem` is what the flash holds, and `done` the pin DONE of the Application FPGA by the bytes that it
-- was fed.
module _ (mem : ℕ → ℕ) (done : List ℕ → Bool) where
  abbrev check_signature : ℕ → BootState → Boot → Boot
  check_signature byte next s = record s {
    state = if mem s.flash_addr == byte then next else no_bitstream;
    flash_addr = s.flash_addr + 1;
  }

  -- The pin is looked at as the loader takes a byte.
  abbrev load_byte : Boot → Boot
  load_byte s = record s {
    state =
        if done s.fed
        then boot_done
        else if s.byte_count == bitstream_size
        then no_bitstream
        else fetch_bs_byte;
    byte_count = s.byte_count + 1;
    fed = s.fed ++ s.xldr_data ∷ [];
  }

  abbrev step_in : BootState → Boot → Boot
  step_in select_sdb s = record s { state = check_sig0; flash_addr = sdb_root_offset }
  step_in check_sig0 s = check_signature 0x53 check_sig1 s
  step_in check_sig1 s = check_signature 0x44 check_sig2 s
  step_in check_sig2 s = check_signature 0x42 check_sig3 s
  step_in check_sig3 s = check_signature 0x2d select_bitstream s
  step_in select_bitstream s = record s { state = fetch_bs_byte; flash_addr = sdb_bitstream_offset }
  step_in fetch_bs_byte s = record s {
    state = load_bs_byte;
    xldr_data = mem s.flash_addr;
    flash_addr = s.flash_addr + 1;
  }
  step_in load_bs_byte s = load_byte s
  step_in no_bitstream s = s
  step_in boot_done s = s

  abbrev step : Boot → Boot
  step s = step_in s.state s

  -- The state after some steps.
  unfoldable pub boot : ℕ → Boot → Boot
  boot zero s = s
  boot (suc n) s = boot n (step s)
