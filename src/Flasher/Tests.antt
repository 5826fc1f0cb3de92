-- ===== src/Flasher/Tests.antt =====
-- The theorem on `program_afpga` at a card that serves, and five bytes.
use svec.Base.{
  true, ℕ, ◌+◌, ◌%◌, ◌<◌, ◌≡◌, false, refl, [], ◌==◌, ltb, le→ltb, if◌then◌else◌, flag, arith,
}
use svec.Bus.{asked, Hardware, Returns}
use svec.Loader.{csr_done, fifo_csr_full, reg_csr, reg_fifo_csr}
use svec.Core.{Buffer}
use svec.Flasher.Afpga.{program_afpga}
use svec.Flasher.Sdb.{sdb_header}
use svec.Flasher.Program.{id_mt25ql128, flash_program}
use svec.Flasher.Bounds.{Inside, flash_program-Inside}
use svec.Flasher.Loading.{Serves, Loaded, program_afpga_lem}

-- The FIFO is full when it is first asked, and the card is done when it is asked for the third time.
abbrev card : Hardware
card = record {
  answer = λ h a.
      if a == reg_csr
      then (if ltb (asked h) 2 then 0 else csr_done)
      else if a == reg_fifo_csr
      then (if asked h == 0 then fifo_csr_full else 0)
      else 0;
  jiffies = λ h. 0;
  usecs_to_jiffies = λ us. us;
}

card-Serves : Serves card 1 2
unfolding flag
card-Serves = record {
  room = λ h e. let some : (asked h == 0) ≡ false = ground arith in rw some refl;
  done = λ h e. rw (le→ltb (asked h) 2 e) refl;
  word = λ h a. ground arith;
}

abbrev five : Buffer
five = record { mem = λ j. (10 + j) % 256; size = 5 }

mod_256 : (n : ℕ) → n % 256 < 256
mod_256 n = omega arith

program_afpga_lem_example :
    Returns
      (Loaded card 1 2 card-Serves five (λ j. mod_256 (10 + j)))
      (program_afpga card 10 five [])
program_afpga_lem_example =
    program_afpga_lem card 1 2 card-Serves five (λ j. mod_256 (10 + j)) 9 [] (omega arith)
      (omega arith)

flash_program-Inside_example :
    Inside (flash_program card 5 5 true 0x600000 sdb_header id_mt25ql128 [])
unfolding sdb_header
flash_program-Inside_example =
    flash_program-Inside card 5 5 true 0x600000 sdb_header id_mt25ql128 [] (omega arith)
