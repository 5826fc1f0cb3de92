-- ===== src/Flasher/BootTests.antt =====
-- The boot from a flash that `program_flash` of software/tools/vme-flasher/svec-flasher.c has written.
use svec.Base.{
  true, false, arith, ℕ, ◌+◌, ◌≤◌, ◌≡◌, refl, inl, Bool, List, [], leb, length, length-append,
  length-slice,
}
use svec.Base.Errors.{ok}
use svec.Bus.{Returns}
use svec.Core.Stream.{contents}
use svec.Flasher.Program.{id_mt25ql128, sector_size_of, program_flash}
use svec.Flasher.Spi.{spi}
use svec.Flasher.Chip.{chip}
use svec.Flasher.Content.{Holds}
use svec.Flasher.FlashBoot.{bitstream_size}
use svec.Flasher.PowerUp.{Configures, BootsWith, program_flash-BootsWith}
use svec.Flasher.FlashTests.{
  blank_chip, two_polls, five, flash_card, flash_card-Works, flash_card-Identifies,
}

-- An Application FPGA that is done when it has been fed five bytes and one more.
abbrev done_at_six : List ℕ → Bool
done_at_six bs = leb 6 (length bs)

done_at_six-Configures : Configures done_at_six five 1
done_at_six-Configures = record {
  not_before = λ bs less. ground arith;
  after_all = λ extra enough.
      ground (arith, length-append (contents five) extra, length-slice five.mem 0 5);
}

six_fits : five.size + 1 ≤ bitstream_size
six_fits = omega arith

program_flash-BootsWith_example :
    Returns
      (λ c h'.
        (c ≡ ok)
        × Holds 0x10000 two_polls blank_chip (BootsWith 1 done_at_six five (inl six_fits)) h')
      (program_flash flash_card 2 3 true [] five false [])
unfolding sector_size_of spi chip
program_flash-BootsWith_example =
    program_flash-BootsWith flash_card 1 2 0x10000 two_polls blank_chip flash_card-Works
      id_mt25ql128 flash_card-Identifies refl five (λ j. omega arith) [] [] [] done_at_six 1
      done_at_six-Configures (omega arith) (inl six_fits) refl refl
