-- ===== src/Flasher/ProcessTests.antt =====
-- The theorems on the process of software/tools/vme-flasher/svec-flasher.c at a card with a flash chip
-- and an operating system where every call works.
use Prim.Native.String.{String}
use svec.Base.{false, ◌+◌, ◌≡◌, refl, true, List, [], ◌∷◌, some, none, arith}
use svec.Base.Errors.{ok}
use svec.Bus.{Returns}
use svec.VmeBus.{
  Mapping, call, call_ignored, find, vme_mmap, page_addr, page_aligned_size, page_aligned_size_incr,
}
use svec.VmeBus.Map.{vme_map}
use svec.VmeBus.Descriptors.{descriptors}
use svec.VmeBus.Tests.{os, os-KeepsFlag}
use svec.Flasher.Program.{id_mt25ql128, sector_size_of}
use svec.Flasher.Main.{to_flash, Surroundings, window, mode_of, flasher}
use svec.Flasher.Spi.{spi}
use svec.Flasher.Chip.{chip}
use svec.Flasher.Release.{Ended, flasher-Ended}
use svec.Flasher.Whole.{Both}
use svec.Flasher.Asked.{to_the_flash}
use svec.Flasher.Complete.{flasher_lem}
use svec.Flasher.FlashTests.{
  blank_chip, two_polls, five, flash_card, flash_card-Works, flash_card-Serves,
  flash_card-Identifies,
}

abbrev argv : List String
argv = "svec-flasher" ∷ "7" ∷ "svec.bin" ∷ []

abbrev env : Surroundings
env = record { file = some five; file_malloc_ok = true; malloc_ok = true; confirm = [] }

abbrev mapping : Mapping
mapping = record (window 7) { fd = 7; pci_addrl = 0x12345678; user_va = 7 + 0x678 }

flasher-Ended_example :
    Ended
      (λ s. descriptors os s.calls ≡ descriptors os [])
      (flasher flash_card 2 3 os 0 env argv 7 (record { calls = []; history = []; mapped = none }))
flasher-Ended_example = flasher-Ended flash_card 2 3 os 3 0 os-KeepsFlag env argv 7 [] []

flasher_lem_example :
    Returns
      (λ c s.
        (descriptors os s.calls ≡ descriptors os [])
        × ((c ≡ ok) × Both 0x10000 two_polls blank_chip five (λ x. 0) s.history))
      (flasher flash_card 2 3 os 0 env argv 7 (record { calls = []; history = []; mapped = none }))
unfolding sector_size_of spi chip mode_of vme_map call call_ignored find vme_mmap page_addr
    page_aligned_size_incr page_aligned_size
flasher_lem_example =
    flasher_lem flash_card 1 2 0x10000 0 0 two_polls blank_chip flash_card-Works flash_card-Serves
      (λ h. refl) id_mt25ql128 flash_card-Identifies refl five (λ j. omega arith) [] [] os 3 0
      os-KeepsFlag env argv (to_flash false) 7 mapping [] _ [] (to_the_flash _ _ _) refl refl refl
      refl refl (omega arith) refl refl
