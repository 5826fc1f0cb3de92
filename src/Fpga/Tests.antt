-- ===== src/Fpga/Tests.antt =====
-- The theorems on the FPGA device at a kernel that grants everything, and a card with valid metadata.
use svec.Base.{
  arith, refl, ℕ, ◌+◌, ◌-◌, ◌/◌, ◌%◌, ◌^◌, ◌<◌, ◌≡◌, ◌↔◌, ◌⊎◌, inl, inr, Bool, true, false, not,
  List, [], ◌∷◌, map, flag, ◌==◌, if◌then◌else◌, bswap32,
}
use svec.Base.Errors.{Errno, einval}
use svec.Bus.{Hardware, History, Returns, rd, wr, wait, clock}
use svec.Text.{chr}
use svec.Version.{info_chars}
use svec.Fpga.{svec_fpga_is_valid, svec_fmc_slots}
use svec.Fpga.I2c.{svec_i2c_get_bus}
use svec.Fpga.Buses.{walk, buses, first_from, two_slots, svec_i2c_get_bus_lem, fill_slots-buses}
use svec.Fpga.Attributes.{svec_fpga_dbg_bld_info, therm_temp, temperature_show, reset_app_store}
use svec.Fpga.BuildInfo.{svec_fpga_dbg_bld_info_lem}
use svec.Fpga.Sensors.{Shown, temperature_show_lem}
use svec.Fpga.Files.{OnlyReads, Accesses, GroupsOf, svec_fpga_groups, svec_fpga_groups-Accesses}
use svec.Fpga.Resets.{Stores, StoreEnd, reset_app_store_lem}
use svec.Fpga.Samples.{two_adapters, kernel, regs, card, good_meta}
use svec.Fpga.Parts.{fill_slots}
use svec.Fpga.Board.{csr_resets, Board, svec_fpga_metadata_get}
use svec.Fpga.Metadata.{Fields, svec_fpga_metadata_get_lem}
use svec.Fpga.Lifecycle.{svec_fpga_init}
use svec.Fpga.Valid.{Accepted, svec_fpga_is_valid_iff}
use svec.Fpga.Holding.{Ends, idle}
use svec.Fpga.Cycle.{NoVic}
use svec.Fpga.Teardown.{
  InitEnd, CycleEnd, init_then_exit, svec_fpga_init_lem, svec_fpga_exit-svec_fpga_init,
}

svec_fpga_is_valid_iff_example :
    (svec_fpga_is_valid false 0x01040000 good_meta ≡ true) ↔ Accepted false 0x01040000 good_meta
svec_fpga_is_valid_iff_example = svec_fpga_is_valid_iff false 0x01040000 good_meta

svec_fpga_init_lem_example :
    Ends
      (InitEnd kernel false regs)
      NoVic
      (svec_fpga_init kernel card regs false (idle good_meta good_meta []))
svec_fpga_init_lem_example = svec_fpga_init_lem kernel card regs false good_meta good_meta []

svec_fpga_exit-svec_fpga_init_example :
    Ends CycleEnd NoVic (init_then_exit kernel card regs false (idle good_meta good_meta []))
svec_fpga_exit-svec_fpga_init_example =
    svec_fpga_exit-svec_fpga_init kernel card regs false good_meta good_meta []

-- Registers that keep their values.
abbrev kept : ℕ → ℕ
kept a = 0x1000 + a

abbrev keeping : Hardware
keeping = record { answer = λ h a. kept a; jiffies = λ h. 0; usecs_to_jiffies = λ us. us }

svec_fpga_metadata_get_lem_example :
    Returns
      (λ m b'. Fields kept 0x40 m)
      (svec_fpga_metadata_get keeping regs 0x40 (idle good_meta good_meta []))
svec_fpga_metadata_get_lem_example =
    svec_fpga_metadata_get_lem keeping regs kept (λ h a. refl) 0x40 (idle good_meta good_meta [])

abbrev with_cap : ℕ → Board
with_cap c = idle (record good_meta { cap = c }) good_meta []

svec_i2c_get_bus_lem_example :
    svec_i2c_get_bus (walk two_adapters) 5 1 ≡ first_from 1 (buses 5 two_adapters)
svec_i2c_get_bus_lem_example =
    svec_i2c_get_bus_lem 5 (walk two_adapters) two_adapters 1 (λ f s. refl)

fill_slots-buses_example :
    fill_slots kernel svec_fmc_slots 0 ≡ two_slots (buses kernel.fpga_dev two_adapters)
fill_slots-buses_example =
    fill_slots-buses kernel two_adapters (λ f s. refl) (omega arith, (omega arith, tt))

-- Little-endian text in the words of the build information: `abcd`, and then a zero.
abbrev info_words : ℕ → ℕ
info_words a = if a == 0x200 then 0x64636261 else 0

abbrev informing : Hardware
informing = record {
  answer = λ h a. bswap32 (info_words a);
  jiffies = λ h. 0;
  usecs_to_jiffies = λ us. us;
}

svec_fpga_dbg_bld_info_lem_example :
    Returns
      (λ out b'.
        out ≡ map chr (info_chars info_words ((regs.buildinfo_size - 1 + 3) / 4) regs.buildinfo))
      (svec_fpga_dbg_bld_info informing regs (with_cap 0x10))
unfolding flag
svec_fpga_dbg_bld_info_lem_example =
    svec_fpga_dbg_bld_info_lem informing regs info_words (λ h a. refl) (with_cap 0x10) refl

-- A card whose reset register keeps the last word written.
abbrev last_resets : History → ℕ
last_resets [] = 0
last_resets (rd a v ∷ h) = last_resets h
last_resets (wr a v ∷ h) = v % 2 ^ 32
last_resets (wait us ∷ h) = last_resets h
last_resets (clock t ∷ h) = last_resets h

last_resets-lt : (h : History) → last_resets h < 2 ^ 32
last_resets-lt [] = omega arith
last_resets-lt (rd a v ∷ h) = last_resets-lt h
last_resets-lt (wr a v ∷ h) = omega arith
last_resets-lt (wait us ∷ h) = last_resets-lt h
last_resets-lt (clock t ∷ h) = last_resets-lt h

abbrev resetting : Hardware
resetting = record { answer = λ h a. last_resets h; jiffies = λ h. 0; usecs_to_jiffies = λ us. us }

resetting_stores : Stores resetting 0x44
resetting_stores = record {
  word = last_resets-lt;
  stored = λ h v less. omega arith;
  kept = λ h us. refl;
}

-- The first character says whether the number is zero; 22 is EINVAL.
abbrev parse : List ℕ → Errno ⊎ Bool
parse [] = inl einval
parse (c ∷ cs) = inr (not (c == 48))

reset_app_store_lem_example :
    Returns
      (StoreEnd resetting regs resetting_stores (inr true) 2 (with_cap 1))
      (reset_app_store resetting regs parse (49 ∷ 10 ∷ []) 2 (with_cap 1))
reset_app_store_lem_example =
    reset_app_store_lem resetting regs resetting_stores parse (49 ∷ 10 ∷ []) 2 (with_cap 1)

svec_fpga_groups-Accesses_example :
    GroupsOf (regs.csr + csr_resets) (svec_fpga_groups resetting regs parse)
    × Accesses OnlyReads (svec_fpga_dbg_bld_info resetting regs)
svec_fpga_groups-Accesses_example = svec_fpga_groups-Accesses resetting regs parse

temperature_show_lem_example :
    Returns
      (λ out b'. Shown (keeping.answer [] (regs.therm_id + therm_temp)) out)
      (temperature_show keeping regs (with_cap 2))
unfolding flag
temperature_show_lem_example = temperature_show_lem keeping regs (with_cap 2) refl
