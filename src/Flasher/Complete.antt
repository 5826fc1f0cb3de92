-- ===== src/Flasher/Complete.antt =====
-- The whole of software/tools/vme-flasher/svec-flasher.c: from the arguments to the flash.
use Prim.Native.String.{String}
use svec.Base.{ℕ, suc, ◌+◌, ◌*◌, ◌^◌, ◌≤◌, ◌≡◌, sym, ◌∙◌, subst, true, false, List, some, none}
use svec.Base.Errors.{Code, ok}
use svec.Bus.{History, Hardware, Run, ret, ◌>>◌, Returns, Returns-ret, returns, bind}
use svec.Core.{Buffer}
use svec.Core.Stream.{IsBytes}
use svec.VmeBus.{Mapping, Os, Calls}
use svec.VmeBus.Map.{vme_map}
use svec.VmeBus.Descriptors.{descriptors, KeepsFlag}
use svec.VmeBus.Opening.{MapEnd, vme_map-MapEnd}
use svec.Flasher.Program.{is_yes, sector_size_of}
use svec.Flasher.Commands.{After}
use svec.Flasher.Chip.{Chip, Timing}
use svec.Flasher.Content.{busy_for, content}
use svec.Flasher.Verify.{Works}
use svec.Flasher.Whole.{Identifies, Both, program_flash_lem}
use svec.Flasher.Main.{
  Mode, usage, direct, Process, end_process, to_flash, Surroundings, on_window, window, init_vme,
  after_map, run_on_card, load_and_run, run_mode, main, flasher,
}
use svec.Flasher.Boot.{BootEnd, program_flash-BootEnd}
use svec.Flasher.Loading.{Serves, Loaded, program_afpga_lem}
use svec.Flasher.Release.{Held, at_exit-Released}
use svec.Flasher.Asked.{Responds, enter_bootloader-spi, Asks, mode_of-Asks, bootloader_window}

module _ (hw : Hardware) (fuel rounds : ℕ) (os : Os) (initial garbage : ℕ)
    (keeps : KeepsFlag os initial) (b : Buffer) (Q : Code → History → Type 0) where
  -- From a mapped window on.
  after_map-Held :
      (d : Mapping) (cs cs1 : Calls) (env : Surroundings) (mode : Mode) (h : History)
      → MapEnd os initial cs (some d) cs1
      → Returns Q (run_on_card hw fuel rounds env mode b h)
      → Returns
          (λ c s. Held os (descriptors os cs) s.mapped s.calls × Q c s.history)
          ((do after_map os (some d); on_window (run_on_card hw fuel rounds env mode b))
            (record { calls = cs1; history = h; mapped = none }))
  unfolding after_map
  after_map-Held d cs cs1 env mode h opened p = rw p.returned (returns _ _ (opened.0, p.holds))

  -- What `run_on_card` does is what the process does, and the window is released.
  load_and_run-Held :
      (env : Surroundings) (mode : Mode) (slot : ℕ) (d : Mapping) (cs cs1 : Calls) (h : History)
      → env.file ≡ some b
      → env.file_malloc_ok ≡ true
      → vme_map os (window slot) 1 cs ≡ ret (some d) cs1
      → Returns Q (run_on_card hw fuel rounds env mode b h)
      → Returns
          (λ c s. Held os (descriptors os cs) s.mapped s.calls × Q c s.history)
          (load_and_run hw fuel rounds os env mode slot
            (record { calls = cs; history = h; mapped = none }))
  unfolding load_and_run init_vme
  load_and_run-Held env mode slot d cs cs1 h file file_allocated mapped p =
      let opened =
        Returns-ret (MapEnd os initial cs) _ (some d) cs1
          (vme_map-MapEnd os initial (window slot) 1 cs keeps) mapped in
      rw (file, file_allocated, mapped) (after_map-Held d cs cs1 env mode h opened p)

  end_process-Released :
      (before : List ℕ) (r : Run Process Code)
      → Returns (λ c s. Held os before s.mapped s.calls × Q c s.history) r
      → Returns
          (λ c s. (descriptors os s.calls ≡ before) × Q c s.history)
          (end_process os garbage r)
  end_process-Released before r p =
      let out = at_exit-Released os garbage before p.state p.holds.0 in
      rw (p.returned, out.returned)
        (returns _ _ (out.holds.0, subst (Q p.value) (sym out.holds.1) p.holds.1))

-- What a mode asks of the file.
abbrev pub Suits : (fuel full slow : ℕ) → Mode → Buffer → Type 0
Suits fuel full slow usage b = ⊥
Suits fuel full slow (to_flash false) b = b.size ≤ 0x500000
Suits fuel full slow (to_flash true) b = b.size + 256 ≤ 2 ^ 24
Suits fuel full slow direct b = (b.size * suc full ≤ suc fuel) × (slow ≤ fuel)

module _ (hw : Hardware) (fuel rounds sector_size full slow : ℕ) (time : Timing) (c0 : Chip)
    (works : Works hw fuel rounds sector_size time c0) (serves : Serves hw full slow)
    (responds : Responds hw) (id : ℕ) (identifies : Identifies hw id)
    (known : sector_size_of id ≡ some sector_size) (b : Buffer) (bytes : IsBytes b)
    (confirm : List ℕ) (past : List (List ℕ)) where
  -- How a mode ends: the flash with the header and the file, or with the file alone after a confirmed
  -- answer, or the loader with the file.
  abbrev pub ModeEnd : Mode → Code → History → Type 0
  ModeEnd usage c h = ⊥
  ModeEnd (to_flash false) c h =
      (c ≡ ok) × Both sector_size time c0 b (content sector_size time c0 past) h
  ModeEnd (to_flash true) c h =
      BootEnd (is_yes confirm) sector_size time c0 b (content sector_size time c0 past) c h
  ModeEnd direct c h = Loaded hw full slow serves b bytes c h

  run_on_card-ModeEnd :
      (env : Surroundings) (mode : Mode) (h : History)
      → env.malloc_ok ≡ true
      → env.confirm ≡ confirm
      → Suits fuel full slow mode b
      → After past h
      → busy_for sector_size time c0 past ≡ 0
      → Returns (ModeEnd mode) (run_on_card hw (suc fuel) (suc rounds) env mode b h)
  unfolding run_on_card
  run_on_card-ModeEnd env usage h allocated typed fits e idle = absurd fits
  run_on_card-ModeEnd env (to_flash false) h allocated typed fits e idle =
      bind (enter_bootloader-spi hw h responds) (λ v h1 e1.
        rw (allocated, typed)
          (program_flash_lem hw fuel rounds sector_size time c0 works id identifies known b bytes
            confirm past h1 fits (e1 ∙ e) idle))
  run_on_card-ModeEnd env (to_flash true) h allocated typed fits e idle =
      bind (enter_bootloader-spi hw h responds) (λ v h1 e1.
        rw (allocated, typed)
          (program_flash-BootEnd hw fuel rounds sector_size time c0 works id identifies known b
            bytes confirm past h1 fits (e1 ∙ e) idle))
  run_on_card-ModeEnd env direct h allocated typed fits e idle =
      bind (enter_bootloader-spi hw h responds)
        (λ v h1 e1. program_afpga_lem hw full slow serves b bytes fuel h1 fits.0 fits.1)

  module _ (os : Os) (initial garbage : ℕ) (keeps : KeepsFlag os initial) where
    run_mode-Held :
        (env : Surroundings) (mode : Mode) (slot : ℕ) (d : Mapping) (cs cs1 : Calls) (h : History)
        → env.file ≡ some b
        → env.file_malloc_ok ≡ true
        → vme_map os (window slot) 1 cs ≡ ret (some d) cs1
        → Suits fuel full slow mode b
        → Returns (ModeEnd mode) (run_on_card hw (suc fuel) (suc rounds) env mode b h)
        → Returns
            (λ c s. Held os (descriptors os cs) s.mapped s.calls × ModeEnd mode c s.history)
            (run_mode hw
              (suc fuel)
              (suc rounds)
              os
              env
              mode
              slot
              (record { calls = cs; history = h; mapped = none }))
    unfolding run_mode
    run_mode-Held env usage slot d cs cs1 h file allocated mapped fits p = absurd fits
    run_mode-Held env (to_flash boot) slot d cs cs1 h file allocated mapped fits p =
        load_and_run-Held hw (suc fuel) (suc rounds) os initial garbage keeps b
          (ModeEnd (to_flash boot)) env (to_flash boot) slot d cs cs1 h file allocated mapped p
    run_mode-Held env direct slot d cs cs1 h file allocated mapped fits p =
        load_and_run-Held hw (suc fuel) (suc rounds) os initial garbage keeps b (ModeEnd direct) env
          direct slot d cs cs1 h file allocated mapped p

    -- On a SVEC whose bootloader answers right after the trigger sequence and whose loader serves, with
    -- a working flash chip of a known kind, whatever it held, that is idle between two transactions: if
    -- the arguments ask for a mode (no option: the header and the file to the flash; `-b`: the
    -- bootloader; `-f`: the Application FPGA), the file is there and suits the mode, memory is allocated
    -- and the 0x1000 bytes at 0x70000 of the slot can be mapped, then the process returns, with the descriptors open that were open before, if the
    -- driver keeps its flag; and the mode has done its work: the chip holds the header at 0x600000
    -- and the file at 0x100000, and is as before outside of their sectors; or, with `-b`, it holds the file from zero on after a confirmed answer, and is as before
    -- after another; or, with `-f`, the loader has taken in exactly the file.
    pub flasher_lem :
        (env : Surroundings) (argv : List String) (mode : Mode) (slot : ℕ) (d : Mapping)
        (cs cs1 : Calls) (h : History)
        → Asks argv mode
        → env.file ≡ some b
        → env.file_malloc_ok ≡ true
        → env.malloc_ok ≡ true
        → env.confirm ≡ confirm
        → vme_map os (bootloader_window slot) 1 cs ≡ ret (some d) cs1
        → Suits fuel full slow mode b
        → After past h
        → busy_for sector_size time c0 past ≡ 0
        → Returns
            (λ c s. (descriptors os s.calls ≡ descriptors os cs) × ModeEnd mode c s.history)
            (flasher hw
              (suc fuel)
              (suc rounds)
              os
              garbage
              env
              argv
              slot
              (record { calls = cs; history = h; mapped = none }))
    unfolding flasher main
    flasher_lem env argv mode slot d cs cs1 h asks file file_allocated allocated typed mapped fits e
          idle =
        rw (mode_of-Asks argv mode asks) (
          end_process-Released hw (suc fuel) (suc rounds) os initial garbage keeps b (ModeEnd mode)
            (descriptors os cs) _
            (run_mode-Held env mode slot d cs cs1 h file file_allocated mapped fits
              (run_on_card-ModeEnd env mode h allocated typed fits e idle)))
