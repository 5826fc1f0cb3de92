-- ===== src/Flasher/Main.antt =====
-- `main` of software/tools/vme-flasher/svec-flasher.c, with the mapping of the card's window through the
-- VME bus library, and what happens when the process ends.
use Prim.Native.String.{String}
use text.Mathlib.Text.{◌==◌ as str_eq}
use svec.Base.{
  ℕ, ◌+◌, ◌*◌, ◌%◌, ◌^◌, ltb, Bool, true, false, not, ◌&&◌, List, [], ◌∷◌, Option, none, some,
  if◌then◌else◌,
}
use svec.Base.Errors.{Code, ok, err, eperm}
use svec.Bus.{History, Hardware, Run, ret, exit, out_of_fuel, fault, Io, pure, ◌>>=◌, ◌>>◌}
use svec.Core.{Buffer}
use svec.Flasher.{Proc, enter_bootloader}
use svec.Flasher.Program.{program_flash}
use svec.Flasher.Afpga.{program_afpga}
use svec.VmeBus.{Mapping, Os, Calls, Sys}
use svec.VmeBus.Map.{vme_map, vme_unmap}

-- What the arguments ask for.
pub data Mode : Type 0 where
  usage : Mode
  to_flash : Bool → Mode
  direct : Mode

-- The tests of `argc` and `argv[3]`.
unfoldable pub mode_of : List String → Mode
mode_of (name ∷ slot ∷ file ∷ opt ∷ rest) =
    if str_eq opt "-b" then to_flash true else if str_eq opt "-f" then direct else to_flash false
mode_of (name ∷ slot ∷ file ∷ []) = to_flash false
mode_of (name ∷ slot ∷ []) = usage
mode_of (name ∷ []) = usage
mode_of [] = usage

-- `map.vme_addrl = slot * 0x80000 + BOOTLOADER_BASE`, an `unsigned int`.
abbrev pub window_address : ℕ → ℕ
window_address slot = (slot * 0x80000 + 0x70000) % 2 ^ 32

-- What the process finds outside: the file, whether memory was allocated for it and later for the
-- sector map, and the line typed at the prompt.
pub record Surroundings : Type 0 where
  pub file : Option Buffer
  pub file_malloc_ok : Bool
  pub malloc_ok : Bool
  pub confirm : List ℕ

-- The calls of the VME bus library, the accesses to the window, and `map` while `release_vme` is to be
-- called at exit.
pub record Process : Type 0 where
  pub calls : Calls
  pub history : History
  pub mapped : Option Mapping

abbrev pub on_window_run : {A : Type 0} → Run History A → Process → Run Process A
on_window_run (ret a h) s = ret a (record s { history = h })
on_window_run (exit c h) s = exit c (record s { history = h })
on_window_run (out_of_fuel h) s = out_of_fuel (record s { history = h })
on_window_run (fault h) s = fault (record s { history = h })

abbrev pub on_window : {A : Type 0} → Proc A → Io Process A
on_window m s = on_window_run (m s.history) s

abbrev pub on_bus_run : {A : Type 0} → Run Calls A → Process → Run Process A
on_bus_run (ret a cs) s = ret a (record s { calls = cs })
on_bus_run (exit c cs) s = exit c (record s { calls = cs })
on_bus_run (out_of_fuel cs) s = out_of_fuel (record s { calls = cs })
on_bus_run (fault cs) s = fault (record s { calls = cs })

abbrev pub on_bus : {A : Type 0} → Sys A → Io Process A
on_bus m s = on_bus_run (m s.calls) s

-- `map` as `init_vme` fills it in.
abbrev pub window : ℕ → Mapping
window slot = record {
  window_num = 0;
  user_va = 0;
  fd = 0;
  data_width = 32;
  am = 0x2f;
  read_prefetch_enabled = 0;
  read_prefetch_size = 0;
  bcast_select = 0;
  pci_addrl = 0;
  sizeu = 0;
  sizel = 0x1000;
  vme_addru = 0;
  vme_addrl = window_address slot;
}

module _ (os : Os) where
  -- `atexit` registers `release_vme`.
  unfoldable pub after_map : Option Mapping → Io Process (Unit {0})
  after_map none = exit 1
  after_map (some d) = λ s. ret tt (record s { mapped = some d })

  unfoldable pub init_vme : ℕ → Io Process (Unit {0})
  unfolding after_map
  init_vme slot = do m ← on_bus (vme_map os (window slot) 1); after_map m

  -- `garbage` is the value that `vme_unmap` restores where it could not read the flag.
  unfoldable pub release_vme : (garbage : ℕ) → Option Mapping → Io Process (Unit {0})
  release_vme garbage none = pure tt
  release_vme garbage (some d) = do done ← on_bus (vme_unmap os d true garbage); pure tt

  -- What is registered is called when `main` returns and on `exit`.
  unfoldable pub at_exit : (garbage : ℕ) → Io Process (Unit {0})
  unfolding release_vme
  at_exit garbage s = release_vme garbage s.mapped s

  -- Where a run of `main` ends the process by itself.
  abbrev pub end_process : {A : Type 0} → (garbage : ℕ) → Run Process A → Run Process A
  end_process garbage (ret a s) = (do at_exit garbage; pure a) s
  end_process garbage (exit c s) = (do at_exit garbage; exit c) s
  end_process garbage (out_of_fuel s) = out_of_fuel s
  end_process garbage (fault s) = fault s

module _ (hw : Hardware) (fuel rounds : ℕ) where
  -- From the return of `init_vme` on.
  unfoldable pub run_on_card : Surroundings → Mode → Buffer → Proc Code
  run_on_card env mode b = do
    version ← enter_bootloader hw
    elim mode [
      | usage ↦ pure ok
      | to_flash boot ↦ program_flash hw fuel rounds env.malloc_ok env.confirm b boot
      | direct ↦ program_afpga hw fuel b
    ]

  module _ (os : Os) where
    -- From the mode on: the file is opened and read before the window is mapped. The result of
    -- `malloc` is not looked at, and `fread` follows it.
    unfoldable pub load_and_run : Surroundings → Mode → (slot : ℕ) → Io Process Code
    unfolding run_on_card init_vme
    load_and_run env mode slot = elim env.file [
      | none ↦ pure (err eperm)
      | some b ↦
          if not env.file_malloc_ok && ltb 0 b.size
          then fault
          else do init_vme os slot; on_window (run_on_card env mode b)
    ]

    unfoldable pub run_mode : Surroundings → Mode → (slot : ℕ) → Io Process Code
    unfolding load_and_run
    run_mode env usage slot = pure ok
    run_mode env (to_flash boot) slot = load_and_run env (to_flash boot) slot
    run_mode env direct slot = load_and_run env direct slot

    unfoldable pub main : Surroundings → List String → (slot : ℕ) → Io Process Code
    unfolding run_mode
    main env argv slot = run_mode env (mode_of argv) slot

    -- The process as a whole.
    unfoldable pub flasher :
        (garbage : ℕ) → Surroundings → List String → (slot : ℕ) → Io Process Code
    unfolding main at_exit
    flasher garbage env argv slot s = end_process os garbage (main env argv slot s)
