-- ===== src/Driver/Tests.antt =====
-- The theorems on the board driver at a kernel that grants everything.
use Prim.Native.String.{String}
use svec.Base.{
  arith, ℕ, ◌+◌, ◌-◌, ◌≡◌, refl, inl, inr, Bool, true, false, List, [], ◌∷◌, ◌++◌, if◌then◌else◌,
}
use svec.Base.Errors.{Code, ok, err, ebusy}
use svec.Bus.{Io, ret, Returns, returns, pure, ◌>>=◌}
use svec.Fpga.Board.{Board}
use svec.Core.{Svec, Buffer}
use svec.Core.Samples.{card, card-Serves, card-KeepsTime, five, two, mod_256, blank, some_image}
use svec.Core.Manager.{load_image}
use svec.Core.Image.{image, ImageEnd}
use svec.Fpga.{meta_of_words}
use svec.Fpga.Holding.{Ends, idle}
use svec.Driver.{ptr, Mgr, Device, Dev}
use svec.Driver.Compat.{
  Class, Manager, Documented, GetEnd, LockEnd, fpga_mgr_get, compat_svec_fw_load,
}
use svec.Driver.Probe.{zero_meta, svec_probe, svec_remove}
use svec.Driver.Firmware.{svec_fw_load, firmware_name_store}
use svec.Driver.Manager.{Refused, fpga_mgr_get_lem}
use svec.Driver.Loading.{LoadEnd, exited, compat_svec_fw_load_lem, svec_fw_load_lem}
use svec.Driver.States.{IsPresent, ProbeEnd}
use svec.Driver.Ends.{Oops, svec_probe_lem}
use svec.Driver.Reprogram.{
  StoreEnd, RemoveEnd, svec_remove-IsPresent, firmware_name_store-load_image,
}
use svec.Driver.Success.{Grants, SuccessEnd, firmware_name_store-Serves}
use svec.Driver.Invariant.{probed, here, after, SoundFrom, Reaches-Sound}
use svec.Driver.Writers.{System, Reach}
use svec.Driver.Race.{IsSafe}
use svec.Driver.Frees.{Reach-IsSafe-frees}
use svec.Driver.Show.{shown, svec_dbg_meta, thirteen, has_app, svec_dbg_meta_lem}
use svec.Driver.Samples.{none_lost, host, unused, running, absent, probed_device, probe_works}

abbrev put_all : Io Mgr (Unit {0})
put_all s =
    ret tt (record s { refs = s.refs - 1; module_refs = s.module_refs - 1; ref_mutex = false })

abbrev all_there : Class
all_there = record { class_find_device = true; to_fpga_manager = true; try_module_get = true }

fpga_mgr_get_lem_example :
    Returns
      (λ p s'. GetEnd put_all unused p s' × Refused all_there unused p)
      (fpga_mgr_get all_there unused)
fpga_mgr_get_lem_example = fpga_mgr_get_lem all_there put_all (λ s. refl) unused

-- A manager that counts its references and has a lock of its own.
abbrev try_lock : Bool → Io Mgr Code
try_lock true s = ret (err ebusy) s
try_lock false s = ret ok (record s { ref_mutex = true })

abbrev manager : Manager
manager = record {
  fpga_mgr_get = λ s. ret ptr (record s { refs = s.refs + 1 });
  fpga_mgr_lock = λ s. try_lock s.ref_mutex s;
  fpga_mgr_unlock = λ s. ret tt (record s { ref_mutex = false });
  fpga_mgr_put = λ s. ret tt (record s { refs = s.refs - 1 });
}

counted : (n : ℕ) → n + 1 - 1 ≡ n
counted n = omega arith

manager-Documented : Documented manager
manager-Documented = record {
  gets = λ s. returns _ _ (λ i. ret tt (record s { refs = counted s.refs i }));
  locks = λ s. locked s.ref_mutex s refl;
}
  where
    locked :
        (b : Bool) (s : Mgr)
        → b ≡ s.ref_mutex
        → Returns (λ c s'. LockEnd manager.fpga_mgr_unlock s c s') (try_lock b s)
    locked true s e = returns _ _ refl
    locked false s e = returns _ _ (λ i. ret tt (record s { ref_mutex = e i }))

running-IsPresent : IsPresent host unused running
running-IsPresent = (true, refl, inr (inl refl))

-- A file of two buffers, whatever its name.
abbrev file : String → List Buffer
file name = five ∷ two ∷ []

abbrev load : Board → String → Io Svec Code
load b name = load_image card 2 0 (file name)

abbrev unregister : Dev (Unit {0})
unregister = do ignored ← svec_remove host; pure tt

firmware_name_store-load_image_example :
    Returns
      (StoreEnd host unused (ImageEnd card blank (image (five ∷ two ∷ []))) 9 running)
      (firmware_name_store host manager load unregister "svec.bin\n" 9 running)
firmware_name_store-load_image_example =
    firmware_name_store-load_image host manager manager-Documented load unregister (λ d. refl) card
      card-KeepsTime 1 (omega arith) (omega arith) host unused file "svec.bin\n" 9 running
      (λ b name null. refl) ((λ j. mod_256 (10 + j)), ((λ j. mod_256 (20 + j)), tt)) some_image
      running-IsPresent

-- A load that fails.
abbrev refusing : Board → String → Io Svec Code
refusing b name s = ret (err ebusy) s

abbrev Refusal : Code → Svec → Type 0
Refusal c s = (c ≡ err ebusy) × (s ≡ blank)

compat_svec_fw_load_lem_example :
    Returns (LoadEnd Refusal running) (compat_svec_fw_load manager refusing "svec.bin" running)
compat_svec_fw_load_lem_example =
    compat_svec_fw_load_lem manager manager-Documented refusing "svec.bin" Refusal running
      (returns _ _ (refl, refl))

svec_fw_load_lem_example :
    Returns
      (LoadEnd Refusal (record running { fpga = exited running.fpga }))
      (svec_fw_load host manager refusing "svec.bin" running)
svec_fw_load_lem_example =
    svec_fw_load_lem host manager manager-Documented refusing "svec.bin" Refusal running refl
      (returns _ _ (refl, refl))

svec_probe_lem_example : Ends (ProbeEnd host unused absent) Oops (svec_probe host absent)
svec_probe_lem_example =
    svec_probe_lem host false unused (idle zero_meta zero_meta []) blank none_lost (inl refl)

svec_remove-IsPresent_example :
    Returns (λ c d'. (c ≡ ok) × RemoveEnd unused running d') (svec_remove host running)
svec_remove-IsPresent_example = svec_remove-IsPresent host host unused running running-IsPresent

Reaches-Sound_example : SoundFrom unused absent probed_device
Reaches-Sound_example =
    Reaches-Sound unused absent probed_device (refl, inl refl)
      (after absent absent probed_device (here absent)
        (probed host absent probed_device ok refl probe_works))

-- Thirteen words, of which the ninth is the capabilities.
abbrev some_words : List ℕ
some_words = 1 ∷ 2 ∷ 3 ∷ 4 ∷ 5 ∷ 6 ∷ 7 ∷ 8 ∷ 9 ∷ 10 ∷ 11 ∷ 12 ∷ 13 ∷ []

abbrev informed : Device
informed = record running { fpga = idle (meta_of_words some_words) (meta_of_words []) [] }

svec_dbg_meta_lem_example :
    shown (svec_dbg_meta informed)
    ≡ thirteen some_words
      ++ (if has_app informed.fpga.svec_fpga informed.fpga.app_pdev then thirteen [] else [])
svec_dbg_meta_lem_example = svec_dbg_meta_lem informed some_words [] refl refl

manager-Grants : Grants manager unused
manager-Grants = record {
  taken = record unused { refs = 2 };
  locked = record unused { refs = 2; ref_mutex = true };
  gets = refl;
  locks = refl;
  unlocks = refl;
  puts = refl;
}

firmware_name_store-Serves_example :
    Returns
      (SuccessEnd unused (ImageEnd card blank (image (five ∷ two ∷ [])) ok) 9 running)
      (firmware_name_store host manager load unregister "svec.bin\n" 9 running)
firmware_name_store-Serves_example =
    firmware_name_store-Serves host manager unregister (λ d. refl) card 0 card-Serves card-KeepsTime
      1 (omega arith) (omega arith) (omega arith) host unused file "svec.bin\n" 9 running
      ((λ j. mod_256 (10 + j)), ((λ j. mod_256 (20 + j)), tt)) some_image running-IsPresent
      manager-Grants refl

-- With an FPGA device that the driver refers to.
abbrev loaded_device : Device
loaded_device = record running {
  fpga = record (idle zero_meta zero_meta []) {
    svec_fpga = true;
    allocated = true;
    mapped = true;
    registered = true;
  };
}

abbrev load_nothing : Board → String → Io Svec Code
load_nothing b name = pure ok

Reach-IsSafe-frees_example :
    ((s : System) → Reach host manager load_nothing 2 loaded_device s → IsSafe s)
    × ((s : System) × Reach host manager load_nothing 2 loaded_device s × (s.shared.frees ≡ 2))
Reach-IsSafe-frees_example =
    Reach-IsSafe-frees host manager manager-Documented load_nothing (λ b name s. returns ok s tt) 2
      loaded_device refl
