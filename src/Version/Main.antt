-- ===== src/Version/Main.antt =====
-- The commands and `main` of software/tools/svec-firmware-version.c. `getopt` and `sscanf` are the
-- C library's: the options come as a list, with the number that -s was given.
use svec.Base.{
  ℕ, ◌+◌, Bool, true, false, List, [], ◌∷◌, ◌++◌, ◌==◌, if◌then◌else◌, Option, some, none,
}
use svec.Fpga.{Meta}
use svec.Text.{Output, str}
use svec.Version.{print_meta_id, print_meta_id_one, print_build_info}

-- What `mmap` gives for a file descriptor: the structure at an offset, the register with the
-- application's offset, and the words of the build information; `none` where it fails.
pub record Card : Type 0 where
  pub meta_at : ℕ → Option Meta
  pub app_offset : Option ℕ
  pub build : Option (ℕ → ℕ)

abbrev pub print_rom : (singleline : Bool) (verbose : ℕ) → Meta → Output
print_rom singleline verbose rom =
    if singleline then print_meta_id_one verbose rom else print_meta_id verbose rom

-- The offset of the metadata is that of the generated register map.
unfoldable pub print_base_meta_id : ℕ → Bool → ℕ → Card → Bool × Output
print_base_meta_id metadata singleline verbose c = elim (c.meta_at metadata) [
  | none ↦ (false, [])
  | some rom ↦ (true, str "base: " ∷ print_rom singleline verbose rom)
]

-- -1 if the mapping fails.
unfoldable pub app_meta_id_offset : Card → Option ℕ
app_meta_id_offset c = c.app_offset

unfoldable pub print_app_meta_id : Bool → ℕ → Card → Bool × Output
unfolding app_meta_id_offset
print_app_meta_id singleline verbose c = elim (app_meta_id_offset c) [
  | none ↦ (false, [])
  | some offset ↦ if offset == 0 then (true, []) else elim (c.meta_at offset) [
    | none ↦ (false, [])
    | some rom ↦ (true, str "application: " ∷ print_rom singleline verbose rom)
  ]
]

pub data Opt : Type 0 where
  opt_help opt_version opt_app opt_base opt_verbose opt_single opt_build : Opt
  opt_slot : ℕ → Opt

pub record Settings : Type 0 where
  pub slot : ℕ
  pub app : Bool
  pub base : Bool
  pub buildinfo : Bool
  pub verbose : ℕ
  pub singleline : Bool

-- The loop over the options; `none` for one that prints its text and exits with success.
unfoldable pub parse : List Opt → Settings → Option Settings
parse [] s = some s
parse (opt_help ∷ os) s = none
parse (opt_version ∷ os) s = none
parse (opt_slot n ∷ os) s = parse os (record s { slot = n })
parse (opt_app ∷ os) s = parse os (record s { app = true })
parse (opt_base ∷ os) s = parse os (record s { base = true })
parse (opt_verbose ∷ os) s = parse os (record s { verbose = s.verbose + 1 })
parse (opt_single ∷ os) s = parse os (record s { singleline = true })
parse (opt_build ∷ os) s = parse os (record s { buildinfo = true })

abbrev pub initial : Settings
initial = record {
  slot = 0;
  app = false;
  base = false;
  buildinfo = false;
  verbose = 0;
  singleline = false;
}

-- The status of the process.
pub data Status : Type 0 where
  success failure : Status

abbrev pub status_of : Bool → Status
status_of true = success
status_of false = failure

-- `if (flag) err = command;`
abbrev pub command : Bool → Bool × Output → Bool × Output → Bool × Output
command false (r, out) (err, printed) = (err, printed)
command true (r, out) (err, printed) = (r, printed ++ out)

-- The commands after the file is open. `err` is zero before the first, from `atexit`.
unfoldable pub run_commands : ℕ → Settings → Card → Status × Output
run_commands metadata s c =
    let r1 = command s.base (print_base_meta_id metadata s.singleline s.verbose c) (true, []) in
    let r2 = command s.app (print_app_meta_id s.singleline s.verbose c) r1 in
    let r3 = command s.buildinfo (print_build_info c.build) r2 in (status_of r3.0, r3.1)

-- `open_card` is what `open` gives for the path of a slot.
unfoldable pub main : (metadata : ℕ) (open_card : ℕ → Option Card) → List Opt → Status × Output
unfolding parse run_commands
main metadata open_card opts = elim (parse opts initial) [
  | none ↦ (success, [])
  | some s ↦
      if s.slot == 0
      then (failure, [])
      else elim (open_card s.slot) [ none ↦ (failure, []) | some c ↦ run_commands metadata s c ]
]
