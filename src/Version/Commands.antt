-- ===== src/Version/Commands.antt =====
-- The exit status and the output of software/tools/svec-firmware-version.c.
use svec.Base.{ℕ, ◌≡◌, refl, ap, Bool, true, false, [], ◌++◌, if◌then◌else◌, append-nil}
use svec.Text.{Output}
use svec.Version.{print_build_info}
use svec.Version.Main.{
  Settings, Card, command, status_of, run_commands, print_base_meta_id, print_app_meta_id,
}

-- Whether the command that ran last succeeded: -B comes after -a, and that after -b.
abbrev pub last_result : ℕ → Settings → Card → Bool
last_result metadata s c =
    if s.buildinfo
    then (print_build_info c.build).0
    else if s.app
    then (print_app_meta_id s.singleline s.verbose c).0
    else if s.base
    then (print_base_meta_id metadata s.singleline s.verbose c).0
    else true

abbrev pub output_if : Bool → Bool × Output → Output
output_if b r = if b then r.1 else []

commands_in_order :
    (base app build : Bool) (r1 r2 r3 : Bool × Output)
    → command build r3 (command app r2 (command base r1 (true, []))) ≡ (
      (if build then r3.0 else if app then r2.0 else if base then r1.0 else true),
      (output_if base r1 ++ output_if app r2) ++ output_if build r3,
    )
commands_in_order false false false r1 r2 r3 = refl
commands_in_order false false true r1 r2 r3 = refl
commands_in_order false true false r1 r2 r3 = rw (append-nil r2.1) refl
commands_in_order false true true r1 r2 r3 = refl
commands_in_order true false false r1 r2 r3 = rw (append-nil r1.1, append-nil r1.1) refl
commands_in_order true false true r1 r2 r3 = rw (append-nil r1.1) refl
commands_in_order true true false r1 r2 r3 = rw (append-nil (r1.1 ++ r2.1)) refl
commands_in_order true true true r1 r2 r3 = refl

-- Whatever is asked for, the output is that of -b, of -a and of -B in this order, of those that are
-- asked for, and the status is that of the last of them alone, a success if there is none.
pub run_commands_lem :
    (metadata : ℕ) (s : Settings) (c : Card)
    → run_commands metadata s c ≡ (
      status_of (last_result metadata s c),
      (output_if s.base (print_base_meta_id metadata s.singleline s.verbose c)
            ++ output_if s.app (print_app_meta_id s.singleline s.verbose c))
          ++ output_if s.buildinfo (print_build_info c.build),
    )
unfolding run_commands
run_commands_lem metadata s c =
    ap (λ r. (status_of r.0, r.1))
      (commands_in_order s.base s.app s.buildinfo
        (print_base_meta_id metadata s.singleline s.verbose c)
        (print_app_meta_id s.singleline s.verbose c) (print_build_info c.build))
