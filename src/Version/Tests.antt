-- ===== src/Version/Tests.antt =====
-- The theorems on the version tool at a small card.
use svec.Base.{ℕ, ◌≡◌, ◌++◌, true, false, some, none, ◌==◌, if◌then◌else◌}
use svec.Version.{info_chars, print_build_info}
use svec.Version.Text.{bytes_at, until_zero, info_chars-until_zero}
use svec.Version.Main.{
  Settings, Card, initial, status_of, run_commands, print_base_meta_id, print_app_meta_id,
}
use svec.Version.Commands.{last_result, output_if, run_commands_lem}

-- "SVEC", then "b" and zeros.
abbrev words : ℕ → ℕ
words off = if off == 0x200 then 0x53564543 else 0x62000000

info_chars-until_zero_example : info_chars words 64 0x200 ≡ until_zero (bytes_at words 64 0x200)
info_chars-until_zero_example = info_chars-until_zero words 64 0x200

abbrev card : Card
card = record { meta_at = λ off. none; app_offset = some 0; build = some words }

abbrev all_commands : Settings
all_commands = record initial { slot = 2; base = true; app = true; buildinfo = true }

run_commands_lem_example : run_commands 0 all_commands card ≡ (
  status_of (last_result 0 all_commands card),
  (output_if true (print_base_meta_id 0 false 0 card)
        ++ output_if true (print_app_meta_id false 0 card))
      ++ output_if true (print_build_info card.build),
)
run_commands_lem_example = run_commands_lem 0 all_commands card
