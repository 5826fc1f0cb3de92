-- ===== src/Flasher/Boot.antt =====
-- `program_flash` of software/tools/vme-flasher/svec-flasher.c with the flag for the bootloader: a file
-- for the whole flash, after a question to the user.
use svec.Base.{
  arith, ℕ, suc, ◌+◌, ◌^◌, ◌≤◌, ◌≡◌, refl, ap, ◌∙◌, true, false, Bool, List, not, ◌==◌,
  if◌then◌else◌, some,
}
use svec.Base.Errors.{Code, ok, err, eperm}
use svec.Bus.{History, Hardware, ret, Returns, returns, bind}
use svec.Core.{Buffer}
use svec.Core.Stream.{IsBytes}
use svec.Flasher.Program.{
  id_m25p128, id_mt25ql128, sector_size_of, is_yes, flash_program, program_flash,
}
use svec.Flasher.Commands.{After}
use svec.Flasher.Chip.{Chip, Timing, chip, exec}
use svec.Flasher.Content.{busy_for, content, Holds}
use svec.Flasher.Progress.{Kept}
use svec.Flasher.Verify.{Works, Stored}
use svec.Flasher.Verified.{flash_program-Stored}
use svec.Flasher.Whole.{Identifies, known_id, id-below, test_presence-After, read_id-After}

-- What a confirmed answer leads to, and any other.
abbrev pub BootEnd :
    Bool → (sector_size : ℕ) → Timing → Chip → Buffer → (mem0 : ℕ → ℕ) → Code → History → Type 0
BootEnd true sector_size time c0 b mem0 c h =
    (c ≡ ok) × Holds sector_size time c0 (λ mem. Stored 0 b mem × Kept sector_size 0 b mem0 mem) h
BootEnd false sector_size time c0 b mem0 c h =
    (c ≡ err eperm) × Holds sector_size time c0 (λ mem. mem ≡ mem0) h

module _ (hw : Hardware) (fuel rounds sector_size : ℕ) (time : Timing) (c0 : Chip)
    (works : Works hw fuel rounds sector_size time c0) (id : ℕ) (identifies : Identifies hw id)
    (known : sector_size_of id ≡ some sector_size) (b : Buffer) (bytes : IsBytes b) where
  confirmed-BootEnd :
      (yes_typed : Bool) (v : ℕ) (past : List (List ℕ)) (h : History)
      → b.size + 256 ≤ 2 ^ 24
      → sector_size_of v ≡ some sector_size
      → After past h
      → busy_for sector_size time c0 past ≡ 0
      → Returns (BootEnd yes_typed sector_size time c0 b (content sector_size time c0 past)) (
          (if not yes_typed
              then (λ s. ret (err eperm) s)
              else flash_program hw (suc fuel) (suc rounds) true 0 b v)
            h)
  confirmed-BootEnd true v past h fits known' e idle =
      flash_program-Stored hw fuel rounds sector_size time c0 works 0 b bytes v past h known'
        (omega arith) refl e idle
  confirmed-BootEnd false v past h fits known' e idle = returns _ _ (refl, (past, e, idle, refl))

  -- On a card with a working chip of a known kind, whatever it held, that is idle between two
  -- transactions, `program_flash` with the flag for the bootloader returns for every file of bytes
  -- that fits in the flash with one page more behind it. After an answer that begins with "yes" it
  -- returns zero, and the chip is idle, holds the file from the address zero on and is as before
  -- outside of its sectors; after any other answer it returns EPERM, and the chip is idle with its
  -- memory as before.
  pub program_flash-BootEnd :
      (confirm : List ℕ) (past : List (List ℕ)) (h : History)
      → b.size + 256 ≤ 2 ^ 24
      → After past h
      → busy_for sector_size time c0 past ≡ 0
      → Returns
          (BootEnd (is_yes confirm) sector_size time c0 b (content sector_size time c0 past))
          (program_flash hw (suc fuel) (suc rounds) true confirm b true h)
  unfolding program_flash sector_size_of chip exec
  program_flash-BootEnd confirm past h fits e idle =
      let is_known = known_id (id == id_m25p128) (id == id_mt25ql128) sector_size known in
      bind (test_presence-After hw fuel works.ready past h e) (λ p h1 (present, e1). rw present (
        bind (read_id-After hw fuel works.ready id identifies past h1 (id-below id is_known) e1)
          (λ v h2 (same, e2).
            let known' = ap sector_size_of same ∙ known in
            rw (known_id (v == id_m25p128) (v == id_mt25ql128) sector_size known')
              (confirmed-BootEnd (is_yes confirm) v _ h2 fits known' e2 idle))))
