-- ===== src/Flasher/Verified.antt =====
-- `flash_program` of software/tools/vme-flasher/svec-flasher.c as a whole, on a card with a working
-- flash chip.
use svec.Base.{
  sym, subst, Bool, arith, ℕ, zero, suc, ◌+◌, ◌/◌, ◌%◌, ◌^◌, ◌≤◌, ◌<◌, ◌≡◌, refl, ◌⊎◌, true, false,
  List, ◌==◌, replicate, some,
}
use svec.Base.Errors.{ok}
use svec.Bus.{History, Hardware, Returns, bind, weaken}
use svec.Core.{Buffer}
use svec.Core.Stream.{IsBytes}
use svec.Flasher.Program.{flash_size, sector_size_of, id_m25p128, id_mt25ql128, flash_program}
use svec.Flasher.Bounds.{sector_sizes, map-within}
use svec.Flasher.Commands.{After}
use svec.Flasher.Chip.{Chip, Timing, chip}
use svec.Flasher.Pages.{Written, Marked}
use svec.Flasher.Progress.{Kept, program_loop-Progress}
use svec.Flasher.Extent.{page_end, page_end-reached, At-start}
use svec.Flasher.Content.{busy_for, Holds}
use svec.Flasher.Verify.{Works, Stored, verify-ok}

not_Marked : (n t : ℕ) {A : Type 0} → Marked (replicate n false) t → A
not_Marked zero t e = absurd cc
not_Marked (suc n) zero e = absurd cc
not_Marked (suc n) (suc t) e = not_Marked n t e

-- Behind the data, up to the end of the last page that is written, is what stands behind the buffer, and in
-- the sectors of the data nothing after that.
abbrev pub Trailed : (sector_size addr : ℕ) → Buffer → (ℕ → ℕ) → Type 0
Trailed sector_size addr b mem =
    ((j : ℕ) → b.size ≤ j → j < page_end b.size → mem (addr + j) ≡ b.mem j)
    × ((i j : ℕ)
        → i < b.size
        → page_end b.size ≤ j
        → (addr + j) / sector_size ≡ (addr + i) / sector_size
        → mem (addr + j) ≡ 0xff)

module _ (hw : Hardware) (fuel rounds sector_size : ℕ) (time : Timing) (c0 : Chip)
    (works : Works hw fuel rounds sector_size time c0) (addr : ℕ) (b : Buffer)
    (bytes : IsBytes b) where
  abbrev memory : List (List ℕ) → ℕ → ℕ
  memory past = (chip sector_size time c0 past).mem

  known_size :
      (flash_id : ℕ)
      → sector_size_of flash_id ≡ some sector_size
      → (sector_size ≡ 0x40000) ⊎ (sector_size ≡ 0x10000)
  unfolding sector_size_of
  known_size flash_id known =
      sector_sizes (flash_id == id_m25p128) (flash_id == id_mt25ql128) sector_size known

  Written-Trailed :
      (n : ℕ) (m : List Bool) (mem : ℕ → ℕ)
      → n ≡ page_end b.size
      → Written sector_size addr b.mem n m mem
      → Stored addr b mem × Trailed sector_size addr b mem
  Written-Trailed n m mem end w =
      let reached = page_end-reached b.size in
      (
        (λ j less. w.held j (omega (arith, end, reached))),
        (
          (λ j behind less. w.held j (omega (arith, end, less))),
          (λ i j less behind same.
              w.blank (addr + j)
                (subst (Marked m) (sym same) (w.marked i (omega (arith, end, reached))))
                (omega (arith, end, behind))),
        ),
      )

  abbrev Flashed : (mem0 mem : ℕ → ℕ) → Type 0
  Flashed mem0 mem =
      (Stored addr b mem × Trailed sector_size addr b mem) × Kept sector_size addr b mem0 mem

  -- If the data is bytes and starts on a page, and it and one page more fit in the flash behind it,
  -- then on a card with a working chip of a known kind, whatever it held, that is idle between two
  -- transactions, `flash_program` returns zero; the chip is then idle, holds the data from the
  -- address on, and is as before outside of the sectors that have an address of the data. Behind data of
  -- more than one page, the rest of the last page holds the bytes that stand behind the buffer; the rest of
  -- the sectors behind the pages is blank.
  pub flash_program_lem :
      (flash_id : ℕ) (past : List (List ℕ)) (h : History)
      → sector_size_of flash_id ≡ some sector_size
      → addr + b.size + 256 ≤ 2 ^ 24
      → addr % 256 ≡ 0
      → After past h
      → busy_for sector_size time c0 past ≡ 0
      → Returns
          (λ c h'. (c ≡ ok) × Holds sector_size time c0 (Flashed (memory past)) h')
          (flash_program hw (suc fuel) (suc rounds) true addr b flash_id h)
  unfolding flash_program
  flash_program_lem flash_id past h known fits on_page e idle =
      rw (flash_program, known)
        (bind
          (program_loop-Progress hw fuel works.ready rounds sector_size time works.bounded c0
            works.shows addr b bytes fits on_page (known_size flash_id known) (memory past) b.size 0
            (replicate (flash_size / sector_size) false) h (omega arith) (At-start b.size)
            (map-within hw (suc fuel) (suc rounds) flash_id sector_size known)
            (past, e, idle, (start past, λ x out. refl)))
          (λ u h1 (n, m, end, (past1, e1, idle1, (w, kept))).
            let written = Written-Trailed n m (memory past1) end w in
            verify-ok hw fuel rounds sector_size time c0 works addr b bytes (Flashed (memory past))
              past1 h1 (omega arith) written.0 (written, kept) e1 idle1))
    where
      start :
          (past : List (List ℕ))
          → Written sector_size addr b.mem 0
              (replicate (flash_size / sector_size) false)
              (memory past)
      start past = record {
        held = λ j less. absurd (omega arith);
        blank = λ x marked behind. not_Marked (flash_size / sector_size) (x / sector_size) marked;
        marked = λ j less. absurd (omega arith);
      }

  -- The data, and what is outside of its sectors.
  pub flash_program-Stored :
      (flash_id : ℕ) (past : List (List ℕ)) (h : History)
      → sector_size_of flash_id ≡ some sector_size
      → addr + b.size + 256 ≤ 2 ^ 24
      → addr % 256 ≡ 0
      → After past h
      → busy_for sector_size time c0 past ≡ 0
      → Returns
          (λ c h'.
            (c ≡ ok)
            × Holds sector_size time c0
                (λ mem. Stored addr b mem × Kept sector_size addr b (memory past) mem)
                h')
          (flash_program hw (suc fuel) (suc rounds) true addr b flash_id h)
  flash_program-Stored flash_id past h known fits on_page e idle =
      weaken (flash_program_lem flash_id past h known fits on_page e idle)
        (λ c h' (fine, (past', e', idle', ((stored, trailed), kept))).
          (fine, (past', e', idle', (stored, kept))))
