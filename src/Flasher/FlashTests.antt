-- ===== src/Flasher/FlashTests.antt =====
-- `flash_program` of software/tools/vme-flasher/svec-flasher.c on a card with a chip that works.
use svec.Base.{
  arith, ℕ, zero, suc, ◌+◌, ◌-◌, ◌%◌, ◌^◌, ◌≤◌, ◌<◌, ◌≡◌, refl, ap, ◌∙◌, inl, inr, ◌⊎◌, ltb, Bool,
  true, false, Bool-cases, List, [], ◌∷◌, ◌==◌, if◌then◌else◌, flag, bswap32, replicate, length,
}
use svec.Base.Errors.{ok}
use svec.Bus.{asked, rd, wr, wait, clock, History, Hardware, Returns}
use svec.Loader.{far_ready, csr_done, reg_csr, reg_far, reg_idr}
use svec.Core.{Buffer}
use svec.Flasher.{
  flash_wren, flash_pp, far_word, flash_rdid, flash_rdsr, flash_read, flash_wait_completion,
}
use svec.Flasher.Program.{id_mt25ql128, sector_size_of, is_yes, flash_program, program_flash}
use svec.Flasher.Whole.{Identifies, Both, program_flash_lem}
use svec.Flasher.Loading.{Serves}
use svec.Flasher.Boot.{BootEnd, program_flash-BootEnd}
use svec.Flasher.Commands.{Polled, flash_wait_completion_lem}
use svec.Flasher.Spi.{write_far, Spi, spi, Ready, given, all_below, all_below-at}
use svec.Flasher.Chip.{Chip, Timing, chip, addr_of, after_addr, addr_of-addr_bytes}
use svec.Flasher.Content.{Holds, busy-Settles}
use svec.Flasher.Progress.{Kept}
use svec.Flasher.Verify.{Works, reading, Stored}
use svec.Flasher.Verified.{Trailed, flash_program_lem}

abbrev pub blank_chip : Chip
blank_chip = record { mem = λ x. 0; wel = false; busy = 0 }

-- An erase or a page takes two polls.
abbrev pub two_polls : Timing
two_polls past = 2

-- What an MT25QL128 answers to `flash_rdid` after so many bytes.
abbrev identification : ℕ → ℕ
identification (suc zero) = 0x20
identification (suc (suc zero)) = 0xba
identification (suc (suc (suc zero))) = 0x18
identification _ = 0

-- What the chip gives back: the next byte of its memory to a read, its identification, whether
-- it is busy, and zero to all else.
abbrev answer_to : List (List ℕ) → List ℕ → ℕ
answer_to past [] = 0
answer_to past (op ∷ args) =
    if op == flash_read
    then (chip 0x10000 two_polls blank_chip past).mem
        (addr_of args + (length (after_addr args) - 1))
    else if op == flash_rdid
    then identification (length args)
    else if op == flash_rdsr
    then (if ltb 0 (chip 0x10000 two_polls blank_chip past).busy then 1 else 0)
    else 0

-- The SPI master is ready after a read or a pause.
abbrev ready_at : History → ℕ
ready_at (rd a v ∷ h) = 0x200
ready_at (wait us ∷ h) = 0x200
ready_at (wr a v ∷ h) = 0
ready_at (clock t ∷ h) = 0
ready_at [] = 0

abbrev pub flash_card : Hardware
flash_card = record {
  answer = λ h a.
      if a == reg_far
      then ready_at h + answer_to (spi h).past (spi h).sent % 256
      else if a == reg_idr
      then 0x53564543
      else if a == reg_csr
      then csr_done
      else 0;
  jiffies = λ h. 0;
  usecs_to_jiffies = λ us. us;
}

ready_all : all_below 256 (λ v. flag (0x200 + v) far_ready) ≡ true
unfolding flag
ready_all = refl

asked-ready_at : (h : History) → 1 ≤ asked h → ready_at h ≡ 0x200
asked-ready_at (rd a v ∷ h) e = refl
asked-ready_at (wait us ∷ h) e = refl
asked-ready_at (wr a v ∷ h) e = absurd (omega arith)
asked-ready_at (clock t ∷ h) e = absurd (omega arith)
asked-ready_at [] e = absurd (omega arith)

ready_at_bits : (h : History) → (ready_at h ≡ 0x200) ⊎ (ready_at h ≡ 0)
ready_at_bits (rd a v ∷ h) = inl refl
ready_at_bits (wait us ∷ h) = inl refl
ready_at_bits (wr a v ∷ h) = inr refl
ready_at_bits (clock t ∷ h) = inr refl
ready_at_bits [] = inr refl

flag_ready : (data_byte : ℕ) → flag (0x200 + data_byte % 256) far_ready ≡ true
flag_ready data_byte = all_below-at 256 (λ v. flag (0x200 + v) far_ready) _ ready_all (omega arith)

flash_card-Ready : Ready flash_card 1
flash_card-Ready = record {
  ready = λ h e. rw (asked-ready_at h e) (flag_ready (answer_to (spi h).past (spi h).sent));
  paused = λ h. flag_ready (answer_to (spi (wait 100000 ∷ h)).past (spi (wait 100000 ∷ h)).sent);
  word = λ h a. elim (Bool-cases (a == reg_far)) [
    | inl e ↦ rw e (omega (arith, ready_at_bits h))
    | inr e ↦ rw e (elim (Bool-cases (a == reg_idr)) [
      | inl e' ↦ rw e' (omega arith)
      | inr e' ↦ rw e' (elim (Bool-cases (a == reg_csr)) [
        | inl e'' ↦ rw e'' (omega arith)
        | inr e'' ↦ rw e'' (omega arith)
      ])
    ])
  ];
}

pub flash_card-Serves : Serves flash_card 0 0
unfolding flag
flash_card-Serves = record { room = λ h e. refl; done = λ h e. refl; word = flash_card-Ready.word }

flash_card-given : (h : History) → given flash_card h ≡ answer_to (spi h).past (spi h).sent % 2 ^ 8
flash_card-given h = omega (arith, ready_at_bits h)

abbrev blanks : ℕ → List ℕ
blanks n = replicate n 0xff

length-blanks : (n : ℕ) → length (blanks n) ≡ n
length-blanks zero = refl
length-blanks (suc n) = ap suc (length-blanks n)

read_at :
    (a k : ℕ) (past : List (List ℕ))
    → a + k < 2 ^ 24
    → answer_to past (reading a (suc k)) ≡ (chip 0x10000 two_polls blank_chip past).mem (a + k)
read_at a k past h =
    let at = addr_of-addr_bytes a (blanks (suc k)) (omega arith) in
    let count : length (blanks (suc k)) - 1 ≡ k = omega (arith, length-blanks (suc k)) in
    λ i. (chip 0x10000 two_polls blank_chip past).mem (at i + count i)

shown_bit : (b : Bool) → flag ((if b then 1 else 0) % 2 ^ 8) 0x01 ≡ b
unfolding flag
shown_bit true = refl
shown_bit false = refl

pub flash_card-Works : Works flash_card 1 2 0x10000 two_polls blank_chip
flash_card-Works = record {
  ready = flash_card-Ready;
  bounded = λ t. omega arith;
  shows = λ past h e.
      ap (λ v. flag v 0x01)
        (flash_card-given h ∙ ap (λ (s : Spi). answer_to s.past s.sent % 2 ^ 8) e)
      ∙ shown_bit (ltb 0 (chip 0x10000 two_polls blank_chip past).busy);
  reads = λ a k past h e idle small.
      flash_card-given h
      ∙ ap (λ (s : Spi). answer_to s.past s.sent % 2 ^ 8) e
      ∙ ap (λ v. v % 2 ^ 8) (read_at a k past small);
}

abbrev pub five : Buffer
five = record { mem = λ j. (10 + j) % 256; size = 5 }

-- A page and a part of one.
abbrev two_pages : Buffer
two_pages = record five { size = 300 }

flash_program_lem_example :
    Returns
      (λ c h'.
        (c ≡ ok)
        × Holds 0x10000 two_polls blank_chip
            (λ mem.
              (Stored 0x600000 two_pages mem × Trailed 0x10000 0x600000 two_pages mem)
              × Kept 0x10000 0x600000 two_pages (λ x. 0) mem)
            h')
      (flash_program flash_card 2 3 true 0x600000 two_pages id_mt25ql128 [])
unfolding sector_size_of spi chip
flash_program_lem_example =
    flash_program_lem flash_card 1 2 0x10000 two_polls blank_chip flash_card-Works 0x600000
      two_pages (λ j. omega arith) id_mt25ql128 [] [] refl (omega arith) refl refl refl

pub flash_card-Identifies : Identifies flash_card id_mt25ql128
flash_card-Identifies = record {
  manufacturer =
      λ past h e. flash_card-given h ∙ ap (λ (s : Spi). answer_to s.past s.sent % 2 ^ 8) e;
  memory_type =
      λ past h e. flash_card-given h ∙ ap (λ (s : Spi). answer_to s.past s.sent % 2 ^ 8) e;
  capacity = λ past h e. flash_card-given h ∙ ap (λ (s : Spi). answer_to s.past s.sent % 2 ^ 8) e;
}

program_flash_lem_example :
    Returns
      (λ c h'. (c ≡ ok) × Both 0x10000 two_polls blank_chip five (λ x. 0) h')
      (program_flash flash_card 2 3 true [] five false [])
unfolding sector_size_of spi chip
program_flash_lem_example =
    program_flash_lem flash_card 1 2 0x10000 two_polls blank_chip flash_card-Works id_mt25ql128
      flash_card-Identifies refl five (λ j. omega arith) [] [] [] (omega arith) refl refl

-- "yes" and a newline.
abbrev yes_line : List ℕ
yes_line = 121 ∷ 101 ∷ 115 ∷ 10 ∷ []

program_flash-BootEnd_example :
    Returns
      (BootEnd true 0x10000 two_polls blank_chip five (λ x. 0))
      (program_flash flash_card 2 3 true yes_line five true [])
unfolding sector_size_of spi is_yes chip
program_flash-BootEnd_example =
    program_flash-BootEnd flash_card 1 2 0x10000 two_polls blank_chip flash_card-Works id_mt25ql128
      flash_card-Identifies refl five (λ j. omega arith) yes_line [] [] (omega arith) refl refl

-- A chip that is busy with a page.
abbrev page_sent : List (List ℕ)
page_sent = (flash_pp ∷ 0 ∷ 0 ∷ 0 ∷ 7 ∷ []) ∷ (flash_wren ∷ []) ∷ []

abbrev sending : History
sending =
    wr reg_far 0
    ∷ wr reg_far (far_word 7)
    ∷ wr reg_far (far_word 0)
    ∷ wr reg_far (far_word 0)
    ∷ wr reg_far (far_word 0)
    ∷ wr reg_far (far_word flash_pp)
    ∷ wr reg_far 0
    ∷ wr reg_far (far_word flash_wren)
    ∷ []

flash_wait_completion_lem_example :
    Returns
      (λ u h'. Polled flash_card page_sent 2 h')
      (flash_wait_completion flash_card 2 3 sending)
unfolding spi chip flag far_word bswap32 write_far
flash_wait_completion_lem_example =
    flash_wait_completion_lem flash_card 1 flash_card-Ready 2 page_sent
      (busy-Settles flash_card 1 flash_card-Ready 2 0x10000 two_polls flash_card-Works.bounded
        blank_chip flash_card-Works.shows page_sent (omega arith))
      sending refl
