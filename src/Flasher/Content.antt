-- ===== src/Flasher/Content.antt =====
-- What `flash_program` of software/tools/vme-flasher/svec-flasher.c leaves in a flash chip.
use svec.Base.{
  arith, ℕ, zero, suc, ◌-◌, ◌^◌, ◌≤◌, ◌<◌, ◌≡◌, refl, sym, subst, ap, flag, ◌∙◌, Bool, true, false,
  List, [], ◌∷◌, ◌++◌, ltb, slice, replicate,
}
use svec.Bus.{History, Hardware, Returns, returns, bind, weaken}
use svec.Core.{Buffer}
use svec.Core.Stream.{IsBytes}
use svec.Flasher.{flash_wren, flash_se, flash_pp, addr_bytes, flash_page_size, flash_program_page}
use svec.Flasher.Program.{erase_unless}
use svec.Flasher.Spi.{Ready, given, AllBelow}
use svec.Flasher.Commands.{
  After, During, poll, polled, Polled, Settles, flash_write_enable_lem, flash_erase_sector_lem,
  flash_program_page_lem,
}
use svec.Flasher.Chip.{
  Chip, Timing, erased, programmed, exec, exec-erase, exec-program, chip, addr_of-addr_bytes,
}
use svec.Flasher.Pages.{erased_unless, page_of}

AllBelow-append : (xs ys : List ℕ) → AllBelow xs → AllBelow ys → AllBelow (xs ++ ys)
AllBelow-append [] ys p q = q
AllBelow-append (x ∷ xs) ys p q = (p.0, AllBelow-append xs ys p.1 q)

AllBelow-slice : (f : ℕ → ℕ) (off n : ℕ) → ((j : ℕ) → f j < 256) → AllBelow (slice f off n)
unfolding slice
AllBelow-slice f off zero bytes = tt
AllBelow-slice f off (suc n) bytes = (bytes off, AllBelow-slice f (suc off) n bytes)

AllBelow-replicate : (n : ℕ) → AllBelow (replicate n 0xff)
AllBelow-replicate zero = tt
AllBelow-replicate (suc n) = (omega arith, AllBelow-replicate n)

-- The memory of the chip after some transactions, and for how many polls more it is busy.
abbrev pub content : (sector_size : ℕ) → Timing → Chip → List (List ℕ) → ℕ → ℕ
content sector_size time c0 past = (chip sector_size time c0 past).mem

abbrev pub busy_for : (sector_size : ℕ) → Timing → Chip → List (List ℕ) → ℕ
busy_for sector_size time c0 past = (chip sector_size time c0 past).busy

-- The chip is not selected and idle, and its memory has a property.
abbrev pub Holds : (sector_size : ℕ) → Timing → Chip → ((ℕ → ℕ) → Type 0) → History → Type 0
Holds sector_size time c0 P h =
    (past : List (List ℕ)) × After past h
    × (busy_for sector_size time c0 past ≡ 0)
    × P (content sector_size time c0 past)

-- The status register shows whether the chip is busy.
abbrev pub ShowsBusy : Hardware → (sector_size : ℕ) → Timing → Chip → Type 0
ShowsBusy hw sector_size time c0 =
    (past : List (List ℕ)) (h : History)
    → During past poll h
    → flag (given hw h) 0x01 ≡ ltb 0 (busy_for sector_size time c0 past)

-- Polls leave the chip as it is, but that time passes.
chip-polled :
    (sector_size : ℕ) (time : Timing) (c0 : Chip) (n : ℕ) (past : List (List ℕ))
    → chip sector_size time c0 (polled n past)
      ≡ record (chip sector_size time c0 past) { busy = busy_for sector_size time c0 past - n }
unfolding chip exec
chip-polled sector_size time c0 zero past =
    let all : busy_for sector_size time c0 past ≡ busy_for sector_size time c0 past - 0 =
      omega arith in
    λ i. record (chip sector_size time c0 past) { busy = all i }
chip-polled sector_size time c0 (suc n) past =
    let left : busy_for sector_size time c0 past - n - 1
        ≡ busy_for sector_size time c0 past - suc n =
      omega arith in
    ap (λ (c : Chip). record c { busy = c.busy - 1 }) (chip-polled sector_size time c0 n past)
    ∙ (λ i. record (chip sector_size time c0 past) { busy = left i })

module _ (hw : Hardware) (fuel : ℕ) (ready : Ready hw fuel) (rounds : ℕ) (sector_size : ℕ)
    (time : Timing) (bounded : (t : List (List ℕ)) → time t ≤ rounds) (c0 : Chip)
    (shows : ShowsBusy hw sector_size time c0) where
  busy-polled :
      (n : ℕ) (past : List (List ℕ))
      → busy_for sector_size time c0 (polled n past) ≡ busy_for sector_size time c0 past - n
  busy-polled n past = λ i. (chip-polled sector_size time c0 n past i).busy

  pub busy-Settles :
      (past : List (List ℕ)) → busy_for sector_size time c0 past ≤ rounds → Settles hw past rounds
  busy-Settles past short n h at enough =
      let over : ltb 0 (busy_for sector_size time c0 (polled n past)) ≡ false =
        ground (arith, busy-polled n past) in
      shows (polled n past) h at ∙ over

  -- A chip that was polled until it was seen idle is idle.
  Polled-Holds :
      (past : List (List ℕ)) (h : History)
      → Polled hw past rounds h
      → Holds sector_size time c0 (λ mem. mem ≡ content sector_size time c0 past) h
  Polled-Holds past h (n, most, e, (h1, at, seen)) =
      let shown = shows (polled n past) h1 at in
      let over : busy_for sector_size time c0 (polled (suc n) past) ≡ 0 =
        ground (arith, shown, seen, busy-polled n past, busy-polled (suc n) past) in
      (_, e, over, λ i. (chip-polled sector_size time c0 (suc n) past i).mem)

  pub erase_unless-content :
      (v : Bool) (at : ℕ) (past : List (List ℕ)) (h : History)
      → at < 2 ^ 24
      → After past h
      → busy_for sector_size time c0 past ≡ 0
      → Returns
          (λ u h'.
            Holds sector_size time c0
              (λ mem. mem ≡ erased_unless v sector_size at (content sector_size time c0 past))
              h')
          (erase_unless hw (suc fuel) (suc rounds) v at h)
  unfolding erase_unless chip
  erase_unless-content true at past h small e idle = returns _ _ (past, e, idle, refl)
  erase_unless-content false at past h small e idle =
      let enabled = (flash_wren ∷ []) ∷ past in
      let done =
        exec-erase sector_size (time past) (time enabled) (chip sector_size time c0 past) idle
          (addr_bytes at) in
      let short : busy_for sector_size time c0 ((flash_se ∷ addr_bytes at) ∷ enabled) ≤ rounds =
        subst (λ (c : Chip). c.busy ≤ rounds) (sym done) (bounded enabled) in
      bind (flash_write_enable_lem hw fuel ready past h e) (λ u h1 e1.
        weaken (flash_erase_sector_lem hw fuel ready rounds enabled at h1 (busy-Settles _ short) e1)
          (λ u' h2 p.
            let (past2, e2, idle2, same) = Polled-Holds _ h2 p in
            (
              past2,
              e2,
              idle2,
              same
                  ∙ (λ i. (done i).mem)
                  ∙ ap (λ a. erased sector_size a (content sector_size time c0 past))
                      (addr_of-addr_bytes at [] small),
            )))

  pub page-content :
      (at : ℕ) (b : Buffer) (off size : ℕ) (past : List (List ℕ)) (h : History)
      → IsBytes b
      → at < 2 ^ 24
      → After ((flash_wren ∷ []) ∷ past) h
      → busy_for sector_size time c0 past ≡ 0
      → Returns
          (λ u h'.
            Holds sector_size time c0
              (λ mem.
                mem ≡ programmed at (page_of b.mem off size) (content sector_size time c0 past))
              h')
          (flash_program_page hw (suc fuel) (suc rounds) at b off size h)
  unfolding chip
  page-content at b off size past h bytes small e idle =
      let enabled = (flash_wren ∷ []) ∷ past in
      let sent = addr_bytes at ++ page_of b.mem off size in
      let done =
        exec-program sector_size (time past) (time enabled) (chip sector_size time c0 past) idle
          sent in
      let short : busy_for sector_size time c0 ((flash_pp ∷ sent) ∷ enabled) ≤ rounds =
        subst (λ (c : Chip). c.busy ≤ rounds) (sym done) (bounded enabled) in
      weaken
        (flash_program_page_lem hw fuel ready rounds enabled at b off size h
          (AllBelow-append (slice b.mem off size) _ (AllBelow-slice b.mem off size bytes)
            (AllBelow-replicate (flash_page_size - size)))
          (busy-Settles _ short) e)
        (λ u h' p.
          let (past2, e2, idle2, same) = Polled-Holds _ h' p in
          (
            past2,
            e2,
            idle2,
            same
                ∙ (λ i. (done i).mem)
                ∙ ap (λ a. programmed a (page_of b.mem off size) (content sector_size time c0 past))
                    (addr_of-addr_bytes at (page_of b.mem off size) small),
          ))
