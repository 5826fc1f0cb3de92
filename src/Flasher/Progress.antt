-- ===== src/Flasher/Progress.antt =====
-- The loop of `flash_program` in software/tools/vme-flasher/svec-flasher.c over the pages: what it has left in
-- a flash chip after so many bytes.
use svec.Base.{
  ◌==◌, arith, ℕ, zero, suc, ◌+◌, ◌-◌, ◌/◌, ◌%◌, ◌^◌, ◌≤◌, ◌<◌, ◌≡◌, refl, sym, ap, ◌∙◌, inl, inr,
  ◌⊎◌, Bool, true, false, Bool-cases, List, ltb, ltb→lt, le→ltb, length, get_elem?, set, some,
}
use svec.Bus.{History, Hardware, Returns, returns, bind}
use svec.Core.{Buffer}
use svec.Core.Stream.{IsBytes}
use svec.Flasher.{flash_page_size}
use svec.Flasher.Program.{flash_size, plen_of, program_loop}
use svec.Flasher.Bounds.{get_elem?-below, length-set}
use svec.Flasher.Spi.{Ready}
use svec.Flasher.Commands.{flash_write_enable_lem}
use svec.Flasher.Chip.{Chip, Timing, programmed}
use svec.Flasher.Content.{content, Holds, ShowsBusy, erase_unless-content, page-content}
use svec.Flasher.Pages.{Written, erased_unless, page_of, round-Written}
use svec.Flasher.Extent.{page_end, At, At-aligned, At-done}

-- In no sector that has an address of the data.
abbrev pub Outside : (sector_size addr : ℕ) → Buffer → ℕ → Type 0
Outside sector_size addr b x =
    (x / sector_size < addr / sector_size) ⊎ ((addr + b.size - 1) / sector_size < x / sector_size)

-- Outside of the sectors of the data the memory is what it was.
abbrev pub Kept : (sector_size addr : ℕ) → Buffer → (mem0 mem : ℕ → ℕ) → Type 0
Kept sector_size addr b mem0 mem = (x : ℕ) → Outside sector_size addr b x → mem x ≡ mem0 x

module _ (hw : Hardware) (fuel : ℕ) (ready : Ready hw fuel) (rounds : ℕ) (sector_size : ℕ)
    (time : Timing) (bounded : (t : List (List ℕ)) → time t ≤ rounds) (c0 : Chip)
    (shows : ShowsBusy hw sector_size time c0) where
  module _ (addr : ℕ) (b : Buffer) (bytes : IsBytes b) (fits : addr + b.size + 256 ≤ 2 ^ 24)
      (on_page : addr % 256 ≡ 0) (sectors : (sector_size ≡ 0x40000) ⊎ (sector_size ≡ 0x10000))
      (mem0 : ℕ → ℕ) where
    -- The first `n` bytes of the data are in the chip, and nothing else has changed.
    abbrev pub Progress : ℕ → List Bool → History → Type 0
    Progress n m h =
        Holds sector_size time c0
          (λ mem. Written sector_size addr b.mem n m mem × Kept sector_size addr b mem0 mem) h

    apart :
        (n x : ℕ)
        → n < b.size
        → Outside sector_size addr b x
        → ((x / sector_size == (addr + n) / sector_size) ≡ false)
          × ((x / 256 == (addr + n) / 256) ≡ false)
    apart n x h (inl before) = elim sectors [
      | inl e ↦ let lt = rw e at before in rw e (ground arith, ground arith)
      | inr e ↦ let lt = rw e at before in rw e (ground arith, ground arith)
    ]
    apart n x h (inr behind) = elim sectors [
      | inl e ↦ let lt = rw e at behind in rw e (ground arith, ground arith)
      | inr e ↦ let lt = rw e at behind in rw e (ground arith, ground arith)
    ]

    erased-apart :
        (v : Bool) (n x : ℕ) (mem : ℕ → ℕ)
        → n < b.size
        → Outside sector_size addr b x
        → erased_unless v sector_size (addr + n) mem x ≡ mem x
    erased-apart true n x mem h out = refl
    erased-apart false n x mem h out = rw (apart n x h out).0 refl

    programmed-apart :
        (n x : ℕ) (data_bytes : List ℕ) (mem : ℕ → ℕ)
        → n < b.size
        → Outside sector_size addr b x
        → programmed (addr + n) data_bytes mem x ≡ mem x
    programmed-apart n x data_bytes mem h out = rw (apart n x h out).1 refl

    page-Kept :
        (n : ℕ) (v : Bool) (at size : ℕ) (mem mem1 mem3 : ℕ → ℕ)
        → n < b.size
        → at ≡ addr + n
        → mem1 ≡ erased_unless v sector_size at mem
        → mem3 ≡ programmed at (page_of b.mem n size) mem1
        → Kept sector_size addr b mem0 mem
        → Kept sector_size addr b mem0 mem3
    page-Kept n v at size mem mem1 mem3 h here e1 e3 kept x out =
        rw (e3, here)
          (programmed-apart n x (page_of b.mem n size) mem1 h out
            ∙ rw (e1, here) (erased-apart v n x mem h out ∙ kept x out))

    same_sector :
        (n i : ℕ) → n % 256 ≡ 0 → i < 256 → (addr + n + i) / sector_size ≡ (addr + n) / sector_size
    same_sector n i aligned h = elim sectors [
      | inl e ↦ rw e (omega arith)
      | inr e ↦ rw e (omega arith)
    ]

    plen-bounds :
        (n : ℕ)
        → n < b.size
        → n % 256 ≡ 0
        → (plen_of b ≤ 256) × (n + 1 ≤ n + plen_of b) × At b.size (n + plen_of b)
    plen-bounds n h aligned = elim (Bool-cases (ltb flash_page_size b.size)) [
      | inl more ↦
          let several : 256 < b.size = ground arith in
          rw more (
            omega arith,
            omega arith,
            elim (Bool-cases (ltb (n + 256) b.size)) [
              | inl lt ↦ inl (omega arith, ltb→lt (n + 256) b.size lt)
              | inr over ↦ let last : b.size ≤ n + 256 = ground arith in inr (omega arith)
            ],
          )
      | inr last ↦
          let small : b.size ≤ 256 = ground arith in
          rw last (omega arith, omega arith, inr (omega arith))
    ]

    round_at :
        (n : ℕ) (m : List Bool) (v : Bool) (at size : ℕ) (mem mem1 mem3 : ℕ → ℕ)
        → Written sector_size addr b.mem n m mem
        → n % 256 ≡ 0
        → size ≤ 256
        → at ≡ addr + n
        → get_elem? m (at / sector_size) ≡ some v
        → mem1 ≡ erased_unless v sector_size at mem
        → mem3 ≡ programmed at (page_of b.mem n size) mem1
        → Written sector_size addr b.mem (n + size) (set m (at / sector_size) true) mem3
    round_at n m v at size mem mem1 mem3 w aligned small here found e1 e3 =
        rw (e3, e1, here)
          (round-Written sector_size addr b.mem n m mem w v bytes size small (omega arith)
            (λ i h. same_sector n i aligned h)
            (ap (λ a. get_elem? m (a / sector_size)) (sym here) ∙ found))

    pub program_loop-Progress :
        (pages n : ℕ) (m : List Bool) (h : History)
        → b.size ≤ n + pages
        → At b.size n
        → ((at : ℕ) → at < flash_size → at / sector_size < length m)
        → Progress n m h
        → Returns
            (λ u h'. (n' : ℕ) × (m' : List Bool) × (n' ≡ page_end b.size) × Progress n' m' h')
            (program_loop hw (suc fuel) (suc rounds) pages addr b sector_size n m h)
    unfolding program_loop
    program_loop-Progress zero n m h enough pos within p =
        rw (le→ltb n b.size (omega arith))
          (returns _ _ (n, m, At-done b.size n pos (omega arith), p))
    program_loop-Progress (suc pages) n m h enough pos within (past, e, idle, (w, kept)) =
        elim (Bool-cases (ltb n b.size)) [
          | inr over ↦
              rw over (
                returns _ _ (n, m, At-done b.size n pos (ground arith), (past, e, idle, (w, kept))))
          | inl under ↦
              let lt = ltb→lt n b.size under in
              let aligned : n % 256 ≡ 0 = At-aligned b.size n pos lt in
              let at = (addr + n) % 2 ^ 32 in
              let here : at ≡ addr + n = omega arith in
              let small : at < 2 ^ 24 = omega arith in
              let (v, found) = get_elem?-below m (at / sector_size) (within at small) in
              let (page, advances, pos') = plen-bounds n lt aligned in
              rw (under, found)
                (bind
                  (erase_unless-content hw fuel ready rounds sector_size time bounded c0 shows v at
                    past h small e idle)
                  (λ u h1 (past1, e1, idle1, mem1).
                    bind (flash_write_enable_lem hw fuel ready past1 h1 e1) (λ u' h2 e2.
                      bind
                        (page-content hw fuel ready rounds sector_size time bounded c0 shows at b n
                          (plen_of b) past1 h2 bytes small e2 idle1)
                        (λ u'' h3 (past3, e3, idle3, mem3).
                          program_loop-Progress pages (n + plen_of b)
                            (set m (at / sector_size) true) h3 (omega arith) pos'
                            (λ a lt'. rw (length-set m (at / sector_size) true) (within a lt'))
                            (
                              past3,
                              e3,
                              idle3,
                              (
                                round_at n m v at (plen_of b) (content sector_size time c0 past)
                                    (content sector_size time c0 past1)
                                    (content sector_size time c0 past3) w aligned page here found
                                    mem1 mem3,
                                page-Kept n v at (plen_of b) (content sector_size time c0 past)
                                    (content sector_size time c0 past1)
                                    (content sector_size time c0 past3) lt here mem1 mem3 kept,
                              ),
                            )))))
        ]
