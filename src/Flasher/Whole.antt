-- ===== src/Flasher/Whole.antt =====
-- `program_flash` of software/tools/vme-flasher/svec-flasher.c: the header and the bitstream on one
-- flash chip.
use svec.Base.{
  arith, ℕ, zero, suc, ◌+◌, ◌*◌, ◌/◌, ◌%◌, ◌^◌, ◌≤◌, ◌<◌, ◌≡◌, refl, ap, ◌∙◌, inl, inr, ◌⊎◌, Bool,
  true, false, not, ◌&&◌, List, [], ◌∷◌, ◌==◌, if◌then◌else◌, ltb, flag, none, some, bswap32,
  bswap32-bswap32,
}
use svec.Base.Errors.{ok}
use svec.Bus.{wait, History, Hardware, Returns, returns, bind, weaken}
use svec.Loader.{far_ready, reg_far}
use svec.Core.{Buffer}
use svec.Core.Stream.{IsBytes}
use svec.Flasher.{
  flash_rdid, csr_writel, csr_readl, store, load, usleep, spi_test_presence, flash_read_id,
}
use svec.Flasher.Sdb.{sdb_header, sdb_header_bytes, byte_at}
use svec.Flasher.Program.{
  id_m25p128, id_mt25ql128, sector_size_of, bootloader_sdb_base, bootloader_bitstream_base,
  program_flash,
}
use svec.Flasher.Bounds.{sector_sizes}
use svec.Flasher.Spi.{spi, write_far, deselect, Ready, given, deselect-over, and-both}
use svec.Flasher.Commands.{After, During, select, send, receive, finish}
use svec.Flasher.Chip.{Chip, Timing, chip, exec}
use svec.Flasher.Content.{busy_for, content, Holds}
use svec.Flasher.Progress.{Outside}
use svec.Flasher.Verify.{Works, Stored}
use svec.Flasher.Verified.{flash_program-Stored}

-- The chip gives its identification, the most significant byte first.
pub record Identifies (hw : Hardware) (id : ℕ) : Type 0 where
  pub manufacturer :
      (past : List (List ℕ)) (h : History)
      → During past (flash_rdid ∷ 0xff ∷ []) h
      → given hw h ≡ id / 2 ^ 16 % 2 ^ 8
  pub memory_type :
      (past : List (List ℕ)) (h : History)
      → During past (flash_rdid ∷ 0xff ∷ 0xff ∷ []) h
      → given hw h ≡ id / 2 ^ 8 % 2 ^ 8
  pub capacity :
      (past : List (List ℕ)) (h : History)
      → During past (flash_rdid ∷ 0xff ∷ 0xff ∷ 0xff ∷ []) h
      → given hw h ≡ id % 2 ^ 8

module _ (hw : Hardware) (fuel : ℕ) (ready : Ready hw fuel) where
  pub test_presence-After :
      (past : List (List ℕ)) (h : History)
      → After past h
      → Returns (λ p h'. (p ≡ true) × After past h') (spi_test_presence hw h)
  unfolding spi_test_presence csr_writel csr_readl store load usleep spi write_far flag bswap32
  test_presence-After past h e = returns _ _ (
    ap (λ w. flag w far_ready) (bswap32-bswap32 _ (ready.word _ reg_far)) ∙ ready.paused _,
    ap deselect e,
  )

  pub read_id-After :
      (id : ℕ) (identifies : Identifies hw id) (past : List (List ℕ)) (h : History)
      → id < 2 ^ 24
      → After past h
      → Returns
          (λ v h'. (v ≡ id) × After ((flash_rdid ∷ 0xff ∷ 0xff ∷ 0xff ∷ []) ∷ past) h')
          (flash_read_id hw (suc fuel) h)
  unfolding flash_read_id usleep spi
  read_id-After id identifies past h small e =
      bind (weaken (deselect-over hw fuel ready h) (λ u h' e'. e' ∙ ap deselect e)) (λ u h1 e1.
        bind (select hw fuel ready past (wait 10 ∷ h1) e1) (λ u2 h2 e2.
          bind (select hw fuel ready past (wait 10 ∷ h2) e2) (λ u3 h3 e3.
            bind (send hw fuel ready past flash_rdid [] h3 (omega arith) e3) (λ u4 h4 e4.
              bind (receive hw fuel ready past (flash_rdid ∷ []) h4 e4) (λ b2 h5 (at2, d2, g2, e5).
                bind (receive hw fuel ready past (flash_rdid ∷ 0xff ∷ []) h5 e5)
                  (λ b1 h6 (at1, d1, g1, e6).
                    bind (receive hw fuel ready past (flash_rdid ∷ 0xff ∷ 0xff ∷ []) h6 e6)
                      (λ b0 h7 (at0, d0, g0, e7).
                        bind (finish hw fuel ready past flash_rdid (0xff ∷ 0xff ∷ 0xff ∷ []) h7 e7)
                          (λ u8 h8 e8.
                            let hi = g2 ∙ identifies.manufacturer past at2 d2 in
                            let mid = g1 ∙ identifies.memory_type past at1 d1 in
                            let lo = g0 ∙ identifies.capacity past at0 d0 in
                            let whole : (b2 * 2 ^ 16 + b1 * 2 ^ 8 + b0) % 2 ^ 32 ≡ id =
                              omega (arith, hi, mid, lo) in
                            returns _ _ (whole, e8)))))))))

pub known_id :
    (m25p128 mt25ql128 : Bool) (size : ℕ)
    → (if m25p128 then some 0x40000 else if mt25ql128 then some 0x10000 else none) ≡ some size
    → (not m25p128 && not mt25ql128) ≡ false
known_id true mt25ql128 size e = refl
known_id false true size e = refl
known_id false false size e = absurd cc

pub id-below : (id : ℕ) → (not (id == id_m25p128) && not (id == id_mt25ql128)) ≡ false → id < 2 ^ 24
id-below id e = ground (arith, e)

all_bytes : List ℕ → Bool
all_bytes [] = true
all_bytes (b ∷ rest) = let others = all_bytes rest in ltb b 256 && others

byte_at-below : (l : List ℕ) (j : ℕ) → all_bytes l ≡ true → byte_at l j < 256
unfolding all_bytes
byte_at-below [] j e = omega arith
byte_at-below (b ∷ rest) zero e = ground (arith, (and-both (ltb b 256) (all_bytes rest) e).0)
byte_at-below (b ∷ rest) (suc j) e =
    byte_at-below rest j (and-both (ltb b 256) (all_bytes rest) e).1

sdb_header-IsBytes : IsBytes sdb_header
unfolding sdb_header all_bytes
sdb_header-IsBytes j = byte_at-below sdb_header_bytes j refl

header-Outside :
    (sector_size : ℕ) (b : Buffer) (j : ℕ)
    → (sector_size ≡ 0x40000) ⊎ (sector_size ≡ 0x10000)
    → b.size ≤ 0x500000
    → Outside sector_size bootloader_bitstream_base b (bootloader_sdb_base + j)
header-Outside sector_size b j (inl e) fits = inr (rw e (omega arith))
header-Outside sector_size b j (inr e) fits = inr (rw e (omega arith))

-- The flash holds the header and the bitstream, and is as before outside of the sectors of both.
abbrev pub Both : (sector_size : ℕ) → Timing → Chip → Buffer → (mem0 : ℕ → ℕ) → History → Type 0
Both sector_size time c0 b mem0 h =
    Holds sector_size time c0
      (λ mem.
        Stored bootloader_sdb_base sdb_header mem
        × Stored bootloader_bitstream_base b mem
        × ((x : ℕ)
            → Outside sector_size bootloader_sdb_base sdb_header x
            → Outside sector_size bootloader_bitstream_base b x
            → mem x ≡ mem0 x))
      h

module _ (hw : Hardware) (fuel rounds sector_size : ℕ) (time : Timing) (c0 : Chip)
    (works : Works hw fuel rounds sector_size time c0) (id : ℕ) (identifies : Identifies hw id)
    (known : sector_size_of id ≡ some sector_size) (b : Buffer) (bytes : IsBytes b) where
  -- On a card with a working chip of a known kind, whatever it held, that is idle between two
  -- transactions, `program_flash` without the flag for the bootloader returns zero for every
  -- bitstream of bytes of up to 0x500000 of them; the chip is then idle, holds both the header at
  -- 0x600000 and the bitstream at 0x100000, and is as before outside of the sectors that have an
  -- address of either.
  pub program_flash_lem :
      (confirm : List ℕ) (past : List (List ℕ)) (h : History)
      → b.size ≤ 0x500000
      → After past h
      → busy_for sector_size time c0 past ≡ 0
      → Returns
          (λ c h'. (c ≡ ok) × Both sector_size time c0 b (content sector_size time c0 past) h')
          (program_flash hw (suc fuel) (suc rounds) true confirm b false h)
  unfolding program_flash sector_size_of sdb_header chip exec
  program_flash_lem confirm past h fits e idle =
      let is_known = known_id (id == id_m25p128) (id == id_mt25ql128) sector_size known in
      let header_fits : sdb_header.size ≤ 192 = omega arith in
      bind (test_presence-After hw fuel works.ready past h e) (λ p h1 (present, e1). rw present (
        bind (read_id-After hw fuel works.ready id identifies past h1 (id-below id is_known) e1)
          (λ v h2 (same, e2).
            let known' = ap sector_size_of same ∙ known in
            rw (known_id (v == id_m25p128) (v == id_mt25ql128) sector_size known') (
              bind
                (flash_program-Stored hw fuel rounds sector_size time c0 works bootloader_sdb_base
                  sdb_header sdb_header-IsBytes v _ h2 known' (omega arith) refl e2 idle)
                (λ c h3 (fine, (past3, e3, idle3, (stored, kept))). rw fine (
                  weaken
                    (flash_program-Stored hw fuel rounds sector_size time c0 works
                      bootloader_bitstream_base b bytes v past3 h3 known' (omega arith) refl e3
                      idle3)
                    (λ c' h4 (fine', (past4, e4, idle4, (stored', kept'))). (
                      fine',
                      (
                        past4,
                        e4,
                        idle4,
                        (
                          (λ j less.
                              kept' (bootloader_sdb_base + j) (
                                header-Outside sector_size b j
                                  (sector_sizes (id == id_m25p128) (id == id_mt25ql128) sector_size
                                    known)
                                  fits)
                              ∙ stored j less),
                          stored',
                          (λ x out out'. kept' x out' ∙ kept x out),
                        ),
                      ),
                    ))))))))
