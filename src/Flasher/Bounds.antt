-- ===== src/Flasher/Bounds.antt =====
-- The accesses of `flash_program` in software/tools/vme-flasher/svec-flasher.c to its map of erased
-- sectors.
use svec.Base.{
  Option-cases, ℕ, zero, suc, ◌+◌, ◌/◌, ◌%◌, ◌^◌, ◌≤◌, ◌<◌, ◌≡◌, refl, ap, inl, inr, ◌⊎◌, Bool,
  true, false, Bool-cases, List, [], ◌∷◌, ltb, ltb→lt, ◌==◌, if◌then◌else◌, length, replicate,
  get_elem?, set, some, none, arith, flag, not,
}
use svec.Bus.{Run, ret, exit, out_of_fuel, fault, and_then, History, Hardware}
use svec.Core.{Buffer}
use svec.Flasher.{
  Proc, spi_cs, spi_read8, spi_write8, spi_write_all, wait_ready, flash_wait_completion,
  flash_erase_sector, flash_write_enable, flash_program_page, addr_bytes, csr_writel, csr_readl,
  store, load, usleep, page_bytes,
}
use svec.Flasher.Program.{
  flash_size, plen_of, sector_size_of, erase_unless, program_loop, verify_loop, verify,
  flash_program, id_m25p128, id_mt25ql128,
}

-- A run that leaves no array.
abbrev pub Inside : {A : Type 0} → Run History A → Type 0
Inside (ret a s) = Unit {0}
Inside (exit c s) = Unit {0}
Inside (out_of_fuel s) = Unit {0}
Inside (fault s) = ⊥

Inside-bind :
    {A B : Type 0} (r : Run History A) (k : A → Proc B)
    → Inside r
    → ((a : A) (h : History) → Inside (k a h))
    → Inside (and_then r k)
Inside-bind (ret a s) k p next = next a s
Inside-bind (exit c s) k p next = tt
Inside-bind (out_of_fuel s) k p next = tt
Inside-bind (fault s) k p next = absurd p

Inside-if :
    {A : Type 0} (c : Bool) (x y : Proc A) (h : History)
    → Inside (x h)
    → Inside (y h)
    → Inside ((if c then x else y) h)
Inside-if true x y h p q = p
Inside-if false x y h p q = q

pub length-set : (l : List Bool) (i : ℕ) (v : Bool) → length (set l i v) ≡ length l
length-set [] i v = refl
length-set (x ∷ l) zero v = refl
length-set (x ∷ l) (suc i) v = ap suc (length-set l i v)

pub length-replicate : (n : ℕ) (v : Bool) → length (replicate n v) ≡ n
length-replicate zero v = refl
length-replicate (suc n) v = ap suc (length-replicate n v)

pub get_elem?-below : (l : List Bool) (i : ℕ) → i < length l → (v : Bool) × (get_elem? l i ≡ some v)
get_elem?-below [] i h = absurd (omega arith)
get_elem?-below (x ∷ l) zero h = (x, refl)
get_elem?-below (x ∷ l) (suc i) h = get_elem?-below l i (omega arith)

pub sector_sizes :
    (m25p128 mt25ql128 : Bool) (size : ℕ)
    → (if m25p128 then some 0x40000 else if mt25ql128 then some 0x10000 else none) ≡ some size
    → (size ≡ 0x40000) ⊎ (size ≡ 0x10000)
sector_sizes true mt25ql128 size e = inl cc
sector_sizes false true size e = inr cc
sector_sizes false false size e = absurd cc

module _ (hw : Hardware) (fuel : ℕ) where
  wait_ready-Inside : (n : ℕ) (h : History) → Inside (wait_ready hw n h)
  unfolding wait_ready csr_readl load
  wait_ready-Inside zero h = tt
  wait_ready-Inside (suc n) h = Inside-if (flag _ _) _ _ _ tt (wait_ready-Inside n _)

  spi_write8-Inside : (byte : ℕ) (h : History) → Inside (spi_write8 hw fuel byte h)
  unfolding spi_write8 csr_writel store
  spi_write8-Inside byte h =
      Inside-bind (wait_ready hw fuel _) _ (wait_ready-Inside fuel _) (λ a h'. tt)

  spi_read8-Inside : (h : History) → Inside (spi_read8 hw fuel h)
  unfolding spi_read8 csr_writel store
  spi_read8-Inside h = Inside-bind (wait_ready hw fuel _) _ (wait_ready-Inside fuel _) (λ a h'. tt)

  spi_write_all-Inside : (bytes : List ℕ) (h : History) → Inside (spi_write_all hw fuel bytes h)
  unfolding spi_write_all
  spi_write_all-Inside [] h = tt
  spi_write_all-Inside (b ∷ bytes) h =
      Inside-bind (spi_write8 hw fuel b h) _ (spi_write8-Inside b h)
        (λ a h'. spi_write_all-Inside bytes h')

  module _ (rounds : ℕ) where
    wait_completion-Inside : (n : ℕ) (h : History) → Inside (flash_wait_completion hw fuel n h)
    unfolding flash_wait_completion spi_cs csr_writel store usleep
    wait_completion-Inside zero h = tt
    wait_completion-Inside (suc n) h =
        Inside-bind (spi_write8 hw fuel _ _) _ (spi_write8-Inside _ _) (λ a h1.
          Inside-bind (spi_read8 hw fuel h1) _ (spi_read8-Inside h1)
            (λ stat h2. Inside-if (flag stat 0x01) _ _ _ (wait_completion-Inside n _) tt))

    write_enable-Inside : (h : History) → Inside (flash_write_enable hw fuel h)
    unfolding flash_write_enable spi_cs csr_writel store usleep
    write_enable-Inside h =
        Inside-bind (spi_write8 hw fuel _ _) _ (spi_write8-Inside _ _) (λ a h1. tt)

    erase_sector-Inside :
        (addr : ℕ) (h : History) → Inside (flash_erase_sector hw fuel rounds addr h)
    unfolding flash_erase_sector spi_cs csr_writel store usleep
    erase_sector-Inside addr h =
        Inside-bind (spi_write8 hw fuel _ _) _ (spi_write8-Inside _ _) (λ a h1.
          Inside-bind (spi_write_all hw fuel (addr_bytes addr) h1) _
            (spi_write_all-Inside (addr_bytes addr) h1) (λ a' h2. wait_completion-Inside rounds _))

    program_page-Inside :
        (addr : ℕ) (b : Buffer) (off size : ℕ) (h : History)
        → Inside (flash_program_page hw fuel rounds addr b off size h)
    unfolding flash_program_page spi_cs csr_writel store usleep
    program_page-Inside addr b off size h =
        Inside-bind (spi_write8 hw fuel _ _) _ (spi_write8-Inside _ _) (λ a h1.
          Inside-bind (spi_write_all hw fuel (addr_bytes addr) h1) _
            (spi_write_all-Inside (addr_bytes addr) h1)
            (λ a' h2.
              Inside-bind (spi_write_all hw fuel (page_bytes hw fuel b off size) h2) _
                (spi_write_all-Inside (page_bytes hw fuel b off size) h2)
                (λ a'' h3. wait_completion-Inside rounds _)))

    erase_unless-Inside :
        (c : Bool) (addr : ℕ) (h : History) → Inside (erase_unless hw fuel rounds c addr h)
    unfolding erase_unless
    erase_unless-Inside true addr h = tt
    erase_unless-Inside false addr h =
        Inside-bind (flash_write_enable hw fuel h) _ (write_enable-Inside h)
          (λ a h1. erase_sector-Inside addr h1)

    verify_loop-Inside :
        (b : Buffer) (k n : ℕ) (h : History) → Inside (verify_loop hw fuel rounds b k n h)
    unfolding verify_loop
    verify_loop-Inside b zero n h = tt
    verify_loop-Inside b (suc k) n h =
        Inside-bind (spi_read8 hw fuel h) _ (spi_read8-Inside h)
          (λ d h1. Inside-if (d == b.mem n) _ _ _ (verify_loop-Inside b k (n + 1) h1) tt)

    verify-Inside : (addr : ℕ) (b : Buffer) (h : History) → Inside (verify hw fuel rounds addr b h)
    unfolding verify spi_cs csr_writel store usleep
    verify-Inside addr b h = Inside-bind (spi_write8 hw fuel _ _) _ (spi_write8-Inside _ _) (λ a h1.
        Inside-bind (spi_write_all hw fuel (addr_bytes addr) h1) _
          (spi_write_all-Inside (addr_bytes addr) h1)
          (λ a' h2.
            Inside-bind (verify_loop hw fuel rounds b b.size 0 h2) _
              (verify_loop-Inside b b.size 0 h2) (λ c h3. tt)))

    program_loop-Inside :
        (pages addr n sector_size : ℕ) (b : Buffer) (sector_map : List Bool) (h : History)
        → addr + b.size ≤ flash_size
        → ((at : ℕ) → at < flash_size → at / sector_size < length sector_map)
        → Inside (program_loop hw fuel rounds pages addr b sector_size n sector_map h)
    unfolding program_loop
    program_loop-Inside zero addr n sector_size b sector_map h fits within =
        Inside-if (ltb n b.size) _ _ h tt tt
    program_loop-Inside (suc pages) addr n sector_size b sector_map h fits within =
        elim (Bool-cases (ltb n b.size)) [
          | inr over ↦ rw over tt
          | inl under ↦
              let below : (addr + n) % 2 ^ 32 < flash_size = omega (arith, ltb→lt n b.size under) in
              let sector = (addr + n) % 2 ^ 32 / sector_size in
              let entry = get_elem?-below sector_map sector (within _ below) in
              rw (under, entry.1)
                (Inside-bind (erase_unless hw fuel rounds entry.0 _ h) _
                  (erase_unless-Inside entry.0 _ h)
                  (λ a h1.
                    Inside-bind (flash_write_enable hw fuel h1) _ (write_enable-Inside h1) (λ a' h2.
                      Inside-bind (flash_program_page hw fuel rounds _ b n _ h2) _
                        (program_page-Inside _ b n _ h2)
                        (λ a'' h3.
                          program_loop-Inside pages addr (n + plen_of b) sector_size b
                            (set sector_map sector true) h3 fits
                            (λ at lt. rw (length-set sector_map sector true) (within at lt))))))
        ]

    -- A map for the whole flash has an entry for each address in it.
    pub map-within :
        (flash_id sector_size : ℕ)
        → sector_size_of flash_id ≡ some sector_size
        → (at : ℕ) → at < flash_size
        → at / sector_size < length (replicate (flash_size / sector_size) false)
    unfolding sector_size_of
    map-within flash_id sector_size e at lt =
        rw (length-replicate (flash_size / sector_size) false)
          (elim (sector_sizes (flash_id == id_m25p128) (flash_id == id_mt25ql128) sector_size e) [
            | inl e' ↦ rw e' (omega arith)
            | inr e' ↦ rw e' (omega arith)
          ])

    -- If the data fits in the flash from the address on, then `flash_program` looks up and sets
    -- entries of its sector map alone, for both flash chips, all data and all answers of the
    -- hardware, however far it runs.
    pub flash_program-Inside :
        (malloc_ok : Bool) (addr : ℕ) (b : Buffer) (flash_id : ℕ) (h : History)
        → addr + b.size ≤ flash_size
        → Inside (flash_program hw fuel rounds malloc_ok addr b flash_id h)
    unfolding flash_program
    flash_program-Inside malloc_ok addr b flash_id h fits =
        elim (Option-cases (sector_size_of flash_id)) [
          | inl e ↦ rw (Inside, e) tt
          | inr (sector_size, e) ↦
              rw (Inside, e)
                (Inside-if (not malloc_ok) _ _ h tt (
                  Inside-bind
                    (program_loop hw fuel rounds b.size addr b sector_size 0
                      (replicate (flash_size / sector_size) false) h)
                    _
                    (program_loop-Inside b.size addr 0 sector_size b _ h fits
                      (map-within flash_id sector_size e))
                    (λ a h1. verify-Inside addr b h1)))
        ]
