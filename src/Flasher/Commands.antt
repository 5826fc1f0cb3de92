-- ===== src/Flasher/Commands.antt =====
-- What the commands of the flash in software/tools/vme-flasher/svec-flasher.c send to the chip, and
-- what its verification reads.
use svec.Base.{
  arith, ℕ, zero, suc, ◌+◌, ◌≤◌, ◌<◌, ◌≡◌, sym, ap, ◌∙◌, inl, inr, true, false, Bool-cases, List,
  [], ◌∷◌, ◌++◌, ltb, ltb→lt, flag,
}
use svec.Bus.{History, Hardware, Returns, returns, bind, weaken}
use svec.Core.{Buffer}
use svec.Flasher.{
  flash_wren, flash_rdsr, flash_se, flash_pp, addr_bytes, spi_cs, spi_read8, spi_write8,
  spi_write_all, flash_wait_completion, flash_write_enable, flash_erase_sector, flash_program_page,
  page_bytes,
}
use svec.Flasher.Spi.{
  Spi, push, deselect, spi, Ready, given, AllBelow, spi_write8-Transferred, spi_read8-Transferred,
  spi_write_all-sent, select-same, deselect-over,
}

-- The chip is not selected, after these transactions.
abbrev pub After : List (List ℕ) → History → Type 0
After past h = spi h ≡ record { past = past; sent = [] }

-- The chip is selected, after these transactions and bytes.
abbrev pub During : List (List ℕ) → List ℕ → History → Type 0
During past sent h = spi h ≡ record { past = past; sent = sent }

-- A poll of the status register.
abbrev pub poll : List ℕ
poll = flash_rdsr ∷ 0xff ∷ []

-- Transactions, and then `n` polls in a row.
abbrev pub polled : ℕ → List (List ℕ) → List (List ℕ)
polled zero past = past
polled (suc n) past = poll ∷ polled n past

-- The chip is not busy any more when it has been polled `limit` times in a row after these transactions.
abbrev pub Settles : Hardware → List (List ℕ) → ℕ → Type 0
Settles hw past limit =
    (n : ℕ) (h : History)
    → During (polled n past) poll h
    → limit ≤ n
    → flag (given hw h) 0x01 ≡ false

-- The chip was polled until it was seen idle: there is a history in which it answered the last poll so.
abbrev pub Polled : Hardware → List (List ℕ) → (most : ℕ) → History → Type 0
Polled hw past most h' =
    (n : ℕ) × (n ≤ most)
    × After (polled (suc n) past) h'
    × ((h1 : History) × During (polled n past) poll h1 × (flag (given hw h1) 0x01 ≡ false))

pub addr_bytes-AllBelow : (addr : ℕ) → AllBelow (addr_bytes addr)
addr_bytes-AllBelow addr = (omega arith, (omega arith, (omega arith, tt)))

module _ (hw : Hardware) (fuel : ℕ) (ready : Ready hw fuel) (past : List (List ℕ)) where
  pub select : (h : History) → After past h → Returns (λ u h'. During past [] h') (spi_cs true h)
  select h e = weaken (select-same hw fuel ready h) (λ u h' e'. e' ∙ e)

  pub finish :
      (b : ℕ) (bytes : List ℕ) (h : History)
      → During past (b ∷ bytes) h
      → Returns (λ u h'. After ((b ∷ bytes) ∷ past) h') (spi_cs false h)
  finish b bytes h e = weaken (deselect-over hw fuel ready h) (λ u h' e'. e' ∙ ap deselect e)

  pub send :
      (byte : ℕ) (sent : List ℕ) (h : History)
      → byte < 256
      → During past sent h
      → Returns (λ u h'. During past (sent ++ (byte ∷ [])) h') (spi_write8 hw (suc fuel) byte h)
  send byte sent h small e =
      weaken (spi_write8-Transferred hw fuel ready byte h small) (λ u h' e'. e' ∙ ap (push byte) e)

  pub send_all :
      (bytes sent : List ℕ) (h : History)
      → AllBelow bytes
      → During past sent h
      → Returns (λ u h'. During past (sent ++ bytes) h') (spi_write_all hw (suc fuel) bytes h)
  send_all bytes sent h small e =
      weaken (spi_write_all-sent hw fuel ready bytes h small)
        (λ u h' e'. e' ∙ ap (λ (s : Spi). record s { sent = s.sent ++ bytes }) e)

  -- A byte that is read, and the history at which the chip gives it.
  pub receive :
      (sent : List ℕ) (h : History)
      → During past sent h
      → Returns
          (λ got h'.
            (h1 : History) × (During past (sent ++ (0xff ∷ [])) h1)
            × (got ≡ given hw h1)
            × (During past (sent ++ (0xff ∷ [])) h'))
          (spi_read8 hw (suc fuel) h)
  receive sent h e =
      weaken (spi_read8-Transferred hw fuel ready h)
        (λ got h' (h1, e1, e2, e3). (h1, e1 ∙ ap (push 0xff) e, e2, e3 ∙ (e1 ∙ ap (push 0xff) e)))

  pub flash_write_enable_lem :
      (h : History)
      → After past h
      → Returns (λ u h'. After ((flash_wren ∷ []) ∷ past) h') (flash_write_enable hw (suc fuel) h)
  unfolding flash_write_enable
  flash_write_enable_lem h e = bind (select h e) (λ u h1 e1.
      bind (send flash_wren [] h1 (omega arith) e1) (λ u' h2 e2. finish flash_wren [] h2 e2))

module _ (hw : Hardware) (fuel : ℕ) (ready : Ready hw fuel) (rounds : ℕ) (past : List (List ℕ))
    (settles : Settles hw past rounds) where
  not_last :
      (n : ℕ) (h : History)
      → During (polled n past) poll h
      → flag (given hw h) 0x01 ≡ true
      → n < rounds
  not_last n h at busy = elim (Bool-cases (ltb n rounds)) [
    | inl less ↦ ltb→lt n rounds less
    | inr more ↦ let idle = settles n h at (ground arith) in absurd (ground (arith, idle))
  ]

  one_poll :
      (left n : ℕ) (h : History)
      → n ≤ rounds
      → After (polled n past) h
      → ((h' : History)
          → n < rounds
          → After (polled (suc n) past) h'
          → Returns
              (λ u h''. Polled hw past rounds h'')
              (flash_wait_completion hw (suc fuel) left h'))
      → Returns
          (λ u h'. Polled hw past rounds h')
          (flash_wait_completion hw (suc fuel) (suc left) h)
  unfolding flash_wait_completion
  one_poll left n h within e again =
      let before = polled n past in
      bind (select hw fuel ready before h e) (λ u h1 e1.
        bind (send hw fuel ready before flash_rdsr [] h1 (omega arith) e1) (λ u' h2 e2.
          bind (receive hw fuel ready before (flash_rdsr ∷ []) h2 e2) (λ stat h3 (at, e4, e5, e6).
            bind (finish hw fuel ready before flash_rdsr (0xff ∷ []) h3 e6) (λ u'' h4 e7.
              let seen = ap (λ v. flag v 0x01) (sym e5) in
              elim (Bool-cases (flag stat 0x01)) [
                | inl busy ↦ rw busy (again h4 (not_last n at e4 (seen ∙ busy)) e7)
                | inr idle ↦ rw idle (returns _ _ (n, within, e7, (at, e4, seen ∙ idle)))
              ]))))

  wait_completion-Polled :
      (left n : ℕ) (h : History)
      → n + left ≡ rounds
      → After (polled n past) h
      → Returns
          (λ u h'. Polled hw past rounds h')
          (flash_wait_completion hw (suc fuel) (suc left) h)
  wait_completion-Polled zero n h all e =
      one_poll zero n h (omega arith) e (λ h' less e'. absurd (omega arith))
  wait_completion-Polled (suc left) n h all e =
      one_poll (suc left) n h (omega arith) e
        (λ h' less e'. wait_completion-Polled left (suc n) h' (omega arith) e')

  -- If the SPI master is ready after `fuel` reads in a row and the chip, after the transactions so
  -- far, is idle after `rounds` polls in a row, then `flash_wait_completion` ends: it returns after
  -- at least one and at most `rounds` + 1 polls, the last of which has seen the chip idle, and sends
  -- nothing else.
  pub flash_wait_completion_lem :
      (h : History)
      → After past h
      → Returns
          (λ u h'. Polled hw past rounds h')
          (flash_wait_completion hw (suc fuel) (suc rounds) h)
  flash_wait_completion_lem h e = wait_completion-Polled rounds 0 h (omega arith) e

module _ (hw : Hardware) (fuel : ℕ) (ready : Ready hw fuel) (rounds : ℕ)
    (past : List (List ℕ)) where
  -- An erase is one transaction, of the command and the address with its most significant byte first,
  -- and polls until the chip is seen idle.
  pub flash_erase_sector_lem :
      (addr : ℕ) (h : History)
      → Settles hw ((flash_se ∷ addr_bytes addr) ∷ past) rounds
      → After past h
      → Returns
          (λ u h'. Polled hw ((flash_se ∷ addr_bytes addr) ∷ past) rounds h')
          (flash_erase_sector hw (suc fuel) (suc rounds) addr h)
  unfolding flash_erase_sector
  flash_erase_sector_lem addr h settles e = bind (select hw fuel ready past h e) (λ u h1 e1.
      bind (send hw fuel ready past flash_se [] h1 (omega arith) e1) (λ u' h2 e2.
        bind
          (send_all hw fuel ready past (addr_bytes addr) (flash_se ∷ []) h2
            (addr_bytes-AllBelow addr) e2)
          (λ u'' h3 e3.
            bind (finish hw fuel ready past flash_se (addr_bytes addr) h3 e3) (λ u3 h4 e4.
              flash_wait_completion_lem hw fuel ready rounds ((flash_se ∷ addr_bytes addr) ∷ past)
                settles h4 e4))))

  -- The programming of a page is one transaction: the command, the address and 256 bytes, the data and
  -- then 0xff; and polls until the chip is seen idle.
  pub flash_program_page_lem :
      (addr : ℕ) (b : Buffer) (off size : ℕ) (h : History)
      → AllBelow (page_bytes hw (suc fuel) b off size)
      → Settles hw
          ((flash_pp ∷ addr_bytes addr ++ page_bytes hw (suc fuel) b off size) ∷ past)
          rounds
      → After past h
      → Returns
          (λ u h'.
            Polled hw
              ((flash_pp ∷ addr_bytes addr ++ page_bytes hw (suc fuel) b off size) ∷ past)
              rounds
              h')
          (flash_program_page hw (suc fuel) (suc rounds) addr b off size h)
  unfolding flash_program_page
  flash_program_page_lem addr b off size h bytes settles e =
      let content = page_bytes hw (suc fuel) b off size in
      bind (select hw fuel ready past h e) (λ u h1 e1.
        bind (send hw fuel ready past flash_pp [] h1 (omega arith) e1) (λ u' h2 e2.
          bind
            (send_all hw fuel ready past (addr_bytes addr) (flash_pp ∷ []) h2
              (addr_bytes-AllBelow addr) e2)
            (λ u'' h3 e3.
              bind (send_all hw fuel ready past content (flash_pp ∷ addr_bytes addr) h3 bytes e3)
                (λ u3 h4 e4.
                  bind (finish hw fuel ready past flash_pp (addr_bytes addr ++ content) h4 e4)
                    (λ u4 h5 e5.
                      flash_wait_completion_lem hw fuel ready rounds
                        ((flash_pp ∷ addr_bytes addr ++ content) ∷ past) settles h5 e5)))))
