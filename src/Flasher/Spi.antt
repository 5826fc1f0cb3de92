-- ===== src/Flasher/Spi.antt =====
-- The SPI transactions that the writes to the loader's register FAR make (the SPI master behind
-- software/tools/vme-flasher/svec-flasher.c), and what each routine of the flasher transfers.
use svec.Base.{
  arith, ℕ, zero, suc, ◌+◌, ◌^◌, ◌≤◌, ◌<◌, ◌≡◌, refl, sym, ap, ◌∙◌, inl, inr, Bool, true, false,
  ◌&&◌, Bool-cases, List, [], ◌∷◌, ◌++◌, append_assoc, append-nil, ◌==◌, if◌then◌else◌, flag,
  bswap32, bswap32-bswap32,
}
use svec.Bus.{asked, rd, wr, wait, clock, History, Hardware, Returns, returns, bind, weaken}
use svec.Loader.{far_cs, far_xfer, far_ready, far_data_r, reg_far}
use svec.Flasher.{
  store, csr_writel, usleep, far_word, spi_cs, load, csr_readl, wait_ready, spi_read8, spi_write8,
  spi_write_all,
}

-- The transactions that are over, the newest first, and the bytes sent since the chip was selected.
pub record Spi : Type 0 where
  pub past : List (List ℕ)
  pub sent : List ℕ

-- The chip is deselected: a transaction without bytes leaves no trace.
abbrev pub deselect : Spi → Spi
deselect s = record { past = elim s.sent [ [] ↦ s.past | b ∷ bs ↦ (b ∷ bs) ∷ s.past ]; sent = [] }

abbrev pub push : ℕ → Spi → Spi
push byte s = record s { sent = s.sent ++ (byte ∷ []) }

-- A write to FAR: without CS the chip is deselected, and with CS and XFER a byte is sent.
unfoldable pub write_far : ℕ → Spi → Spi
write_far v s =
    if flag v far_cs then (if flag v far_xfer then push (far_data_r v) s else s) else deselect s

unfoldable pub spi : History → Spi
unfolding write_far
spi [] = record { past = []; sent = [] }
spi (rd a v ∷ h) = spi h
spi (wr a v ∷ h) = let before = spi h in if a == reg_far then write_far v before else before
spi (wait us ∷ h) = spi h
spi (clock t ∷ h) = spi h

-- The word of a byte that is sent, as the master takes it.
abbrev sends : ℕ → Bool
sends byte =
    flag (far_word byte) far_cs
    && (flag (far_word byte) far_xfer
        && ((far_data_r (far_word byte) == byte)
            && (bswap32 (bswap32 (far_word byte)) == far_word byte)))

abbrev pub all_below : ℕ → (ℕ → Bool) → Bool
all_below zero f = true
all_below (suc n) f = let rest = all_below n f in f n && rest

sends-all : all_below 256 sends ≡ true
unfolding far_word flag bswap32
sends-all = refl

pub and-both : (a b : Bool) → (a && b) ≡ true → (a ≡ true) × (b ≡ true)
and-both true true e = (refl, refl)
and-both true false e = absurd (ground (arith, e))
and-both false b e = absurd (ground (arith, e))

pub all_below-at : (n : ℕ) (f : ℕ → Bool) (i : ℕ) → all_below n f ≡ true → i < n → f i ≡ true
all_below-at zero f i e h = absurd (omega arith)
all_below-at (suc n) f i e h = elim (Bool-cases (i == n)) [
  | inl same ↦ let here : i ≡ n = ground arith in rw here (and-both (f n) (all_below n f) e).0
  | inr other ↦
      let below : i < n = ground arith in
      all_below-at n f i (and-both (f n) (all_below n f) e).1 below
]

==-true : (a b : ℕ) → (a == b) ≡ true → a ≡ b
==-true a b e = ground arith

sends-each :
    (a b c d : Bool)
    → (a && (b && (c && d))) ≡ true
    → (a ≡ true) × (b ≡ true) × (c ≡ true) × (d ≡ true)
sends-each a b c d e =
    let (ha, r) = and-both a (b && (c && d)) e in
    let (hb, r') = and-both b (c && d) r in let (hc, hd) = and-both c d r' in (ha, hb, hc, hd)

abbrev Sends : ℕ → Type 0
Sends byte =
    (flag (far_word byte) far_cs ≡ true)
    × (flag (far_word byte) far_xfer ≡ true)
    × (far_data_r (far_word byte) ≡ byte)
    × (bswap32 (bswap32 (far_word byte)) ≡ far_word byte)

byte-Sends : (byte : ℕ) → byte < 256 → Sends byte
byte-Sends byte h =
    let (cs, xfer, data_r, swapped) =
      sends-each (flag (far_word byte) far_cs) (flag (far_word byte) far_xfer)
        (far_data_r (far_word byte) == byte) (bswap32 (bswap32 (far_word byte)) == far_word byte)
        (all_below-at 256 sends byte sends-all h) in
    (cs, xfer, ==-true _ _ data_r, ==-true _ _ swapped)

write_far-far_word : (byte : ℕ) (s : Spi) → byte < 256 → write_far (far_word byte) s ≡ push byte s
unfolding write_far
write_far-far_word byte s h =
    let (cs, xfer, data_r, swapped) = byte-Sends byte h in rw (cs, xfer, data_r) refl

bswap32-far_word : (byte : ℕ) → byte < 256 → bswap32 (bswap32 (far_word byte)) ≡ far_word byte
bswap32-far_word byte h = let (cs, xfer, data_r, swapped) = byte-Sends byte h in swapped

-- The master is ready when it has been asked `latency` times in a row, and after the pause of
-- `spi_test_presence`; and a register's value has 32 bits.
pub record Ready (hw : Hardware) (latency : ℕ) : Type 0 where
  pub ready : (h : History) → latency ≤ asked h → flag (hw.answer h reg_far) far_ready ≡ true
  pub paused : (h : History) → flag (hw.answer (wait 100000 ∷ h) reg_far) far_ready ≡ true
  pub word : (h : History) (a : ℕ) → hw.answer h a < 2 ^ 32

-- The byte that the chip gives back at the end of a transfer.
abbrev pub given : Hardware → History → ℕ
given hw h = far_data_r (hw.answer h reg_far)

abbrev pub AllBelow : List ℕ → Type 0
AllBelow [] = Unit
AllBelow (b ∷ bytes) = (b < 256) × AllBelow bytes

module _ (hw : Hardware) (fuel : ℕ) (ready : Ready hw fuel) where
  -- A value of FAR that was read while the transactions were these.
  abbrev Answered : Spi → ℕ → History → Type 0
  Answered s far h' = (h1 : History) × (spi h1 ≡ s) × (far ≡ hw.answer h1 reg_far) × (spi h' ≡ s)

  -- One transfer: the byte is sent, and the answer is of a history with it.
  abbrev pub Transferred : ℕ → History → ℕ → History → Type 0
  Transferred byte h got h' =
      (h1 : History) × (spi h1 ≡ push byte (spi h)) × (got ≡ given hw h1) × (spi h' ≡ spi h1)

  -- As many rounds are enough as the master is asked before it is ready.
  wait_ready-Answered :
      (s : Spi) (n : ℕ) (h : History)
      → fuel ≤ asked h + n
      → spi h ≡ s
      → Returns (Answered s) (wait_ready hw (suc n) h)
  unfolding wait_ready csr_readl load spi
  wait_ready-Answered s zero h enough e =
      rw (bswap32-bswap32 (hw.answer h reg_far) (ready.word h reg_far), ready.ready h (omega arith))
        (returns _ _ (h, e, refl, e))
  wait_ready-Answered s (suc n) h enough e =
      rw (bswap32-bswap32 (hw.answer h reg_far) (ready.word h reg_far))
        (elim (Bool-cases (flag (hw.answer h reg_far) far_ready)) [
          | inl done ↦ rw done (returns _ _ (h, e, refl, e))
          | inr busy ↦
              rw busy
                (wait_ready-Answered s n (rd reg_far (hw.answer h reg_far) ∷ h) (omega arith) e)
        ])

  pub spi_write8-Transferred :
      (byte : ℕ) (h : History)
      → byte < 256
      → Returns (λ u h'. spi h' ≡ push byte (spi h)) (spi_write8 hw (suc fuel) byte h)
  unfolding spi_write8 csr_writel store spi
  spi_write8-Transferred byte h small = rw (bswap32-far_word byte small) (
      bind
        (wait_ready-Answered _ fuel (wr reg_far (far_word byte) ∷ h) (omega arith)
          (write_far-far_word byte (spi h) small))
        (λ far h' (h1, e1, e2, e3). returns _ _ e3))

  pub spi_read8-Transferred :
      (h : History) → Returns (λ got h'. Transferred 0xff h got h') (spi_read8 hw (suc fuel) h)
  unfolding spi_read8 csr_writel store spi
  spi_read8-Transferred h =
      let small : 0xff < 256 = omega arith in
      rw (bswap32-far_word 0xff small) (
        bind
          (wait_ready-Answered _ fuel (wr reg_far (far_word 0xff) ∷ h) (omega arith)
            (write_far-far_word 0xff (spi h) small))
          (λ far h' (h1, e1, e2, e3). returns _ _ (h1, e1, ap far_data_r e2, e3 ∙ sym e1)))

  pub spi_write_all-sent :
      (bytes : List ℕ) (h : History)
      → AllBelow bytes
      → Returns
          (λ u h'. spi h' ≡ record (spi h) { sent = (spi h).sent ++ bytes })
          (spi_write_all hw (suc fuel) bytes h)
  unfolding spi_write_all
  spi_write_all-sent [] h small =
      returns _ _ (λ i. record (spi h) { sent = sym (append-nil (spi h).sent) i })
  spi_write_all-sent (b ∷ bytes) h small = bind (spi_write8-Transferred b h small.0) (λ u h1 e.
      weaken (spi_write_all-sent bytes h1 small.1) (λ u' h2 e'.
        e'
        ∙ ap (λ (s : Spi). record s { sent = s.sent ++ bytes }) e
        ∙ (λ i. record (spi h) { sent = append_assoc (spi h).sent (b ∷ []) bytes i })))

  pub select-same : (h : History) → Returns (λ u h'. spi h' ≡ spi h) (spi_cs true h)
  unfolding spi_cs csr_writel store usleep spi write_far flag bswap32
  select-same h = returns _ _ refl

  pub deselect-over : (h : History) → Returns (λ u h'. spi h' ≡ deselect (spi h)) (spi_cs false h)
  unfolding spi_cs csr_writel store usleep spi write_far flag bswap32
  deselect-over h = returns _ _ refl
