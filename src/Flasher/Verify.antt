-- ===== src/Flasher/Verify.antt =====
-- The verification of `flash_program` in software/tools/vme-flasher/svec-flasher.c, on a card with a working
-- flash chip that holds the data.
use svec.Base.{
  arith, ℕ, zero, suc, ◌+◌, ◌%◌, ◌^◌, ◌≤◌, ◌<◌, ◌≡◌, refl, ap, ◌∙◌, true, List, [], ◌∷◌, ◌++◌, ◌==◌,
  replicate,
}
use svec.Base.Errors.{ok}
use svec.Bus.{History, Hardware, Returns, returns, bind}
use svec.Core.{Buffer}
use svec.Core.Stream.{IsBytes}
use svec.Flasher.{flash_read, addr_bytes}
use svec.Flasher.Program.{verify_loop, verify}
use svec.Flasher.Spi.{Ready, given}
use svec.Flasher.Commands.{
  After, During, addr_bytes-AllBelow, select, send, send_all, receive, finish,
}
use svec.Flasher.Chip.{Chip, Timing, chip, exec}
use svec.Flasher.Content.{content, busy_for, ShowsBusy, Holds}

-- The command that reads from an address, and the bytes sent while `n` bytes are read.
abbrev pub reading : ℕ → ℕ → List ℕ
reading a n = flash_read ∷ addr_bytes a ++ replicate n 0xff

-- A working chip behind the SPI master, with this sector size, timing and state at first: the master is
-- ready when it has been asked `fuel` times, the chip is busy for at most `rounds` polls and shows it,
-- and when it is idle it gives back the bytes of its memory, one after the other.
pub record Works (hw : Hardware) (fuel rounds sector_size : ℕ) (time : Timing) (c0 : Chip)
    : Type 0 where
  pub ready : Ready hw fuel
  pub bounded : (t : List (List ℕ)) → time t ≤ rounds
  pub shows : ShowsBusy hw sector_size time c0
  pub reads :
      (a k : ℕ) (past : List (List ℕ)) (h : History)
      → During past (reading a (suc k)) h
      → busy_for sector_size time c0 past ≡ 0
      → a + k < 2 ^ 24
      → given hw h ≡ content sector_size time c0 past (a + k) % 2 ^ 8

abbrev blanks : ℕ → List ℕ
blanks n = replicate n 0xff

snoc-replicate : (n : ℕ) → blanks n ++ (0xff ∷ []) ≡ blanks (suc n)
snoc-replicate zero = refl
snoc-replicate (suc n) = ap (λ (l : List ℕ). 0xff ∷ l) (snoc-replicate n)

-- The data is in the memory of the chip.
abbrev pub Stored : ℕ → Buffer → (ℕ → ℕ) → Type 0
Stored addr b mem = (j : ℕ) → j < b.size → mem (addr + j) ≡ b.mem j

module _ (hw : Hardware) (fuel rounds sector_size : ℕ) (time : Timing) (c0 : Chip)
    (works : Works hw fuel rounds sector_size time c0) (addr : ℕ) (b : Buffer)
    (bytes : IsBytes b) where
  abbrev memory : List (List ℕ) → ℕ → ℕ
  memory past = (chip sector_size time c0 past).mem

  verify_loop-ok :
      (past : List (List ℕ)) (k n : ℕ) (h : History)
      → addr + b.size ≤ 2 ^ 24
      → n + k ≡ b.size
      → Stored addr b (memory past)
      → During past (reading addr n) h
      → busy_for sector_size time c0 past ≡ 0
      → Returns
          (λ c h'. (c ≡ ok) × During past (reading addr b.size) h')
          (verify_loop hw (suc fuel) (suc rounds) b k n h)
  unfolding verify_loop
  verify_loop-ok past zero n h fits all stored e idle =
      let done : n ≡ b.size = omega arith in
      returns _ _ (refl, e ∙ ap (λ z. record { past = past; sent = reading addr z }) done)
  verify_loop-ok past (suc k) n h fits all stored e idle =
      bind (receive hw fuel works.ready past (reading addr n) h e) (λ d h1 (at, e1, got, e2).
        let longer =
          ap (λ (l : List ℕ). record { past = past; sent = flash_read ∷ addr_bytes addr ++ l })
            (snoc-replicate n) in
        let below : addr + n < 2 ^ 24 = omega arith in
        let byte : b.mem n < 256 = bytes n in
        let right : d ≡ b.mem n =
          got
          ∙ works.reads addr n past at (e1 ∙ longer) idle below
          ∙ ap (λ v. v % 2 ^ 8) (stored n (omega arith))
          ∙ omega arith in
        let same : (d == b.mem n) ≡ true = ground (arith, right) in
        let rest : n + 1 + k ≡ b.size = omega (arith, all) in
        rw same (
          verify_loop-ok past k (n + 1) h1 fits rest stored
            (e2 ∙ longer ∙ ap (λ z. record { past = past; sent = reading addr z }) (next n)) idle))
    where
      next : (n : ℕ) → suc n ≡ n + 1
      next n = omega arith

  pub verify-ok :
      (P : (ℕ → ℕ) → Type 0) (past : List (List ℕ)) (h : History)
      → addr + b.size ≤ 2 ^ 24
      → Stored addr b (memory past)
      → P (memory past)
      → After past h
      → busy_for sector_size time c0 past ≡ 0
      → Returns
          (λ c h'. (c ≡ ok) × Holds sector_size time c0 P h')
          (verify hw (suc fuel) (suc rounds) addr b h)
  unfolding verify chip exec
  verify-ok P past h fits stored holds e idle =
      bind (select hw fuel works.ready past h e) (λ u h1 e1.
        bind (send hw fuel works.ready past flash_read [] h1 (omega arith) e1) (λ u' h2 e2.
          bind
            (send_all hw fuel works.ready past (addr_bytes addr) (flash_read ∷ []) h2
              (addr_bytes-AllBelow addr) e2)
            (λ u'' h3 e3.
              bind (verify_loop-ok past b.size 0 h3 fits (omega arith) stored e3 idle)
                (λ c h4 (fine, e4).
                  bind
                    (finish hw fuel works.ready past flash_read (addr_bytes addr ++ blanks b.size)
                      h4 e4)
                    (λ u3 h5 e5. returns _ _ (fine, (_, e5, idle, holds)))))))
