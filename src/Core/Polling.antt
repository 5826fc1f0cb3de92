-- ===== src/Core/Polling.antt =====
-- How long a card may take: its FIFO to have room, and its loader to be done within the time limit of
-- `svec_fpga_write_stop` in software/kernel/svec-core.c.
use svec.Base.{
  arith, ℕ, zero, suc, ◌+◌, ◌%◌, ◌^◌, ◌≤◌, ◌<◌, ◌≡◌, refl, subst, inl, inr, true, false, Bool-cases,
  [], ◌∷◌, ◌++◌, flag, bswap32,
}
use svec.Base.Errors.{ok}
use svec.Bus.{wait, rd, clock, asked, History, Hardware, Returns, returns, bind}
use svec.Loader.{csr_done, csr_error, fifo_csr_full, reg_csr, reg_idr, reg_fifo_csr}
use svec.Core.{
  Svec, set_last, svec_base_loader, u32_minus_one, iowrite32be, ioread32be, pause, get_jiffies_64,
  time_before64, is_svec,
}
use svec.Core.Program.{csr_verdict, release, wait_done, after_last_word}
use svec.Core.Stop.{patience}

-- What the driver does from its look at the clock on, in some rounds of its wait for DONE.
pub data Polling : ℕ → History → Type 0 where
  start : (t : ℕ) → Polling 0 (clock t ∷ [])
  poll :
      {n : ℕ} {new : History} (t v : ℕ)
      → Polling n new
      → Polling (suc n) (wait 900 ∷ rd (svec_base_loader + reg_csr) v ∷ clock t ∷ new)

-- The loader names itself, and its FIFO has room at the latest when it has been asked 10000 times in
-- a row. It says that it is done at the latest after `polls` rounds of the wait, without an error,
-- and as many rounds fit into the time limit.
pub record Serves (hw : Hardware) (us polls : ℕ) : Type 0 where
  pub named : (h : History) → is_svec (bswap32 (hw.answer h (svec_base_loader + reg_idr))) ≡ true
  pub room :
      (h : History)
      → 10000 ≤ asked h
      → flag (hw.answer h (svec_base_loader + reg_fifo_csr)) fifo_csr_full ≡ false
  pub done :
      (new : History)
      → Polling polls new
      → (t : ℕ) (h : History)
      → flag (hw.answer (clock t ∷ (new ++ h)) (svec_base_loader + reg_csr)) csr_done ≡ true
  pub no_error : (h : History) → flag (hw.answer h (svec_base_loader + reg_csr)) csr_error ≡ false
  pub in_time :
      (n : ℕ) (new : History)
      → Polling n new
      → n ≤ polls
      → (h : History)
      → (hw.jiffies h ≤ hw.jiffies (new ++ h))
        × (hw.jiffies (new ++ h) < hw.jiffies h + patience hw us)

module _ (hw : Hardware) (us polls : ℕ) (serves : Serves hw us polls) where
  soon :
      (t now k : ℕ)
      → t ≤ now
      → now < t + k
      → k < 2 ^ 62
      → time_before64 (now % 2 ^ 64) ((t % 2 ^ 64 + k) % 2 ^ 64) ≡ true
  unfolding time_before64
  soon t now k later in_time small = ground arith

  module _ (small : patience hw us < 2 ^ 62) where
    abbrev polled : History → (w size : ℕ) → Svec
    polled h w size = record { bitstream_last_word = w; bitstream_last_word_size = size; bus = h }

    abbrev Done : ℕ → Svec → Type 0
    Done rv s = (flag rv csr_done ≡ true) × (flag rv csr_error ≡ false)

    abbrev limit : History → ℕ
    limit h = (hw.jiffies h % 2 ^ 64 + patience hw us) % 2 ^ 64

    -- The look at the clock and at CSR of a round.
    abbrev looked : (new h : History) → History
    looked new h = clock (hw.jiffies (new ++ h) % 2 ^ 64) ∷ (new ++ h)

    abbrev csr_at : (new h : History) → ℕ
    csr_at new h = hw.answer (looked new h) (svec_base_loader + reg_csr)

    -- A round is before the time limit: it reads DONE, or leads to the next.
    one_round :
        (fuel n : ℕ) (new h : History) (rval w size : ℕ)
        → Polling n new
        → n ≤ polls
        → (flag (csr_at new h) csr_done ≡ false
            → Returns Done (
                wait_done hw fuel (limit h) (csr_at new h) (
                  polled
                    (wait 900 ∷ rd (svec_base_loader + reg_csr) (csr_at new h) ∷ looked new h)
                    w
                    size)))
        → Returns Done (wait_done hw (suc fuel) (limit h) rval (polled (new ++ h) w size))
    unfolding wait_done ioread32be pause get_jiffies_64
    one_round fuel n new h rval w size polling few next =
        let (later, soon_enough) = serves.in_time n new polling few h in
        let before = soon (hw.jiffies h) (hw.jiffies (new ++ h)) _ later soon_enough small in
        elim (Bool-cases (flag (csr_at new h) csr_done)) [
          | inl done ↦ rw (before, done) (returns _ _ (done, serves.no_error (looked new h)))
          | inr running ↦ rw (before, running) (next running)
        ]

    wait_done-succeeds :
        (fuel left n : ℕ) (new h : History) (rval w size : ℕ)
        → Polling n new
        → n + left ≡ polls
        → left ≤ fuel
        → Returns Done (wait_done hw (suc fuel) (limit h) rval (polled (new ++ h) w size))
    wait_done-succeeds fuel zero n new h rval w size polling total enough =
        let last : n ≡ polls = omega arith in
        one_round fuel n new h rval w size polling (omega arith) (λ running.
          let done =
            serves.done new (subst (λ k. Polling k new) last polling)
              (hw.jiffies (new ++ h) % 2 ^ 64) h in
          absurd cc)
    wait_done-succeeds zero (suc left) n new h rval w size polling total enough =
        absurd (omega arith)
    wait_done-succeeds (suc fuel) (suc left) n new h rval w size polling total enough =
        one_round (suc fuel) n new h rval w size polling (omega arith) (λ running.
          wait_done-succeeds fuel left (suc n) _ h _ w size (poll _ _ polling) (omega arith)
            (omega arith))

    pub after_last_word-succeeds :
        (fuel : ℕ) (s : Svec)
        → polls ≤ fuel
        → Returns (λ c s'. c ≡ ok) (after_last_word hw (suc fuel) us ok s)
    unfolding after_last_word set_last get_jiffies_64 release csr_verdict iowrite32be pause
    after_last_word-succeeds fuel s enough =
        bind
          (wait_done-succeeds fuel polls 0 (clock (hw.jiffies s.bus % 2 ^ 64) ∷ []) s.bus 0
            u32_minus_one u32_minus_one (start _) (omega arith) enough)
          (λ rv s1 (done, fine). rw (fine, done) (returns _ _ refl))
