-- ===== src/Core/Complete.antt =====
-- `svec_fpga_write_complete` of software/kernel/svec-core.c, after a bitstream.
use svec.Base.{
  ℕ, suc, ◌+◌, ◌*◌, ◌^◌, ◌<◌, ◌≡◌, refl, sym, ◌∙◌, ◌⊎◌, inl, inr, true, false, List, [], ◌∷◌, take,
  subst, Bool-cases, flag,
}
use mathlib.Core.Bool.{false≢true}
use svec.Base.Errors.{Code, ok, err, einval, ebusy, eio}
use svec.Bus.{History, wr, wait, Hardware, KeepsTime, Seen, Returns, returns, weaken, bind}
use svec.Loader.{csr_done, csr_error, csr_exit, reg_csr}
use svec.Loader.Intake.{Intake, closed, intake, write_csr}
use svec.Core.{Svec, svec_base_loader, u32_minus_one, iowrite32be, pause}
use svec.Core.Program.{
  forgive_einval, csr_verdict, release, after_last_word, svec_fpga_write_stop,
  svec_fpga_write_complete,
}
use svec.Core.Word.{taken, SawFull}
use svec.Core.Stream.{Held, Flushed, flush-Held, Partway}
use svec.Core.Stop.{Late, Finished, patience, after_last_word-Finished}

-- What a code of `write_complete` says, once the loader has taken in `t`.
abbrev pub Verdict : Intake → Code → Svec → Type 0
Verdict t ok s =
    (taken s.bus ≡ t)
    × ((rv : ℕ) × Seen (svec_base_loader + reg_csr) rv s.bus
        × (flag rv csr_done ≡ true)
        × (flag rv csr_error ≡ false))
Verdict t (err einval) s =
    (taken s.bus ≡ t)
    × ((rv : ℕ) × Seen (svec_base_loader + reg_csr) rv s.bus × (flag rv csr_error ≡ true))
Verdict t (err eio) s = taken s.bus ≡ t
Verdict t _ s = ⊥

-- A value with a flag that zero lacks is one that was read.
Seen-of_flag :
    (rv mask : ℕ) (s : Svec)
    → flag 0 mask ≡ false
    → flag rv mask ≡ true
    → (rv ≡ 0) ⊎ Seen (svec_base_loader + reg_csr) rv s.bus
    → Seen (svec_base_loader + reg_csr) rv s.bus
Seen-of_flag rv mask s zero_lacks h (inl e) = absurd (false≢true (sym zero_lacks ∙ rw e at h))
Seen-of_flag rv mask s zero_lacks h (inr seen) = seen

Finished-Verdict :
    (hw : Hardware) (h0 : History) (k : ℕ) (t : Intake) (c : Code) (s : Svec)
    → Finished hw h0 k t c s
    → Verdict t c s
unfolding csr_verdict flag
Finished-Verdict hw h0 k t c s f = rw f.code (elim (Bool-cases (flag f.rv csr_error)) [
  | inl bad ↦ rw bad (f.taken_t, (f.rv, Seen-of_flag f.rv csr_error s refl bad f.answered, bad))
  | inr fine ↦ rw fine (elim (Bool-cases (flag f.rv csr_done)) [
    | inl done ↦
        rw done (f.taken_t, (f.rv, Seen-of_flag f.rv csr_done s refl done f.answered, done, fine))
    | inr busy ↦ rw busy f.taken_t
  ])
])

-- The last accesses release the VME bus, and follow on `before`.
abbrev pub ReleasedAfter : (before after : History) → Type 0
ReleasedAfter before after = after ≡ wait 10000 ∷ wr (svec_base_loader + reg_csr) csr_exit ∷ before

-- Where the code is EIO, the time for the configuration was over before the bus was released, counted from
-- the end `h0` of the last word.
abbrev pub TimedOut : Hardware → (k : ℕ) → List ℕ → Code → History → Type 0
TimedOut hw k bs (err eio) before = (h0 : History) × (taken h0 ≡ closed bs) × Late hw h0 k before
TimedOut hw k bs _ before = Unit

Finished-TimedOut :
    (hw : Hardware) (k : ℕ) (bs : List ℕ) (h0 : History) (t : Intake) (c : Code) (s : Svec)
    → taken h0 ≡ closed bs
    → (f : Finished hw h0 k t c s) → TimedOut hw k bs c f.before
unfolding csr_verdict
Finished-TimedOut hw k bs h0 t c s sent f = rw f.code (elim (Bool-cases (flag f.rv csr_error)) [
  | inl bad ↦ rw bad tt
  | inr fine ↦ elim f.ended [
    | inl done ↦ rw (fine, done) tt
    | inr late ↦ elim (Bool-cases (flag f.rv csr_done)) [
      | inl done ↦ rw (fine, done) tt
      | inr busy ↦ rw (fine, busy) (h0, sent, late)
    ]
  ]
])

-- Either the last word was sent and marked, and the code is the loader's verdict on exactly `bs`, or the
-- FIFO was full at the last look, with EBUSY. The bus is released in both cases.
abbrev pub CompleteEnd : Hardware → (k : ℕ) → List ℕ → Code → Svec → Type 0
CompleteEnd hw k bs c s =
    (before : History) × ReleasedAfter before s.bus
    × (((s.bitstream_last_word_size ≡ u32_minus_one)
          × Verdict (closed bs) c s
          × TimedOut hw k bs c before)
        ⊎ ((c ≡ err ebusy) × Partway bs s × SawFull before))

module _ (hw : Hardware) {period : ℕ} (time : KeepsTime hw period) (fuel us : ℕ)
    (small : patience hw us < 2 ^ 62) (enough : patience hw us * period < 900 * fuel) where
  -- After a bitstream, `write_complete` returns. It sends the word held back, marked as the last, so
  -- that the loader has taken in exactly the bitstream, closed; then it waits, and returns zero only
  -- after a read of CSR with DONE and without ERROR, EINVAL only after one with ERROR, and EIO only
  -- after rounds that each read CSR with DONE clear, and a look at the clock, which shows that the time
  -- for the configuration is over. If the FIFO
  -- stays full it returns EBUSY, and the last look at it showed FULL. In every case its last accesses
  -- release the VME bus.
  pub svec_fpga_write_complete_lem :
      (bs : List ℕ) (s : Svec)
      → Held bs s
      → Returns (CompleteEnd hw (patience hw us) bs) (svec_fpga_write_complete hw (suc fuel) us s)
  unfolding svec_fpga_write_complete svec_fpga_write_stop forgive_einval after_last_word release
      iowrite32be pause intake write_csr flag
  svec_fpga_write_complete_lem bs s h = bind (flush-Held hw true bs s h) go
    where
      go :
          (c : Code) (s1 : Svec)
          → Flushed true bs s c s1
          → Returns
              (CompleteEnd hw (patience hw us) bs)
              (after_last_word hw (suc fuel) us (forgive_einval c) s1)
      go ok s1 t = weaken (after_last_word-Finished hw time fuel us small enough s1) (λ c s2 f.
          let v =
            subst (λ t'. Verdict t' c s2) t
              (Finished-Verdict hw s1.bus (patience hw us) (taken s1.bus) c s2 f) in
          let late = Finished-TimedOut hw (patience hw us) bs s1.bus (taken s1.bus) c s2 t f in
          (f.before, f.given_back, inl (f.no_word, v, late)))
      go (err ebusy) s1 (t, full) = returns _ _ (
        s1.bus,
        refl,
        inr (
          refl,
          record {
            front = h.got;
            back = take s.bitstream_last_word_size (h.b0 ∷ h.b1 ∷ h.b2 ∷ h.b3 ∷ []);
            taken_front = t ∙ h.taken_got;
            split = sym h.all;
          },
          full,
        ),
      )
      go (err _) s1 t = absurd t
