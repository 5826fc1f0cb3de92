-- ===== src/Core/Stop.antt =====
-- `svec_fpga_write_stop` of software/kernel/svec-core.c: the last word, the wait for the loader, and
-- the release of the VME bus.
use svec.Base.{
  ℕ, zero, suc, ◌+◌, ◌*◌, ◌%◌, ◌^◌, ◌≤◌, ◌<◌, ◌≡◌, refl, ap, ◌++◌, ◌⊎◌, inl, inr, true, false, [],
  ◌∷◌, ◌==◌, if◌then◌else◌, Bool-cases, flag, arith,
}
use svec.Base.Errors.{Code, ok}
use svec.Bus.{
  rd, wr, wait, clock, History, Hardware, KeepsTime, waited, Seen, Returns, returns, bind,
}
use svec.Loader.{csr_done, csr_exit, reg_csr}
use svec.Loader.Intake.{Intake, intake, write_csr}
use svec.Core.{
  Svec, svec_base_loader, u32_minus_one, iowrite32be, ioread32be, pause, set_last, get_jiffies_64,
  time_before64,
}
use svec.Core.Program.{csr_verdict, release, wait_done, after_last_word}
use svec.Core.Word.{taken, SameHeld}

-- A value of the loop's variable: the initial zero, or one of CSR that was read.
abbrev Answered : ℕ → History → Type 0
Answered rv h = (rv ≡ 0) ⊎ Seen (svec_base_loader + reg_csr) rv h

-- What is accessed from the start of the wait on: the clock, and then round by round the clock again and
-- CSR, which shows DONE clear, and a pause.
pub data Polls : History → Type 0 where
  begun : (t : ℕ) → Polls (clock t ∷ [])
  busy_round :
      (t v : ℕ) (new : History)
      → flag v csr_done ≡ false
      → Polls new
      → Polls (wait 900 ∷ rd (svec_base_loader + reg_csr) v ∷ clock t ∷ new)

-- The card was polled since `h0`, and the newest access is a look at the clock, which shows that `k`
-- jiffies are over.
abbrev pub Late : Hardware → (h0 : History) → (k : ℕ) → History → Type 0
Late hw h0 k after =
    (t : ℕ) × (new : History) × Polls new
    × (after ≡ clock t ∷ (new ++ h0))
    × (t ≡ hw.jiffies (new ++ h0) % 2 ^ 64)
    × (time_before64 t ((hw.jiffies h0 % 2 ^ 64 + k) % 2 ^ 64) ≡ false)

-- The wait ended at once where DONE was read, or late.
abbrev pub Ended : Hardware → (h0 : History) → (k rv : ℕ) → History → Type 0
Ended hw h0 k rv after = (flag rv csr_done ≡ true) ⊎ Late hw h0 k after

abbrev Waited : Hardware → (h0 : History) → (k : ℕ) → Svec → ℕ → Svec → Type 0
Waited hw h0 k s rv s' =
    SameHeld s s' × (taken s'.bus ≡ taken s.bus) × Answered rv s'.bus × Ended hw h0 k rv s'.bus

-- The signed comparison of two 64-bit counters tells the order of the counts behind them, as long
-- as the first is not far ahead.
time_before64-lt :
    (a b k : ℕ)
    → k < 2 ^ 62
    → a ≤ b + k + 2 ^ 40
    → time_before64 (a % 2 ^ 64) ((b % 2 ^ 64 + k) % 2 ^ 64) ≡ true
    → a < b + k
unfolding time_before64
time_before64-lt a b k small near h = ground arith

scale : (a b p : ℕ) → a < b → (a + 1) * p ≤ b * p
scale a b p h = grind arith

module _ (hw : Hardware) {period : ℕ} (time : KeepsTime hw period) where
  -- What the loop compares the clock with.
  abbrev deadline : History → ℕ → ℕ
  deadline h0 k = (hw.jiffies h0 % 2 ^ 64 + k) % 2 ^ 64

  -- A round that goes on finds the clock before the timeout, so it leaves time for another.
  fuel_left :
      (h0 new : History) (k budget : ℕ)
      → k < 2 ^ 62
      → hw.jiffies (new ++ h0) ≤ hw.jiffies h0 + k + 2 ^ 40
      → k * period < waited new + budget
      → time_before64 (hw.jiffies (new ++ h0) % 2 ^ 64) (deadline h0 k) ≡ true
      → (0 < budget) × (hw.jiffies (new ++ h0) < hw.jiffies h0 + k)
  fuel_left h0 new k budget small near enough soon =
      let lt = time_before64-lt (hw.jiffies (new ++ h0)) (hw.jiffies h0) k small near soon in
      let slow = time.counts h0 new in
      let le : (hw.jiffies (new ++ h0) + 1) * period ≤ (hw.jiffies h0 + k) * period =
        scale (hw.jiffies (new ++ h0)) (hw.jiffies h0 + k) period lt in
      (omega arith, lt)

  -- The clock after one more round.
  next_near :
      (h0 h : History) (k t v : ℕ)
      → hw.jiffies h < hw.jiffies h0 + k
      → hw.jiffies (wait 900 ∷ rd (svec_base_loader + reg_csr) v ∷ clock t ∷ h)
        ≤ hw.jiffies h0 + k + 2 ^ 40
  unfolding waited
  next_near h0 h k t v lt =
      let a = rd (svec_base_loader + reg_csr) v in
      omega (
        arith,
        time.steady (clock t) h,
        time.steady a (clock t ∷ h),
        time.steady (wait 900) (a ∷ clock t ∷ h),
      )

  clock-Late :
      (h0 new : History) (k : ℕ) (s : Svec)
      → s.bus ≡ new ++ h0
      → Polls new
      → time_before64 (hw.jiffies s.bus % 2 ^ 64) (deadline h0 k) ≡ false
      → Late hw h0 k (clock (hw.jiffies s.bus % 2 ^ 64) ∷ s.bus)
  clock-Late h0 new k s at polls late = (
    hw.jiffies s.bus % 2 ^ 64,
    new,
    polls,
    ap (λ (h : History). clock (hw.jiffies s.bus % 2 ^ 64) ∷ h) at,
    ap (λ h. hw.jiffies h % 2 ^ 64) at,
    late,
  )

  -- The wait ends: each round pauses, and the clock counts the pauses.
  wait_done-Waited :
      (fuel : ℕ) (h0 new : History) (k rval : ℕ) (s : Svec)
      → s.bus ≡ new ++ h0
      → Polls new
      → k < 2 ^ 62
      → hw.jiffies s.bus ≤ hw.jiffies h0 + k + 2 ^ 40
      → k * period < waited new + 900 * fuel
      → Answered rval s.bus
      → Returns (Waited hw h0 k s) (wait_done hw (suc fuel) (deadline h0 k) rval s)
  unfolding wait_done get_jiffies_64 ioread32be pause intake waited
  wait_done-Waited zero h0 new k rval s at polls small near enough ans =
      elim (Bool-cases (time_before64 (hw.jiffies s.bus % 2 ^ 64) (deadline h0 k))) [
        | inl soon ↦ absurd (
            omega
              (arith, fuel_left h0 new k (900 * zero) small (rw at at near) enough (rw at at soon)))
        | inr late ↦
            rw late
              (returns _ _ ((refl, refl), refl, ans, inr (clock-Late h0 new k s at polls late)))
      ]
  wait_done-Waited (suc fuel) h0 new k rval s at polls small near enough ans =
      let now = hw.jiffies s.bus % 2 ^ 64 in
      let h1 : History = clock now ∷ s.bus in
      let v = hw.answer h1 (svec_base_loader + reg_csr) in
      elim (Bool-cases (time_before64 now (deadline h0 k))) [
        | inr late ↦
            rw late
              (returns _ _ ((refl, refl), refl, ans, inr (clock-Late h0 new k s at polls late)))
        | inl soon ↦ rw soon (elim (Bool-cases (flag v csr_done)) [
          | inl done ↦ rw done (returns _ _ ((refl, refl), refl, inr (inl (refl, refl)), inl done))
          | inr busy ↦ rw busy (
              wait_done-Waited fuel h0
                (wait 900 ∷ rd (svec_base_loader + reg_csr) v ∷ clock now ∷ new) k v
                (record s { bus = wait 900 ∷ rd (svec_base_loader + reg_csr) v ∷ h1 })
                (ap (λ h. wait 900 ∷ rd (svec_base_loader + reg_csr) v ∷ clock now ∷ h) at)
                (busy_round now v new busy polls) small
                (next_near h0 s.bus k now v (before small near enough soon)) (omega arith)
                (inr (inl (refl, refl))))
        ])
      ]
    where
      before :
          k < 2 ^ 62
          → hw.jiffies s.bus ≤ hw.jiffies h0 + k + 2 ^ 40
          → k * period < waited new + 900 * suc fuel
          → time_before64 (hw.jiffies s.bus % 2 ^ 64) (deadline h0 k) ≡ true
          → hw.jiffies s.bus < hw.jiffies h0 + k
      before small near enough soon =
          rw at (fuel_left h0 new k (900 * suc fuel) small (rw at at near) enough (rw at at soon)).1

-- The last two accesses give the VME bus to the Application FPGA and pause.
abbrev pub Released : History → Type 0
Released after = (h : History) × (after ≡ wait 10000 ∷ wr (svec_base_loader + reg_csr) csr_exit ∷ h)

-- A stop that sent its last word, with what the loader had then taken in.
pub record Finished (hw : Hardware) (h0 : History) (k : ℕ) (t : Intake) (c : Code) (s : Svec)
    : Type 0 where
  pub rv : ℕ
  pub taken_t : taken s.bus ≡ t
  pub released : Released s.bus
  pub no_word : s.bitstream_last_word_size ≡ u32_minus_one
  pub code : c ≡ csr_verdict rv
  pub before : History
  pub given_back : s.bus ≡ wait 10000 ∷ wr (svec_base_loader + reg_csr) csr_exit ∷ before
  pub ended : Ended hw h0 k rv before
  pub answered : (rv ≡ 0) ⊎ Seen (svec_base_loader + reg_csr) rv s.bus

-- The wait that a timeout of the image information, or the default one, gives in jiffies.
abbrev pub patience : Hardware → ℕ → ℕ
patience hw us = hw.usecs_to_jiffies (if us == 0 then 100 else us)

module _ (hw : Hardware) {period : ℕ} (time : KeepsTime hw period) (fuel us : ℕ)
    (small : patience hw us < 2 ^ 62) (enough : patience hw us * period < 900 * fuel) where
  pub after_last_word-Finished :
      (s : Svec)
      → Returns
          (Finished hw s.bus (patience hw us) (taken s.bus))
          (after_last_word hw (suc fuel) us ok s)
  unfolding after_last_word set_last get_jiffies_64 release iowrite32be pause intake write_csr flag
      waited
  after_last_word-Finished s =
      let k = patience hw us in
      let t0 = hw.jiffies s.bus % 2 ^ 64 in
      let s1 : Svec = record {
        bitstream_last_word = u32_minus_one;
        bitstream_last_word_size = u32_minus_one;
        bus = clock t0 ∷ s.bus;
      } in
      bind
        (wait_done-Waited hw time fuel s.bus (clock t0 ∷ []) k 0 s1 refl (begun t0) small
          (omega (arith, time.steady (clock t0) s.bus)) (omega arith) (inl refl))
        (λ rv s2 w. returns _ _ (record {
          rv = rv;
          taken_t = w.1;
          released = (s2.bus, refl);
          no_word = w.0.1;
          code = refl;
          before = s2.bus;
          given_back = refl;
          ended = w.3;
          answered = w.2;
        }))
