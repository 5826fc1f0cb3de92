-- ===== src/Flasher/Loading.antt =====
-- What the loader takes in from `program_afpga` of software/tools/vme-flasher/svec-flasher.c.
use svec.Base.{
  ℕ, zero, suc, ◌+◌, ◌-◌, ◌*◌, ◌%◌, ◌^◌, ◌≤◌, ◌<◌, ◌≡◌, refl, ap, ◌∙◌, inl, inr, true, false,
  Bool-cases, List, [], ◌∷◌, slice, ltb, ltb→lt, if◌then◌else◌, flag, word_of_bytes, bswap32,
  bswap32-bswap32, arith, bit_or,
}
use native.Mathlib.Nat.{mul-le-mul_right}
use svec.Base.Errors.{Code, ok, err, eperm}
use svec.Bus.{asked, Seen, rd, wr, History, Hardware, Returns, returns, bind, pure, ◌>>◌}
use svec.Loader.{
  csr_swrst, csr_start, csr_msbf, csr_exit, csr_done, csr_error, fifo_csr_full, reg_csr,
  reg_fifo_csr,
}
use svec.Loader.Intake.{open_with, intake, write_csr}
use svec.Core.{Buffer}
use svec.Core.Stream.{contents, IsBytes, entry_at, entry_at_bounds}
use svec.Flasher.{csr_writel, csr_readl, load, store}
use svec.Flasher.Entries.{delivered, Delivered, send_loop-finished, after_round}
use svec.Flasher.Afpga.{send_loop, done_loop, program_afpga}

-- A card that serves: its FIFO has room when it has been asked `full` times in a row, and it is done
-- when it has been asked `slow` times in a row. A register's value has 32 bits.
pub record Serves (hw : Hardware) (full slow : ℕ) : Type 0 where
  pub room : (h : History) → full ≤ asked h → flag (hw.answer h reg_fifo_csr) fifo_csr_full ≡ false
  pub done : (h : History) → slow ≤ asked h → flag (hw.answer h reg_csr) csr_done ≡ true
  pub word : (h : History) (a : ℕ) → hw.answer h a < 2 ^ 32

module _ (hw : Hardware) (full slow : ℕ) (serves : Serves hw full slow) (b : Buffer)
    (bytes : IsBytes b) where
  -- An entry, and the rounds that may find the FIFO full before it.
  entry_rounds :
      (rest rest' left fuel : ℕ)
      → rest' < rest
      → rest * suc full + left ≤ suc fuel + full
      → rest' * suc full + full ≤ fuel + full
  entry_rounds rest rest' left fuel shorter enough =
      let below = mul-le-mul_right (suc full) shorter in omega arith

  no_entry : (rest left : ℕ) → rest * suc full + left ≤ full → rest ≡ 0
  no_entry zero left enough = refl
  no_entry (suc rest) left enough = absurd (omega arith)

  waits :
      (left : ℕ) (h : History)
      → flag (hw.answer h reg_fifo_csr) fifo_csr_full ≡ true
      → full ≤ asked h + left
      → 1 ≤ left
  waits zero h filled polled = let room = serves.room h (omega arith) in absurd cc
  waits (suc left) h filled polled = omega arith

  -- `left` rounds more may find the FIFO full, and each later entry takes `full` more and its own.
  send_loop_lem :
      (fuel left i : ℕ) (bs : List ℕ) (h : History)
      → i % 4 ≡ 0
      → i ≤ b.size
      → full ≤ asked h + left
      → (b.size - i) * suc full + left ≤ fuel + full
      → intake 0 h ≡ open_with true bs
      → Returns (λ _ h'. Delivered hw b bytes bs i h') (send_loop hw fuel b i h)
  unfolding send_loop csr_readl csr_writel load store intake
  send_loop_lem zero left i bs h aligned hi polled enough e =
      send_loop-finished hw b bytes zero i bs h aligned hi
        (omega (arith, no_entry (b.size - i) left (omega arith))) e
  send_loop_lem (suc fuel) left i bs h aligned hi polled enough e =
      elim (Bool-cases (ltb i b.size)) [
        | inr over ↦ send_loop-finished hw b bytes (suc fuel) i bs h aligned hi (ground arith) e
        | inl under ↦
            let less = ltb→lt i b.size under in
            let same = bswap32-bswap32 _ (serves.word h reg_fifo_csr) in
            rw (under, same)
              (elim (Bool-cases (flag (hw.answer h reg_fifo_csr) fifo_csr_full)) [
                | inr room ↦ rw room (
                    after_round hw b bytes fuel i bs h aligned less room e
                      (λ bs' aligned' shorter e'.
                        send_loop_lem fuel full (i + entry_at b i) bs' _ aligned'
                          (entry_at_bounds b i less).2 (omega arith)
                          (entry_rounds _ _ left fuel shorter enough) e'))
                | inl filled ↦ rw filled (
                    let some = waits left h filled polled in
                    send_loop_lem fuel (left - 1) i bs
                      (rd reg_fifo_csr (hw.answer h reg_fifo_csr) ∷ h) aligned hi (omega arith)
                      (omega arith) e)
              ])
      ]

  -- The verdict is on a value of CSR that was read.
  abbrev pub Loaded : Code → History → Type 0
  Loaded c h' =
      (intake 0 h' ≡ delivered b.size (contents b))
      × (v : ℕ) × Seen reg_csr v h'
      × (c ≡ (if flag v csr_error then err eperm else ok))

  abbrev started : History → History
  started h =
      wr reg_csr (bswap32 (bswap32 (bit_or csr_start csr_msbf)))
      ∷ wr reg_csr (bswap32 (bswap32 csr_swrst))
      ∷ h

  intake-started : (h : History) → intake 0 (started h) ≡ open_with true []
  unfolding intake write_csr flag bswap32 word_of_bytes
  intake-started h = refl

  intake-exit :
      (h : History) (v : ℕ)
      → intake 0 (wr reg_csr (bswap32 (bswap32 csr_exit)) ∷ rd reg_csr v ∷ h) ≡ intake 0 h
  unfolding intake write_csr flag bswap32 word_of_bytes
  intake-exit h v = refl

  -- What follows the read that has seen DONE.
  exits :
      (h : History)
      → intake 0 h ≡ delivered b.size (contents b)
      → Returns Loaded (
          (do
            csr_writel csr_exit reg_csr
            pure (if flag (hw.answer h reg_csr) csr_error then err eperm else ok))
            (rd reg_csr (hw.answer h reg_csr) ∷ h))
  unfolding csr_writel store
  exits h e =
      returns _ _
        (intake-exit h (hw.answer h reg_csr) ∙ e, hw.answer h reg_csr, inl (refl, refl), refl)

  done_loop_lem :
      (fuel : ℕ) (h : History)
      → slow ≤ asked h + fuel
      → intake 0 h ≡ delivered b.size (contents b)
      → Returns Loaded (done_loop hw (suc fuel) h)
  unfolding done_loop csr_readl csr_writel load store intake
  done_loop_lem zero h enough e =
      let w = bswap32-bswap32 (hw.answer h reg_csr) (serves.word h reg_csr) in
      rw (w, serves.done h (omega arith)) (exits h e)
  done_loop_lem (suc fuel) h enough e =
      let w = bswap32-bswap32 (hw.answer h reg_csr) (serves.word h reg_csr) in
      elim (Bool-cases (flag (hw.answer h reg_csr) csr_done)) [
        | inl done ↦ rw (w, done) (exits h e)
        | inr running ↦
            rw (w, running)
              (done_loop_lem fuel (rd reg_csr (hw.answer h reg_csr) ∷ h) (omega arith) e)
      ]

  -- On a card that serves, `program_afpga` returns for every bitstream of bytes, given for each
  -- byte fuel for one round and for as many as the FIFO can be full, and fuel for as long as the card
  -- can take to be done. The loader has then taken in exactly the bitstream, and has been told that
  -- it ends only if the size is no multiple of four. The result is -1 if ERROR was set in a value of
  -- CSR that was read, and 0 otherwise.
  pub program_afpga_lem :
      (fuel : ℕ) (h : History)
      → b.size * suc full ≤ suc fuel
      → slow ≤ fuel
      → Returns Loaded (program_afpga hw (suc fuel) b h)
  unfolding program_afpga csr_writel store
  program_afpga_lem fuel h enough patient =
      bind
        (send_loop_lem (suc fuel) full 0 [] (started h) (omega arith) (omega arith) (omega arith)
          (omega (arith, ap (λ k. k * suc full) minus_zero)) (intake-started h))
        (λ _ h' e.
          done_loop_lem fuel h' (omega arith)
            (e ∙ ap (λ k. delivered b.size (slice b.mem 0 k)) minus_zero))
    where
      minus_zero : b.size - 0 ≡ b.size
      minus_zero = omega arith
