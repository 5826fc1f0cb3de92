-- ===== src/Core/Serving.antt =====
-- A card that serves: on it the FPGA manager operations of software/kernel/svec-core.c load every
-- bitstream with success.
use svec.Base.{
  arith, ℕ, zero, suc, ◌+◌, ◌*◌, ◌/◌, ◌^◌, ◌≤◌, ◌<◌, ◌≡◌, ◌≢◌, refl, sym, ◌∙◌, subst, inl, inr, ◌⊎◌,
  Bool, true, false, Bool-cases, List, [], ◌∷◌, ◌==◌, ◌||◌, ltb, leb, ltb→lt, le→ltb, flag,
}
use svec.Base.Errors.{Code, ok, err, einval, enxio}
use svec.Bus.{rd, asked, Hardware, KeepsTime, Run, ret, Returns, returns, weaken, bind, ◌>>=◌}
use svec.Loader.{fifo_csr_full, reg_fifo_csr}
use svec.Core.{
  Svec, Buffer, load_word, set_last, Drv, svec_base_loader, u32_minus_one, iowrite32be, ioread32be,
  poll_fifo, svec_fpga_write_word,
}
use svec.Core.Program.{
  forgive_einval, after_last_word, svec_fpga_write_stop, fatal, write_loop, svec_fpga_write_buf,
  svec_fpga_write, svec_fpga_write_complete,
}
use svec.Core.Stream.{entry_at, entry_at_bounds}
use svec.Core.Start.{InitEnd, svec_fpga_write_init_lem}
use svec.Core.Stop.{patience}
use svec.Core.Polling.{Serves, after_last_word-succeeds}
use svec.Core.Manager.{unless_err, write_all, load_image}
use svec.Core.Image.{image, AllBytes, ImageEnd, load_image-ImageEnd}

-- The driver holds a word of one to four bytes back.
abbrev InRange : Svec → Type 0
InRange s = (1 ≤ s.bitstream_last_word_size) × (s.bitstream_last_word_size ≤ 4)

-- It holds one back, or none yet.
abbrev Ready : Svec → Type 0
Ready s = (s.bitstream_last_word_size ≡ u32_minus_one) ⊎ InRange s

-- The word that is held back was sent, or there was none.
abbrev Flushes : Svec → Code → Svec → Type 0
Flushes s c s' =
    (s'.bitstream_last_word_size ≡ s.bitstream_last_word_size)
    × (((c ≡ ok) × InRange s) ⊎ ((c ≡ err einval) × (s.bitstream_last_word_size ≡ u32_minus_one)))

module _ (hw : Hardware) (us polls : ℕ) (serves : Serves hw us polls) where
  poll_fifo-room :
      (n : ℕ) (s : Svec)
      → 10000 ≤ asked s.bus + n
      → Returns
          (λ rv s'.
            (flag rv fifo_csr_full ≡ false)
            × (s'.bitstream_last_word_size ≡ s.bitstream_last_word_size))
          (poll_fifo hw n s)
  unfolding poll_fifo ioread32be
  poll_fifo-room zero s polled = returns _ _ (serves.room s.bus (omega arith), refl)
  poll_fifo-room (suc n) s polled =
      let v = hw.answer s.bus (svec_base_loader + reg_fifo_csr) in
      elim (Bool-cases (flag v fifo_csr_full)) [
        | inr free ↦ rw free (returns _ _ (free, refl))
        | inl filled ↦ rw filled (
            poll_fifo-room n (record s { bus = rd (svec_base_loader + reg_fifo_csr) v ∷ s.bus })
              (omega arith))
      ]

  write_word-Flushes :
      (last : Bool) (s : Svec)
      → Ready s
      → Returns
          (Flushes s)
          (svec_fpga_write_word hw s.bitstream_last_word s.bitstream_last_word_size last s)
  unfolding svec_fpga_write_word iowrite32be
  write_word-Flushes last s (inl none_yet) =
      let wrong : ((s.bitstream_last_word_size == 0) || leb 5 s.bitstream_last_word_size) ≡ true =
        ground (arith, none_yet) in
      rw wrong (returns _ _ (refl, inr (refl, none_yet)))
  write_word-Flushes last s (inr (lo, hi)) =
      let right : ((s.bitstream_last_word_size == 0) || leb 5 s.bitstream_last_word_size) ≡ false =
        ground arith in
      rw right (
        bind (poll_fifo-room 10000 s (omega arith))
          (λ rv s1 (free, same). rw free (returns _ _ (same, inl (refl, (lo, hi))))))

  not_fatal :
      (i : ℕ) (s s1 : Svec) (c : Code) → (i ≡ 0) ⊎ InRange s → Flushes s c s1 → fatal hw c i ≡ false
  unfolding fatal
  not_fatal i s s1 c at (same, inl (sent, range)) = rw sent refl
  not_fatal i s s1 c (inl first) (same, inr (sent, none_yet)) = rw (sent, first) refl
  not_fatal i s s1 c (inr (lo, hi)) (same, inr (sent, none_yet)) = absurd (omega (arith, none_yet))

  -- In the first round there may be no word; behind it there is one.
  loop-succeeds :
      (b : Buffer) (fuel i : ℕ) (s : Svec)
      → b.size ≤ i + fuel
      → Ready s
      → (i ≡ 0) ⊎ InRange s
      → Returns (λ c s'. (c ≡ ok) × Ready s') (write_loop hw fuel b i s)
  unfolding write_loop set_last
  loop-succeeds b zero i s enough ready at =
      rw (le→ltb i b.size (omega arith)) (returns _ _ (refl, ready))
  loop-succeeds b (suc fuel) i s enough ready at = elim (Bool-cases (ltb i b.size)) [
    | inr over ↦ rw over (returns _ _ (refl, ready))
    | inl more ↦
        let lt = ltb→lt i b.size more in
        let (lo, hi, inside) = entry_at_bounds b i lt in
        rw more (
          bind (write_word-Flushes false s ready) (λ c s1 p. rw (not_fatal i s s1 c at p) (
            loop-succeeds b fuel (i + entry_at b i)
              (record s1 {
                bitstream_last_word = load_word b (i / 4);
                bitstream_last_word_size = entry_at b i;
              })
              (omega arith) (inr (lo, hi)) (inr (lo, hi)))))
  ]

  write_all-succeeds :
      (bufs : List Buffer) (s : Svec)
      → Ready s
      → Returns (λ c s'. (c ≡ ok) × Ready s') (write_all (svec_fpga_write hw) bufs s)
  unfolding write_all svec_fpga_write svec_fpga_write_buf
  write_all-succeeds [] s ready = returns _ _ (refl, ready)
  write_all-succeeds (b ∷ bufs) s ready =
      bind (loop-succeeds b b.size 0 s (omega arith) ready (inl refl))
        (λ c s1 (fine, ready1). rw fine (write_all-succeeds bufs s1 ready1))

  module _ (small : patience hw us < 2 ^ 62) where
    write_complete-succeeds :
        (fuel : ℕ) (s : Svec)
        → polls ≤ fuel
        → Ready s
        → Returns (λ c s'. c ≡ ok) (svec_fpga_write_complete hw (suc fuel) us s)
    unfolding svec_fpga_write_complete svec_fpga_write_stop forgive_einval
    write_complete-succeeds fuel s enough ready =
        bind (write_word-Flushes true s ready) (λ c s1 p. forgiven c s1 p.1)
      where
        forgiven :
            (c : Code) (s1 : Svec)
            → ((c ≡ ok) × InRange s)
              ⊎ ((c ≡ err einval) × (s.bitstream_last_word_size ≡ u32_minus_one))
            → Returns (λ c' s'. c' ≡ ok) (after_last_word hw (suc fuel) us (forgive_einval c) s1)
        forgiven c s1 (inl (sent, range)) =
            rw sent (after_last_word-succeeds hw us polls serves small fuel s1 enough)
        forgiven c s1 (inr (sent, none_yet)) =
            rw sent (after_last_word-succeeds hw us polls serves small fuel s1 enough)

    -- From `write` on.
    abbrev after_init : ℕ → List Buffer → Drv Code
    after_init fuel bufs = do
      e ← write_all (svec_fpga_write hw) bufs
      unless_err e (svec_fpga_write_complete hw (suc fuel) us)

    after_init-succeeds :
        (fuel : ℕ) (bufs : List Buffer) (s : Svec)
        → polls ≤ fuel
        → Ready s
        → Returns (λ c s'. c ≡ ok) (after_init fuel bufs s)
    after_init-succeeds fuel bufs s enough ready =
        bind (write_all-succeeds bufs s ready)
          (λ c s1 (fine, ready1). rw fine (write_complete-succeeds fuel s1 enough ready1))

    load_image-succeeds :
        (fuel : ℕ) (bufs : List Buffer) (s : Svec)
        → polls ≤ fuel
        → Returns (λ c s'. c ≡ ok) (load_image hw (suc fuel) us bufs s)
    unfolding load_image
    load_image-succeeds fuel bufs s enough =
        bind (svec_fpga_write_init_lem hw s) (λ c s1 p. started c s1 p)
      where
        started :
            (c : Code) (s1 : Svec)
            → InitEnd hw s c s1
            → Returns (λ c' s'. c' ≡ ok) (unless_err c (after_init fuel bufs) s1)
        started ok s1 (named, written, fresh) =
            after_init-succeeds fuel bufs s1 enough (inl fresh.no_word)
        started (err enxio) s1 (other, written, same) =
            let no : true ≡ false = sym (serves.named _) ∙ other in absurd (ground (arith, no))
        started (err _) s1 p = absurd p

-- Two facts on one run.
abbrev Where : {S A : Type 0} → (A → S → Type 0) → Run S A → Type 0
Where P (ret a s) = P a s
Where P other = ⊥

Returns-Where : {S A : Type 0} {P : A → S → Type 0} (r : Run S A) → Returns P r → Where P r
Returns-Where r p = rw p.returned p.holds

both :
    {S A : Type 0} {P Q : A → S → Type 0} (r : Run S A)
    → Returns P r
    → Returns Q r
    → Returns (λ a s. P a s × Q a s) r
both {P = P} r p q = record {
  value = q.value;
  state = q.state;
  returned = q.returned;
  holds = (subst (Where P) q.returned (Returns-Where r p), q.holds);
}

-- On a card whose FIFO has room after at most 10000 reads and that is done, without an error, after at
-- most `polls` rounds of the wait, which fit into the time limit, and with a clock that runs: loading
-- a bitstream that is not empty returns zero, however it is cut into buffers, and the loader has then
-- taken in exactly the bitstream, with the last entry alone marked as the last.
pub load_image-Serves :
    (hw : Hardware) (us polls : ℕ) (serves : Serves hw us polls) {period : ℕ}
    (time : KeepsTime hw period) (fuel : ℕ)
    → polls ≤ fuel
    → patience hw us < 2 ^ 62
    → patience hw us * period < 900 * fuel
    → (bufs : List Buffer) (s : Svec) → AllBytes bufs
    → image bufs ≢ []
    → Returns
        (λ c s'. (c ≡ ok) × ImageEnd hw s (image bufs) ok s')
        (load_image hw (suc fuel) us bufs s)
load_image-Serves hw us polls serves time fuel some_fuel small enough bufs s bytes some_bytes =
    weaken
      (both _ (load_image-ImageEnd hw time fuel us small enough bufs s bytes some_bytes)
        (load_image-succeeds hw us polls serves small fuel bufs s some_fuel))
      (λ c s' (ends, fine). (fine, subst (λ z. ImageEnd hw s (image bufs) z s') fine ends))
