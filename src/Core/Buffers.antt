-- ===== src/Core/Buffers.antt =====
-- `svec_fpga_write_buf` and `svec_fpga_write` of software/kernel/svec-core.c: the loop over the
-- words of a buffer.
use svec.Base.{
  ℕ, zero, suc, ◌+◌, ◌-◌, ◌/◌, ◌%◌, ◌≤◌, ◌<◌, ◌≡◌, refl, sym, ◌∙◌, ap, ◌⊎◌, inl, inr, true, false,
  List, [], ◌∷◌, ◌++◌, append_assoc, subst, slice, ltb, ltb→lt, le→ltb, lt→ltb, if◌then◌else◌,
  Bool-cases, arith, take,
}
use svec.Base.Errors.{Code, ok, err, ebusy}
use svec.Bus.{Hardware, Returns, returns, weaken, bind, pure, ◌>>◌}
use svec.Loader.Intake.{open_with}
use svec.Core.{Svec, Buffer, load_word, set_last}
use svec.Core.Program.{fatal, write_loop, svec_fpga_write_buf, svec_fpga_write}
use svec.Core.Word.{taken}
use svec.Core.Stream.{
  contents, IsBytes, Fresh, Held, Flushed, flush-Held, flush-Fresh, Partway, LoopEnd, Held-load,
  entry_at, entry_at_bounds, entry_at_aligned, slice-rest, slice-done,
}

module _ (hw : Hardware) (b : Buffer) (bytes : IsBytes b) where
  -- What is proved of the rounds behind the one at `i`.
  abbrev Later : ℕ → ℕ → List ℕ → Type 0
  Later fuel i bs =
      let n = entry_at b i in
      (s : Svec)
      → Held (bs ++ slice b.mem i n) s
      → Returns (LoopEnd ((bs ++ slice b.mem i n) ++ slice b.mem (i + n) (b.size - (i + n))))
          (write_loop hw fuel b (i + n) s)

  position :
      (i : ℕ) → i < b.size → i % 4 ≡ 0 → ((i + entry_at b i) % 4 ≡ 0) ⊎ (b.size ≤ i + entry_at b i)
  position i lt aligned = ground (arith, entry_at_aligned b i aligned lt)

  -- The word at `i` is held back, and the loop goes on behind it.
  advance :
      (fuel i : ℕ) (bs : List ℕ) (s : Svec)
      → i < b.size
      → i % 4 ≡ 0
      → taken s.bus ≡ open_with true bs
      → Later fuel i bs
      → Returns (LoopEnd (bs ++ slice b.mem i (b.size - i))) (
          write_loop hw fuel b (i + entry_at b i) (record s {
            bitstream_last_word = load_word b (i / 4);
            bitstream_last_word_size = entry_at b i;
          }))
  advance fuel i bs s more aligned t later =
      let (lo, hi, inside) = entry_at_bounds b i more in
      let s' : Svec = record s {
        bitstream_last_word = load_word b (i / 4);
        bitstream_last_word_size = entry_at b i;
      } in
      subst (λ l. Returns (LoopEnd l) (write_loop hw fuel b (i + entry_at b i) s'))
        (slice-rest b i bs more)
        (later s' (Held-load b i (entry_at b i) bs s bytes aligned lo hi t))

  round-Held :
      (fuel i : ℕ) (bs : List ℕ) (s : Svec)
      → i < b.size
      → i % 4 ≡ 0
      → Held bs s
      → Later fuel i bs
      → Returns (LoopEnd (bs ++ slice b.mem i (b.size - i))) (write_loop hw (suc fuel) b i s)
  unfolding write_loop set_last fatal
  round-Held fuel i bs s more aligned h later =
      rw (lt→ltb i b.size more) (bind (flush-Held hw false bs s h) go)
    where
      kept : List ℕ
      kept = take s.bitstream_last_word_size (h.b0 ∷ h.b1 ∷ h.b2 ∷ h.b3 ∷ [])

      rest : List ℕ
      rest = slice b.mem i (b.size - i)

      go :
          (c : Code) (s1 : Svec)
          → Flushed false bs s c s1
          → Returns (LoopEnd (bs ++ slice b.mem i (b.size - i))) (
              (if fatal hw c i
                  then pure c
                  else set_last (load_word b (i / 4)) (entry_at b i)
                    >> write_loop hw fuel b (i + entry_at b i))
                s1)
      go ok s1 t = advance fuel i bs s1 more aligned t later
      go (err ebusy) s1 (t, full) = returns (err ebusy) s1 (record {
        front = h.got;
        back = kept ++ rest;
        taken_front = t ∙ h.taken_got;
        split = sym (append_assoc h.got kept rest) ∙ ap (λ l. l ++ rest) (sym h.all);
      })
      go (err _) s1 t = absurd t

  -- From a held-back word the loop goes over the rest of the buffer.
  loop-Held :
      (fuel i : ℕ) (bs : List ℕ) (s : Svec)
      → b.size ≤ i + fuel
      → (i % 4 ≡ 0) ⊎ (b.size ≤ i)
      → Held bs s
      → Returns (LoopEnd (bs ++ slice b.mem i (b.size - i))) (write_loop hw fuel b i s)
  unfolding write_loop
  loop-Held zero i bs s enough pos h =
      rw (le→ltb i b.size (omega arith)) (returns ok s (rw (slice-done b i bs (omega arith)) h))
  loop-Held (suc fuel) i bs s enough pos h = elim (Bool-cases (ltb i b.size)) [
    | inl more ↦
        let lt = ltb→lt i b.size more in
        round-Held fuel i bs s lt (omega arith) h (λ s2 h2.
          loop-Held fuel (i + entry_at b i) (bs ++ slice b.mem i (entry_at b i)) s2
            (omega (arith, entry_at_bounds b i lt)) (position i lt (omega arith)) h2)
    | inr done ↦ rw done (returns ok s (rw (slice-done b i bs (ground arith)) h))
  ]

  round-Fresh :
      (fuel : ℕ) (s : Svec)
      → 0 < b.size
      → Fresh s
      → Later fuel 0 []
      → Returns (LoopEnd (slice b.mem 0 (b.size - 0))) (write_loop hw (suc fuel) b 0 s)
  unfolding write_loop set_last fatal
  round-Fresh fuel s more f later = rw (lt→ltb 0 b.size more) (
      bind (flush-Fresh hw false s f) (λ c s1 p.
        rw p.0
          (advance fuel 0 [] s1 more refl (ap (λ (t : Svec). taken t.bus) p.1 ∙ f.nothing) later)))

-- Before any byte the driver is `Fresh`, and after one it holds a word back.
abbrev pub Carries : List ℕ → Svec → Type 0
Carries bs s = (Fresh s × (bs ≡ [])) ⊎ Held bs s

-- Where `svec_fpga_write` ends.
abbrev pub WriteEnd : List ℕ → Code → Svec → Type 0
WriteEnd bs ok s = Carries bs s
WriteEnd bs (err ebusy) s = Partway bs s
WriteEnd bs _ s = ⊥

LoopEnd-WriteEnd : (bs : List ℕ) (c : Code) (s : Svec) → LoopEnd bs c s → WriteEnd bs c s
LoopEnd-WriteEnd bs ok s h = inr h
LoopEnd-WriteEnd bs (err ebusy) s h = h
LoopEnd-WriteEnd bs (err _) s h = h

-- The operation `write` returns on every buffer of bytes, whatever the sizes of the buffers before:
-- on success the driver and the loader carry the buffer's bytes behind the earlier ones, and on
-- EBUSY, the only failure, the loader has stopped with a front part of them.
pub svec_fpga_write_lem :
    (hw : Hardware) (b : Buffer) (bs : List ℕ) (s : Svec)
    → IsBytes b
    → Carries bs s
    → Returns (WriteEnd (bs ++ contents b)) (svec_fpga_write hw b s)
unfolding svec_fpga_write svec_fpga_write_buf write_loop slice
svec_fpga_write_lem hw b bs s bytes (inr h) =
    let e : b.size - 0 ≡ b.size = omega arith in
    weaken (loop-Held hw b bytes b.size 0 bs s (omega arith) (inl refl) h)
      (λ c s' end. LoopEnd-WriteEnd (bs ++ contents b) c s' (rw e at end))
svec_fpga_write_lem hw b bs s bytes (inl (f, none_yet)) = fresh b.size refl
  where
    whole : b.size - 0 ≡ b.size
    whole = omega arith

    fresh : (n : ℕ) → b.size ≡ n → Returns (WriteEnd (bs ++ contents b)) (write_loop hw n b 0 s)
    fresh zero e = rw (le→ltb 0 b.size (omega arith)) (returns ok s (inl (f, rw (none_yet, e))))
    fresh (suc n) e =
        let lt : 0 < b.size = omega arith in
        weaken
          (round-Fresh hw b bytes n s lt f (λ s2 h2.
            loop-Held hw b bytes n (0 + entry_at b 0) ([] ++ slice b.mem 0 (entry_at b 0)) s2
              (omega (arith, entry_at_bounds b 0 lt)) (position hw b bytes 0 lt refl) h2))
          (λ c s' end. LoopEnd-WriteEnd (bs ++ contents b) c s' (rw none_yet (rw whole at end)))
