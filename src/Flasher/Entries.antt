-- ===== src/Flasher/Entries.antt =====
-- The entries that `send_loop` of software/tools/vme-flasher/svec-flasher.c makes, and what the
-- loader takes in from each.
use svec.Base.{
  ℕ, zero, suc, ◌+◌, ◌-◌, ◌%◌, ◌≤◌, ◌<◌, ◌≡◌, refl, ap, ◌∙◌, subst, inl, inr, Bool, true, false,
  Bool-cases, List, ◌∷◌, ◌++◌, slice, ltb, le→ltb, ◌==◌, if◌then◌else◌, flag, word_of_bytes,
  bswap32, bswap32-lt, bswap32-bswap32, arith,
}
use svec.Bus.{rd, wr, History, Hardware, Returns, returns, ret}
use svec.Loader.{fifo_csr_full, reg_fifo_csr, reg_fifo_r0, reg_fifo_r1}
use svec.Loader.Intake.{
  Intake, open_with, closed, push_entry, entry_bytes, intake, entry_size, room,
}
use svec.Core.{Buffer, fifo_r0}
use svec.Core.Entry.{size-cases, fifo_r0_fields, entry_bytes-fifo_r0}
use svec.Core.Stream.{IsBytes, take-slice, entry_at, entry_at_bounds, slice-rest, slice-done}
use svec.Flasher.Afpga.{load_at, afpga_r0, send_loop}

-- The bitstream as the loader has it: closed only if its size is no multiple of four.
abbrev pub delivered : ℕ → List ℕ → Intake
delivered size bytes = if size % 4 == 0 then open_with true bytes else closed bytes

r0-fifo_r0 : (n : ℕ) → 1 ≤ n → n ≤ 4 → bswap32 (bswap32 (afpga_r0 n)) ≡ fifo_r0 n (ltb n 4)
unfolding afpga_r0 fifo_r0 bswap32 word_of_bytes
r0-fifo_r0 n lo hi = elim (size-cases n lo hi) [
  | inl e ↦ rw e refl
  | inr (inl e) ↦ rw e refl
  | inr (inr (inl e)) ↦ rw e refl
  | inr (inr (inr e)) ↦ rw e refl
]

-- An open bitstream after an entry, from whether it is marked as the last.
abbrev pushed_as : Bool → List ℕ → Intake
pushed_as true bytes = closed bytes
pushed_as false bytes = open_with true bytes

push_entry-pushed_as :
    (r0 r1 : ℕ) (last : Bool) (bs : List ℕ)
    → flag r0 4 ≡ last
    → push_entry r0 r1 (open_with true bs) ≡ pushed_as last (bs ++ entry_bytes true r0 r1)
unfolding push_entry
push_entry-pushed_as r0 r1 true bs e = rw e refl
push_entry-pushed_as r0 r1 false bs e = rw e refl

-- An entry that is pushed, with its bytes.
push-entry_at :
    (b : Buffer) (i n : ℕ) (bs : List ℕ)
    → IsBytes b
    → 1 ≤ n
    → n ≤ 4
    → push_entry (fifo_r0 n (ltb n 4)) (bswap32 (load_at b i)) (open_with true bs)
      ≡ pushed_as (ltb n 4) (bs ++ slice b.mem i n)
unfolding push_entry
push-entry_at b i n bs bytes lo hi =
    let bytes_at =
      entry_bytes-fifo_r0 n (ltb n 4) (b.mem i) (b.mem (i + 1)) (b.mem (i + 2)) (b.mem (i + 3)) lo
        hi (bytes _) (bytes _) (bytes _) (bytes _)
      ∙ take-slice b.mem n i hi in
    push_entry-pushed_as _ _ (ltb n 4) bs (fifo_r0_fields n (ltb n 4) lo hi).0
    ∙ ap (λ l. pushed_as (ltb n 4) (bs ++ l)) bytes_at

module _ (hw : Hardware) (b : Buffer) (bytes : IsBytes b) where
  -- The history after one round that sends an entry.
  abbrev pub sent : ℕ → ℕ → History → History
  sent i n h =
      wr reg_fifo_r1 (bswap32 (bswap32 (bswap32 (load_at b i))))
      ∷ wr reg_fifo_r0 (bswap32 (bswap32 (afpga_r0 n)))
      ∷ rd reg_fifo_csr (hw.answer h reg_fifo_csr)
      ∷ h

  intake-sent :
      (i n : ℕ) (bs : List ℕ) (h : History)
      → 1 ≤ n
      → n ≤ 4
      → flag (hw.answer h reg_fifo_csr) fifo_csr_full ≡ false
      → intake 0 h ≡ open_with true bs
      → intake 0 (sent i n h) ≡ pushed_as (ltb n 4) (bs ++ slice b.mem i n)
  unfolding intake entry_size room
  intake-sent i n bs h lo hi free e =
      rw (free, e, r0-fifo_r0 n lo hi, bswap32-bswap32 _ (bswap32-lt (load_at b i)))
        (push-entry_at b i n bs bytes lo hi)

  -- A short entry is the last of a bitstream whose size is no multiple of four.
  short-entry_at :
      (i : ℕ)
      → i % 4 ≡ 0
      → i < b.size
      → ltb (entry_at b i) 4 ≡ true
      → (entry_at b i ≡ b.size - i) × (b.size ≤ i + entry_at b i) × ((b.size % 4 == 0) ≡ false)
  short-entry_at i aligned less short = ground arith

  full-entry_at :
      (i : ℕ)
      → i % 4 ≡ 0
      → i < b.size
      → ltb (entry_at b i) 4 ≡ false
      → ((i + entry_at b i) % 4 ≡ 0) × (b.size - (i + entry_at b i) < b.size - i)
  full-entry_at i aligned less full = ground arith

  send_loop-end : (fuel i : ℕ) (h : History) → b.size ≤ i → send_loop hw fuel b i h ≡ ret tt h
  unfolding send_loop
  send_loop-end zero i h le = rw (le→ltb i b.size le) refl
  send_loop-end (suc fuel) i h le = rw (le→ltb i b.size le) refl

  abbrev pub Delivered : List ℕ → ℕ → History → Type 0
  Delivered bs i h' = intake 0 h' ≡ delivered b.size (bs ++ slice b.mem i (b.size - i))

  pub send_loop-finished :
      (fuel i : ℕ) (bs : List ℕ) (h : History)
      → i % 4 ≡ 0
      → i ≤ b.size
      → b.size ≤ i
      → intake 0 h ≡ open_with true bs
      → Returns (λ _ h'. Delivered bs i h') (send_loop hw fuel b i h)
  send_loop-finished fuel i bs h aligned hi le e =
      let multiple : (b.size % 4 == 0) ≡ true = ground arith in
      rw (send_loop-end fuel i h le) (returns tt h (rw (multiple, slice-done b i bs le) e))

  -- The loop after a round that sent an entry.
  pub after_round :
      (fuel i : ℕ) (bs : List ℕ) (h : History)
      → i % 4 ≡ 0
      → i < b.size
      → flag (hw.answer h reg_fifo_csr) fifo_csr_full ≡ false
      → intake 0 h ≡ open_with true bs
      → ((bs' : List ℕ)
          → (i + entry_at b i) % 4 ≡ 0
          → b.size - (i + entry_at b i) < b.size - i
          → intake 0 (sent i (entry_at b i) h) ≡ open_with true bs'
          → Returns
              (λ _ h'. Delivered bs' (i + entry_at b i) h')
              (send_loop hw fuel b (i + entry_at b i) (sent i (entry_at b i) h)))
      → Returns
          (λ _ h'. Delivered bs i h')
          (send_loop hw fuel b (i + entry_at b i) (sent i (entry_at b i) h))
  after_round fuel i bs h aligned less free e again =
      let bounds = entry_at_bounds b i less in
      let now = intake-sent i (entry_at b i) bs h bounds.0 bounds.1 free e in
      elim (Bool-cases (ltb (entry_at b i) 4)) [
        | inl short ↦
            let ends = short-entry_at i aligned less short in
            let got : intake 0 (sent i (entry_at b i) h)
                ≡ closed (bs ++ slice b.mem i (b.size - i)) =
              now
              ∙ ap (λ t. pushed_as t (bs ++ slice b.mem i (entry_at b i))) short
              ∙ ap (λ k. closed (bs ++ slice b.mem i k)) ends.0 in
            rw (send_loop-end fuel (i + entry_at b i) (sent i (entry_at b i) h) ends.1)
              (returns tt _ (rw ends.2 got))
        | inr full ↦
            let next = full-entry_at i aligned less full in
            subst
              (λ l.
                Returns (λ _ h'. intake 0 h' ≡ delivered b.size l)
                  (send_loop hw fuel b (i + entry_at b i) (sent i (entry_at b i) h)))
              (slice-rest b i bs less)
              (again (bs ++ slice b.mem i (entry_at b i)) next.0 next.1
                (now ∙ ap (λ t. pushed_as t (bs ++ slice b.mem i (entry_at b i))) full))
      ]
