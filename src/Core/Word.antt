-- ===== src/Core/Word.antt =====
-- `svec_fpga_write_word` of software/kernel/svec-core.c: what it sends, on each of its branches.
use svec.Base.{
  ℕ, zero, suc, ◌+◌, ◌≤◌, ◌<◌, ◌≡◌, refl, ◌⊎◌, inl, inr, ◌∙◌, ap, Bool, true, false, not, List,
  ◌++◌, if◌then◌else◌, [], ◌∷◌, take, flag, ◌==◌, leb, ◌||◌, word_of_bytes, bswap32, Bool-cases,
  arith,
}
use svec.Base.Errors.{Code, ok, err, einval, ebusy}
use svec.Bus.{rd, History, Hardware, Run, Returns, returns, weaken, bind}
use svec.Loader.{fifo_csr_full, reg_fifo_csr}
use svec.Loader.Intake.{
  Intake, idle, open_with, closed, spoiled, push_entry, entry_size, intake, room,
}
use svec.Core.{
  Svec, svec_base_loader, ioread32be, iowrite32be, fifo_r0, poll_fifo, svec_fpga_write_word,
}
use svec.Core.Entry.{fifo_r0_fields, entry_bytes-fifo_r0}

-- What the loader of the card has taken in.
abbrev pub taken : History → Intake
taken = intake svec_base_loader

-- `s'` is `s` after accesses that leave the held-back word alone.
abbrev pub SameHeld : Svec → Svec → Type 0
SameHeld s s' =
    (s'.bitstream_last_word ≡ s.bitstream_last_word)
    × (s'.bitstream_last_word_size ≡ s.bitstream_last_word_size)

-- The last access is a read of FIFO_CSR, with this value.
abbrev pub LastLook : ℕ → History → Type 0
LastLook rv after = (h : History) × (after ≡ rd (svec_base_loader + reg_fifo_csr) rv ∷ h)

LastLook-room :
    (rv : ℕ) (h : History) → LastLook rv h → room svec_base_loader h ≡ not (flag rv fifo_csr_full)
unfolding room
LastLook-room rv h (h0, e) = rw e refl

module _ (hw : Hardware) where
  abbrev Polled : Svec → ℕ → Svec → Type 0
  Polled s rv s' = SameHeld s s' × (taken s'.bus ≡ taken s.bus) × LastLook rv s'.bus

  Polled-rd :
      (s : Svec) (a v : ℕ) {r : Run Svec ℕ}
      → Returns (Polled (record s { bus = rd a v ∷ s.bus })) r
      → Returns (Polled s) r
  unfolding intake
  Polled-rd s a v p = weaken p (λ _ _ h. h)

  -- The polling loop ends after some reads, which the loader does not notice.
  poll_fifo-Polled : (try : ℕ) (s : Svec) → Returns (Polled s) (poll_fifo hw try s)
  unfolding poll_fifo ioread32be
  poll_fifo-Polled zero s =
      let a = svec_base_loader + reg_fifo_csr in
      Polled-rd s a (hw.answer s.bus a) (returns _ _ ((refl, refl), refl, (s.bus, refl)))
  poll_fifo-Polled (suc try) s =
      let a = svec_base_loader + reg_fifo_csr in
      let v = hw.answer s.bus a in
      elim (Bool-cases (flag v fifo_csr_full)) [
        | inl full ↦
            Polled-rd s a v (rw full (poll_fifo-Polled try (record s { bus = rd a v ∷ s.bus })))
        | inr room ↦ Polled-rd s a v (rw room (returns _ _ ((refl, refl), refl, (s.bus, refl))))
      ]

-- The last access showed a full FIFO.
abbrev pub SawFull : History → Type 0
SawFull after = (rv : ℕ) × LastLook rv after × (flag rv fifo_csr_full ≡ true)

-- What `svec_fpga_write_word` has done when it returns a code: on success the loader has exactly
-- this entry more, on EINVAL (a size that is no entry's) no register was touched, on EBUSY the
-- loader has taken nothing in. It returns no other code.
abbrev pub Sent : (word size : ℕ) (last : Bool) (before : History) → Code → History → Type 0
Sent word size last before ok after =
    (1 ≤ size)
    × (size ≤ 4)
    × (taken after ≡ push_entry (fifo_r0 size last) (bswap32 word) (taken before))
Sent word size last before (err einval) after = ((size ≡ 0) ⊎ (5 ≤ size)) × (after ≡ before)
Sent word size last before (err ebusy) after =
    (1 ≤ size) × (size ≤ 4) × (taken after ≡ taken before) × SawFull after
Sent word size last before _ after = ⊥

-- The bitstream with these bytes more, and closed after the last of them.
abbrev pub Added : (last : Bool) → List ℕ → Intake → Intake → Type 0
Added last bytes (open_with true bs) after =
    after ≡ (if last then closed (bs ++ bytes) else open_with true (bs ++ bytes))
Added last bytes (open_with false bs) after = Unit
Added last bytes idle after = after ≡ spoiled
Added last bytes (closed bs) after = after ≡ spoiled
Added last bytes spoiled after = after ≡ spoiled

pub write_word-Sent :
    (hw : Hardware) (word size : ℕ) (last : Bool) (s : Svec)
    → Returns
        (λ c s'. SameHeld s s' × Sent word size last s.bus c s'.bus)
        (svec_fpga_write_word hw word size last s)
unfolding svec_fpga_write_word iowrite32be intake entry_size room
write_word-Sent hw word size last s = elim (Bool-cases ((size == 0) || leb 5 size)) [
  | inl bad ↦ rw bad (returns _ _ ((refl, refl), (ground arith, refl)))
  | inr good ↦ rw good (
      bind (poll_fifo-Polled hw 10000 s) (λ rv s1 (same, got, look).
        elim (Bool-cases (flag rv fifo_csr_full)) [
          | inl full ↦
              rw full (returns _ _ (same, (ground arith, ground arith, got, (rv, look, full))))
          | inr free ↦
              let has_room = LastLook-room rv s1.bus look ∙ ap not free in
              rw free (
                returns _ _
                  (same, (ground arith, ground arith, rw has_room (ap (push_entry _ _) got))))
        ]))
]

-- What `svec_fpga_write_word` promises: on success the bitstream has the first bytes of the word more, in
-- the order in which they stand in the memory of a little-endian host.
abbrev pub WordEnd :
    (b0 b1 b2 b3 size : ℕ) (last : Bool) (before : History) → Code → History → Type 0
WordEnd b0 b1 b2 b3 size last before ok after =
    (1 ≤ size)
    × (size ≤ 4)
    × Added last (take size (b0 ∷ b1 ∷ b2 ∷ b3 ∷ [])) (taken before) (taken after)
WordEnd b0 b1 b2 b3 size last before (err einval) after =
    ((size ≡ 0) ⊎ (5 ≤ size)) × (after ≡ before)
WordEnd b0 b1 b2 b3 size last before (err ebusy) after =
    (1 ≤ size) × (size ≤ 4) × (taken after ≡ taken before) × SawFull after
WordEnd b0 b1 b2 b3 size last before _ after = ⊥

module _ (b0 b1 b2 b3 size : ℕ) (last : Bool) (h0 : b0 < 256) (h1 : b1 < 256) (h2 : b2 < 256)
    (h3 : b3 < 256) where
  abbrev word : ℕ
  word = word_of_bytes b0 b1 b2 b3

  push-Added :
      (t t' : Intake)
      → 1 ≤ size
      → size ≤ 4
      → t' ≡ push_entry (fifo_r0 size last) (bswap32 word) t
      → Added last (take size (b0 ∷ b1 ∷ b2 ∷ b3 ∷ [])) t t'
  unfolding push_entry
  push-Added (open_with true bs) t' lo hi e =
      e
      ∙ rw
          (
            (fifo_r0_fields size last lo hi).0,
            entry_bytes-fifo_r0 size last b0 b1 b2 b3 lo hi h0 h1 h2 h3,
          )
          refl
  push-Added (open_with false bs) t' lo hi e = tt
  push-Added idle t' lo hi e = e
  push-Added (closed bs) t' lo hi e = e
  push-Added spoiled t' lo hi e = e

  Sent-WordEnd :
      (before after : History) (c : Code)
      → Sent word size last before c after
      → WordEnd b0 b1 b2 b3 size last before c after
  Sent-WordEnd before after ok (lo, hi, e) =
      (lo, hi, push-Added (taken before) (taken after) lo hi e)
  Sent-WordEnd before after (err einval) p = p
  Sent-WordEnd before after (err ebusy) p = p
  Sent-WordEnd before after (err _) p = absurd p

  -- `svec_fpga_write_word` returns, and keeps the held-back word. On zero the size is between one and four,
  -- and a loader that takes a bitstream in with the first byte at the top has as many bytes of the word
  -- more, in the order in which they stand in the memory of a little-endian host, and is closed exactly if
  -- they are the last; any other loader is spoiled. On EINVAL the size is none of these, and no register
  -- was touched. On EBUSY the loader has taken nothing in, and the last read of FIFO_CSR showed FULL. No
  -- other code is returned.
  pub svec_fpga_write_word_lem :
      (hw : Hardware) (s : Svec)
      → Returns
          (λ c s'. SameHeld s s' × WordEnd b0 b1 b2 b3 size last s.bus c s'.bus)
          (svec_fpga_write_word hw word size last s)
  svec_fpga_write_word_lem hw s =
      weaken (write_word-Sent hw word size last s)
        (λ c s' (same, sent). (same, Sent-WordEnd s.bus s'.bus c sent))
