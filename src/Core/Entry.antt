-- ===== src/Core/Entry.antt =====
-- The entries of the loader's FIFO that `svec_fpga_write_word` of software/kernel/svec-core.c makes.
use svec.Base.{
  ℕ, suc, ◌≤◌, ◌<◌, ◌≡◌, refl, ◌⊎◌, inl, inr, ◌∙◌, ap, Bool, true, false, [], ◌∷◌, take, flag,
  word_of_bytes, byte0, byte1, byte2, byte3, bswap32, bit_and, arith,
}
use svec.Loader.Intake.{entry_bytes}
use svec.Core.{fifo_r0}

-- The four sizes that an entry can have.
pub size-cases : (n : ℕ) → 1 ≤ n → n ≤ 4 → (n ≡ 1) ⊎ ((n ≡ 2) ⊎ ((n ≡ 3) ⊎ (n ≡ 4)))
size-cases n lo hi = omega arith

-- What R0 says of an entry: its size and its last mark.
pub fifo_r0_fields :
    (n : ℕ) (last : Bool)
    → 1 ≤ n
    → n ≤ 4
    → (flag (fifo_r0 n last) 4 ≡ last) × (suc (bit_and (fifo_r0 n last) 3) ≡ n)
unfolding flag fifo_r0
fifo_r0_fields n last lo hi = elim (size-cases n lo hi) [
  | inl e ↦ rw e (fields1 last)
  | inr (inl e) ↦ rw e (fields2 last)
  | inr (inr (inl e)) ↦ rw e (fields3 last)
  | inr (inr (inr e)) ↦ rw e (fields4 last)
]
  where
    fields1 : (b : Bool) → (flag (fifo_r0 1 b) 4 ≡ b) × (suc (bit_and (fifo_r0 1 b) 3) ≡ 1)
    fields1 true = (refl, refl)
    fields1 false = (refl, refl)

    fields2 : (b : Bool) → (flag (fifo_r0 2 b) 4 ≡ b) × (suc (bit_and (fifo_r0 2 b) 3) ≡ 2)
    fields2 true = (refl, refl)
    fields2 false = (refl, refl)

    fields3 : (b : Bool) → (flag (fifo_r0 3 b) 4 ≡ b) × (suc (bit_and (fifo_r0 3 b) 3) ≡ 3)
    fields3 true = (refl, refl)
    fields3 false = (refl, refl)

    fields4 : (b : Bool) → (flag (fifo_r0 4 b) 4 ≡ b) × (suc (bit_and (fifo_r0 4 b) 3) ≡ 4)
    fields4 true = (refl, refl)
    fields4 false = (refl, refl)

-- An entry that the driver writes carries the first `n` bytes of the word in memory.
pub entry_bytes-fifo_r0 :
    (n : ℕ) (last : Bool) (b0 b1 b2 b3 : ℕ)
    → 1 ≤ n
    → n ≤ 4
    → b0 < 256
    → b1 < 256
    → b2 < 256
    → b3 < 256
    → entry_bytes true (fifo_r0 n last) (bswap32 (word_of_bytes b0 b1 b2 b3))
      ≡ take n (b0 ∷ b1 ∷ b2 ∷ b3 ∷ [])
unfolding entry_bytes bswap32 word_of_bytes
entry_bytes-fifo_r0 n last b0 b1 b2 b3 lo hi h0 h1 h2 h3 =
    ap (λ k. take k (byte3 w ∷ byte2 w ∷ byte1 w ∷ byte0 w ∷ [])) (fifo_r0_fields n last lo hi).1
    ∙ (λ i. take n (e0 i ∷ e1 i ∷ e2 i ∷ e3 i ∷ []))
  where
    w : ℕ
    w = bswap32 (word_of_bytes b0 b1 b2 b3)

    e0 : byte3 w ≡ b0
    e0 = omega arith

    e1 : byte2 w ≡ b1
    e1 = omega arith

    e2 : byte1 w ≡ b2
    e2 = omega arith

    e3 : byte0 w ≡ b3
    e3 = omega arith
