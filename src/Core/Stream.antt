-- ===== src/Core/Stream.antt =====
-- The driver holds one word back, so that it can mark the last one. What the loader has taken in,
-- with the word that is held back, is the bitstream so far.
use svec.Base.{
  ℕ, zero, suc, ◌+◌, ◌-◌, ◌*◌, ◌/◌, ◌%◌, ◌≤◌, ◌<◌, ◌≡◌, refl, sym, ◌∙◌, ap, Bool, true, false, List,
  [], ◌∷◌, ◌++◌, append-nil, append_assoc, take, slice, slice-add, ltb, if◌then◌else◌,
  word_of_bytes, bswap32, arith,
}
use svec.Base.Errors.{Code, ok, err, einval, ebusy}
use svec.Bus.{Hardware, Returns, weaken}
use svec.Loader.Intake.{Intake, open_with, closed, push_entry}
use svec.Core.{Svec, Buffer, load_word, u32_minus_one, fifo_r0, svec_fpga_write_word}
use svec.Core.Entry.{fifo_r0_fields, entry_bytes-fifo_r0}
use svec.Core.Word.{taken, SameHeld, Sent, SawFull, write_word-Sent}

-- The contents of a buffer; they are bytes.
abbrev pub contents : Buffer → List ℕ
contents b = slice b.mem 0 b.size

abbrev pub IsBytes : Buffer → Type 0
IsBytes b = (j : ℕ) → b.mem j < 256

-- No word has been given yet.
pub record Fresh (s : Svec) : Type 0 where
  pub no_word : s.bitstream_last_word_size ≡ u32_minus_one
  pub nothing : taken s.bus ≡ open_with true []

-- The loader has all of `bs` but the entry that the driver holds back.
pub record Held (bs : List ℕ) (s : Svec) : Type 0 where
  pub got : List ℕ
  pub b0 : ℕ
  pub b1 : ℕ
  pub b2 : ℕ
  pub b3 : ℕ
  pub some_bytes : 1 ≤ s.bitstream_last_word_size
  pub one_word : s.bitstream_last_word_size ≤ 4
  pub word : s.bitstream_last_word ≡ word_of_bytes b0 b1 b2 b3
  pub byte0_lt : b0 < 256
  pub byte1_lt : b1 < 256
  pub byte2_lt : b2 < 256
  pub byte3_lt : b3 < 256
  pub taken_got : taken s.bus ≡ open_with true got
  pub all : bs ≡ got ++ take s.bitstream_last_word_size (b0 ∷ b1 ∷ b2 ∷ b3 ∷ [])

-- A last mark closes the bitstream.
abbrev pub marked : Bool → List ℕ → Intake
marked true bs = closed bs
marked false bs = open_with true bs

push_entry-marked :
    (n : ℕ) (last : Bool) (b0 b1 b2 b3 : ℕ) (got : List ℕ)
    → 1 ≤ n
    → n ≤ 4
    → b0 < 256
    → b1 < 256
    → b2 < 256
    → b3 < 256
    → push_entry (fifo_r0 n last) (bswap32 (word_of_bytes b0 b1 b2 b3)) (open_with true got)
      ≡ marked last (got ++ take n (b0 ∷ b1 ∷ b2 ∷ b3 ∷ []))
unfolding push_entry
push_entry-marked n true b0 b1 b2 b3 got lo hi h0 h1 h2 h3 =
    rw ((fifo_r0_fields n true lo hi).0, entry_bytes-fifo_r0 n true b0 b1 b2 b3 lo hi h0 h1 h2 h3)
push_entry-marked n false b0 b1 b2 b3 got lo hi h0 h1 h2 h3 =
    rw ((fifo_r0_fields n false lo hi).0, entry_bytes-fifo_r0 n false b0 b1 b2 b3 lo hi h0 h1 h2 h3)

-- What sending the held-back word does.
abbrev pub Flushed : Bool → List ℕ → Svec → Code → Svec → Type 0
Flushed last bs s ok s' = taken s'.bus ≡ marked last bs
Flushed last bs s (err ebusy) s' = (taken s'.bus ≡ taken s.bus) × SawFull s'.bus
Flushed last bs s _ s' = ⊥

pub flush-Held :
    (hw : Hardware) (last : Bool) (bs : List ℕ) (s : Svec)
    → Held bs s
    → Returns
        (Flushed last bs s)
        (svec_fpga_write_word hw s.bitstream_last_word s.bitstream_last_word_size last s)
flush-Held hw last bs s h =
    weaken (write_word-Sent hw s.bitstream_last_word s.bitstream_last_word_size last s) go
  where
    open h use {got, b0, b1, b2, b3}

    go :
        (c : Code) (s' : Svec)
        → SameHeld s s' × Sent s.bitstream_last_word s.bitstream_last_word_size last s.bus c s'.bus
        → Flushed last bs s c s'
    go ok s' (same, (lo, hi, sent)) =
        sent
        ∙ (λ i.
            push_entry (fifo_r0 s.bitstream_last_word_size last) (bswap32 (h.word i))
              (h.taken_got i))
        ∙ push_entry-marked s.bitstream_last_word_size last b0 b1 b2 b3 got h.some_bytes h.one_word
            h.byte0_lt h.byte1_lt h.byte2_lt h.byte3_lt
        ∙ ap (marked last) (sym h.all)
    go (err ebusy) s' (same, (lo, hi, sent, full)) = (sent, full)
    go (err einval) s' (same, (bad, kept)) = absurd (omega (arith, h.some_bytes, h.one_word))
    go (err _) s' (same, sent) = sent

pub flush-Fresh :
    (hw : Hardware) (last : Bool) (s : Svec)
    → Fresh s
    → Returns
        (λ c s'. (c ≡ err einval) × (s' ≡ s))
        (svec_fpga_write_word hw s.bitstream_last_word s.bitstream_last_word_size last s)
flush-Fresh hw last s f =
    weaken (write_word-Sent hw s.bitstream_last_word s.bitstream_last_word_size last s) go
  where
    go :
        (c : Code) (s' : Svec)
        → SameHeld s s' × Sent s.bitstream_last_word s.bitstream_last_word_size last s.bus c s'.bus
        → (c ≡ err einval) × (s' ≡ s)
    go ok s' (same, (lo, hi, sent)) = absurd (omega (arith, f.no_word))
    go (err ebusy) s' (same, (lo, hi, sent, full)) = absurd (omega (arith, f.no_word))
    go (err einval) s' ((w, n), (bad, kept)) = (
      refl,
      λ i. record { bitstream_last_word = w i; bitstream_last_word_size = n i; bus = kept i },
    )
    go (err _) s' (same, sent) = absurd sent

-- A loader that has stopped part of the way.
pub record Partway (bs : List ℕ) (s : Svec) : Type 0 where
  pub front : List ℕ
  pub back : List ℕ
  pub taken_front : taken s.bus ≡ open_with true front
  pub split : front ++ back ≡ bs

-- Where the loop over a buffer ends: with all of `bs` sent or held back, or, when the FIFO stayed
-- full, with EBUSY part of the way. It returns no other code.
abbrev pub LoopEnd : List ℕ → Code → Svec → Type 0
LoopEnd bs ok s = Held bs s
LoopEnd bs (err ebusy) s = Partway bs s
LoopEnd bs _ s = ⊥

-- The word at offset `i` holds the buffer's next bytes.
pub take-slice :
    (f : ℕ → ℕ) (n k : ℕ)
    → n ≤ 4
    → take n (f k ∷ f (k + 1) ∷ f (k + 2) ∷ f (k + 3) ∷ []) ≡ slice f k n
unfolding slice
take-slice f zero k h = refl
take-slice f (suc zero) k h = refl
take-slice f (suc (suc zero)) k h = let e1 : k + 1 ≡ suc k = omega arith in rw e1
take-slice f (suc (suc (suc zero))) k h =
    let e1 : k + 1 ≡ suc k = omega arith in
    let e2 : k + 2 ≡ suc (suc k) = omega arith in rw (e1, e2)
take-slice f (suc (suc (suc (suc zero)))) k h =
    let e1 : k + 1 ≡ suc k = omega arith in
    let e2 : k + 2 ≡ suc (suc k) = omega arith in
    let e3 : k + 3 ≡ suc (suc (suc k)) = omega arith in rw (e1, e2, e3)
take-slice f (suc (suc (suc (suc (suc n))))) k h = absurd (omega arith)

-- After a flush the driver holds the buffer's next word back.
pub Held-load :
    (b : Buffer) (i n : ℕ) (bs : List ℕ) (s : Svec)
    → IsBytes b
    → i % 4 ≡ 0
    → 1 ≤ n
    → n ≤ 4
    → taken s.bus ≡ open_with true bs
    → Held
        (bs ++ slice b.mem i n)
        (record s { bitstream_last_word = load_word b (i / 4); bitstream_last_word_size = n })
Held-load b i n bs s bytes aligned lo hi t =
    let k = 4 * (i / 4) in
    let e : k ≡ i = omega arith in
    record {
      got = bs;
      b0 = b.mem k;
      b1 = b.mem (k + 1);
      b2 = b.mem (k + 2);
      b3 = b.mem (k + 3);
      some_bytes = lo;
      one_word = hi;
      word = refl;
      byte0_lt = bytes k;
      byte1_lt = bytes (k + 1);
      byte2_lt = bytes (k + 2);
      byte3_lt = bytes (k + 3);
      taken_got = t;
      all = ap (λ l. bs ++ l) (ap (λ j. slice b.mem j n) (sym e) ∙ sym (take-slice b.mem n k hi));
    }

-- The size of the entry at `i`, and how the rest of the buffer splits behind it.
abbrev pub entry_at : Buffer → ℕ → ℕ
entry_at b i = if ltb 4 (b.size - i) then 4 else b.size - i

pub entry_at_bounds :
    (b : Buffer) (i : ℕ)
    → i < b.size
    → (1 ≤ entry_at b i) × (entry_at b i ≤ 4) × (i + entry_at b i ≤ b.size)
entry_at_bounds b i h = ground arith

pub entry_at_aligned :
    (b : Buffer) (i : ℕ)
    → i % 4 ≡ 0
    → i < b.size
    → i + entry_at b i < b.size
    → (i + entry_at b i) % 4 ≡ 0
entry_at_aligned b i a h more = ground arith

pub slice-rest :
    (b : Buffer) (i : ℕ) (bs : List ℕ)
    → i < b.size
    → (bs ++ slice b.mem i (entry_at b i))
        ++ slice b.mem (i + entry_at b i) (b.size - (i + entry_at b i))
      ≡ bs ++ slice b.mem i (b.size - i)
slice-rest b i bs h =
    let n = entry_at b i in
    let e : b.size - i ≡ n + (b.size - (i + n)) = omega (arith, entry_at_bounds b i h) in
    append_assoc bs (slice b.mem i n) (slice b.mem (i + n) (b.size - (i + n)))
    ∙ ap (λ l. bs ++ l) (sym (slice-add b.mem i n (b.size - (i + n))) ∙ ap (slice b.mem i) (sym e))

pub slice-done :
    (b : Buffer) (i : ℕ) (bs : List ℕ) → b.size ≤ i → bs ++ slice b.mem i (b.size - i) ≡ bs
unfolding slice
slice-done b i bs h = let e : b.size - i ≡ zero = omega arith in rw (e, append-nil)
