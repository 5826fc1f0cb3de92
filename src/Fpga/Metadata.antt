-- ===== src/Fpga/Metadata.antt =====
-- Where `svec_fpga_metadata_get` of software/kernel/svec-core-fpga.c finds each field.
use svec.Base.{ℕ, zero, suc, ◌+◌, ◌*◌, ◌<◌, ◌≡◌, ap, ◌∙◌, List, [], ◌∷◌, arith}
use svec.Bus.{Hardware, History, Returns, returns, bind}
use svec.Fpga.{RegMap, Meta, word_at, meta_words, meta_of_words}
use svec.Fpga.Board.{Board, metadata_loop, svec_fpga_metadata_get}

-- The fields of metadata that starts at an offset, by the words of the registers.
pub record Fields (word : ℕ → ℕ) (at : ℕ) (m : Meta) : Type 0 where
  pub vendor : m.vendor ≡ word (at + 0)
  pub device : m.device ≡ word (at + 4)
  pub version : m.version ≡ word (at + 8)
  pub bom : m.bom ≡ word (at + 12)
  pub src : m.src ≡ word (at + 16) ∷ word (at + 20) ∷ word (at + 24) ∷ word (at + 28) ∷ []
  pub cap : m.cap ≡ word (at + 32)
  pub uuid : m.uuid ≡ word (at + 36) ∷ word (at + 40) ∷ word (at + 44) ∷ word (at + 48) ∷ []

module _ (hw : Hardware) (regs : RegMap) (word : ℕ → ℕ)
    (keeps : (h : History) (a : ℕ) → hw.answer h a ≡ word a) where
  abbrev WordsAt : ℕ → ℕ → List ℕ → Type 0
  WordsAt n at ws = (j : ℕ) → j < n → word_at ws j ≡ word (at + 4 * j)

  WordsAt-suc :
      (n at w : ℕ) (ws : List ℕ) → w ≡ word at → WordsAt n (at + 4) ws → WordsAt (suc n) at (w ∷ ws)
  unfolding word_at
  WordsAt-suc n at w ws e rest zero h = let e' : at + 4 * zero ≡ at = omega arith in rw e' e
  WordsAt-suc n at w ws e rest (suc j) h =
      let e' : at + 4 + 4 * j ≡ at + 4 * suc j = omega arith in rest j (omega arith) ∙ ap word e'

  metadata_loop-WordsAt :
      (n at : ℕ) (b : Board) → Returns (λ ws b'. WordsAt n at ws) (metadata_loop hw regs n at b)
  unfolding metadata_loop
  metadata_loop-WordsAt zero at b = returns [] b (λ j h. absurd (omega arith))
  metadata_loop-WordsAt (suc n) at b =
      bind (metadata_loop-WordsAt n (at + 4) _)
        (λ ws b' h. returns _ b' (WordsAt-suc n at _ ws (keeps b.bus at) h))

  -- From registers that keep their values, `svec_fpga_metadata_get` returns each field from its
  -- words: vendor, device, version, byte order, four words of sources, capabilities, and four words
  -- of the UUID at the offset 36, one after the other.
  pub svec_fpga_metadata_get_lem :
      (at : ℕ) (b : Board)
      → Returns (λ m b'. Fields word at m) (svec_fpga_metadata_get hw regs at b)
  unfolding svec_fpga_metadata_get meta_of_words
  svec_fpga_metadata_get_lem at b = bind (metadata_loop-WordsAt meta_words at b) (λ ws b' h.
      returns _ b' (record {
        vendor = h 0 (omega arith);
        device = h 1 (omega arith);
        version = h 2 (omega arith);
        bom = h 3 (omega arith);
        src = λ i.
            h 4 (omega arith) i
            ∷ h 5 (omega arith) i
            ∷ h 6 (omega arith) i
            ∷ h 7 (omega arith) i
            ∷ [];
        cap = h 8 (omega arith);
        uuid = λ i.
            h 9 (omega arith) i
            ∷ h 10 (omega arith) i
            ∷ h 11 (omega arith) i
            ∷ h 12 (omega arith) i
            ∷ [];
      }))
