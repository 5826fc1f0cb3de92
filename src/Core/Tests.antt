-- ===== src/Core/Tests.antt =====
-- Runs of the FPGA manager operations on a card that serves, and the theorems at such runs.
use svec.Base.{word_of_bytes, ◌≡◌, ◌+◌, refl, inr, true, [], ◌∷◌, ◌++◌, flag, word_of_bytes, arith}
use svec.Bus.{wr, Returns}
use svec.Loader.Intake.{intake, write_csr}
use svec.Core.{Svec, svec_base_loader, u32_minus_one, svec_fpga_write_word}
use svec.Core.Program.{svec_fpga_write, svec_fpga_write_complete}
use svec.Core.Word.{SameHeld, WordEnd, svec_fpga_write_word_lem}
use svec.Core.Stream.{contents, Fresh, Held}
use svec.Core.Buffers.{WriteEnd, svec_fpga_write_lem}
use svec.Core.Stop.{patience}
use svec.Core.Start.{InitEnd, svec_fpga_write_init_lem}
use svec.Core.Complete.{CompleteEnd, svec_fpga_write_complete_lem}
use svec.Core.Program.{svec_fpga_write_init}
use svec.Core.Serving.{load_image-Serves}
use svec.Base.Errors.{ok}
use svec.Core.Samples.{
  card, slow_card, slow_card-Serves, slow_card-KeepsTime, card-KeepsTime, five, two, mod_256, blank,
  some_image,
}
use svec.Core.Manager.{load_image}
use svec.Core.Image.{image, ImageEnd, load_image-ImageEnd}

abbrev fresh : Svec
fresh = record {
  bitstream_last_word = u32_minus_one;
  bitstream_last_word_size = u32_minus_one;
  bus = wr svec_base_loader 17 ∷ [];
}

fresh-Fresh : Fresh fresh
unfolding intake write_csr flag word_of_bytes
fresh-Fresh = record { no_word = refl; nothing = refl }

-- A driver that holds the bytes 1 and 2 back.
abbrev holding : Svec
holding = record fresh { bitstream_last_word = 0x0201; bitstream_last_word_size = 2 }

holding-Held : Held (1 ∷ 2 ∷ []) holding
unfolding intake write_csr flag word_of_bytes
holding-Held = record {
  got = [];
  b0 = 1;
  b1 = 2;
  b2 = 0;
  b3 = 0;
  some_bytes = omega arith;
  one_word = omega arith;
  word = refl;
  byte0_lt = omega arith;
  byte1_lt = omega arith;
  byte2_lt = omega arith;
  byte3_lt = omega arith;
  taken_got = refl;
  all = refl;
}

svec_fpga_write_word_lem_example :
    Returns
      (λ c s'. SameHeld holding s' × WordEnd 1 2 0 0 2 true holding.bus c s'.bus)
      (svec_fpga_write_word card (word_of_bytes 1 2 0 0) 2 true holding)
svec_fpga_write_word_lem_example =
    svec_fpga_write_word_lem 1 2 0 0 2 true (omega arith) (omega arith) (omega arith) (omega arith)
      card holding

svec_fpga_write_init_lem_example : Returns (InitEnd card blank) (svec_fpga_write_init card blank)
svec_fpga_write_init_lem_example = svec_fpga_write_init_lem card blank

svec_fpga_write_lem_example :
    Returns (WriteEnd ((1 ∷ 2 ∷ []) ++ contents five)) (svec_fpga_write card five holding)
svec_fpga_write_lem_example =
    svec_fpga_write_lem card five (1 ∷ 2 ∷ []) holding (λ j. mod_256 (10 + j)) (inr holding-Held)

svec_fpga_write_complete_lem_example :
    Returns
      (CompleteEnd card (patience card 0) (1 ∷ 2 ∷ []))
      (svec_fpga_write_complete card 2 0 holding)
svec_fpga_write_complete_lem_example =
    svec_fpga_write_complete_lem card card-KeepsTime 1 0 (omega arith) (omega arith) (1 ∷ 2 ∷ [])
      holding holding-Held

load_image-ImageEnd_example :
    Returns
      (ImageEnd card blank (image (five ∷ two ∷ [])))
      (load_image card 2 0 (five ∷ two ∷ []) blank)
load_image-ImageEnd_example =
    load_image-ImageEnd card card-KeepsTime 1 0 (omega arith) (omega arith) (five ∷ two ∷ []) blank
      ((λ j. mod_256 (10 + j)), ((λ j. mod_256 (20 + j)), tt)) some_image

load_image-Serves_example :
    Returns
      (λ c s'. (c ≡ ok) × ImageEnd slow_card blank (image (five ∷ two ∷ [])) ok s')
      (load_image slow_card 4 2000 (five ∷ two ∷ []) blank)
load_image-Serves_example =
    load_image-Serves slow_card 2000 1 slow_card-Serves slow_card-KeepsTime 3 (omega arith)
      (omega arith) (omega arith) (five ∷ two ∷ []) blank
      ((λ j. mod_256 (10 + j)), ((λ j. mod_256 (20 + j)), tt)) some_image
