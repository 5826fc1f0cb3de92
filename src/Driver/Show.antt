-- ===== src/Driver/Show.antt =====
-- The metadata as the driver's debugfs file shows it, in software/kernel/svec-core.c.
use Prim.Native.String.{String}
use svec.Base.{
  ℕ, ◌≡◌, refl, Bool, true, false, List, [], ◌∷◌, ◌++◌, Option, some, none, if◌then◌else◌,
}
use svec.Text.{Output, str, hex08, hex, dec, chr}
use svec.Fpga.{Meta, word_at, meta_of_words}
use svec.Fpga.App.{AppDevice}
use svec.Driver.{Device}

-- `"0x%08x%08x%08x%08x\n"` after a text.
abbrev pub four_words : (indent label : String) → List ℕ → Output
four_words indent label ws =
    str indent
    ∷ str label
    ∷ hex08 (word_at ws 0)
    ∷ hex08 (word_at ws 1)
    ∷ hex08 (word_at ws 2)
    ∷ hex08 (word_at ws 3)
    ∷ str "\n"
    ∷ []

abbrev pub one_word : (indent label : String) → ℕ → Output
one_word indent label w = str indent ∷ str label ∷ hex08 w ∷ str "\n" ∷ []

unfoldable pub seq_printf_meta : (indent : String) → Meta → Output
seq_printf_meta indent m =
    (str indent ∷ str "Metadata:\n" ∷ [])
    ++ (one_word indent "  - Vendor: 0x" m.vendor
        ++ (one_word indent "  - Device: 0x" m.device
            ++ (one_word indent "  - Version: 0x" m.version
                ++ (one_word indent "  - BOM: 0x" m.bom
                    ++ (four_words indent "  - SourceID: 0x" m.src
                        ++ (one_word indent "  - CapabilityMask: 0x" m.cap
                            ++ four_words indent "  - VendorUUID: 0x" m.uuid))))))

-- The application's metadata, if the driver refers to an FPGA device that has its device.
unfoldable pub app_meta : (svec_fpga : Bool) → Option AppDevice → Meta → Output
unfolding seq_printf_meta
app_meta false app_pdev m = []
app_meta true none m = []
app_meta true (some res) m = (str "Application:\n" ∷ []) ++ seq_printf_meta "  " m

unfoldable pub svec_dbg_meta : Device → Output
unfolding seq_printf_meta app_meta
svec_dbg_meta d =
    seq_printf_meta "" d.fpga.meta ++ app_meta d.fpga.svec_fpga d.fpga.app_pdev d.fpga.meta_app

-- The words that an output shows, in order.
abbrev pub shown : Output → List ℕ
shown [] = []
shown (hex08 w ∷ ps) = w ∷ shown ps
shown (str s ∷ ps) = shown ps
shown (hex w ∷ ps) = w ∷ shown ps
shown (dec w ∷ ps) = w ∷ shown ps
shown (chr c ∷ ps) = shown ps

-- The first thirteen words.
abbrev pub thirteen : List ℕ → List ℕ
thirteen ws =
    word_at ws 0
    ∷ word_at ws 1
    ∷ word_at ws 2
    ∷ word_at ws 3
    ∷ word_at ws 4
    ∷ word_at ws 5
    ∷ word_at ws 6
    ∷ word_at ws 7
    ∷ word_at ws 8
    ∷ word_at ws 9
    ∷ word_at ws 10
    ∷ word_at ws 11
    ∷ word_at ws 12
    ∷ []

abbrev pub has_app : Bool → Option AppDevice → Bool
has_app false app_pdev = false
has_app true none = false
has_app true (some res) = true

shown-app :
    (svec_fpga : Bool) (app_pdev : Option AppDevice) (ws words : List ℕ)
    → thirteen ws ++ shown (app_meta svec_fpga app_pdev (meta_of_words words))
      ≡ thirteen ws ++ (if has_app svec_fpga app_pdev then thirteen words else [])
unfolding app_meta seq_printf_meta meta_of_words word_at
shown-app false app_pdev ws words = refl
shown-app true none ws words = refl
shown-app true (some res) ws words = refl

-- The metadata that was made of some words is shown as these words again, in their order, and after it
-- the application's, exactly if the driver refers to an FPGA device with an application.
pub svec_dbg_meta_lem :
    (d : Device) (ws words : List ℕ)
    → d.fpga.meta ≡ meta_of_words ws
    → d.fpga.meta_app ≡ meta_of_words words
    → shown (svec_dbg_meta d)
      ≡ thirteen ws ++ (if has_app d.fpga.svec_fpga d.fpga.app_pdev then thirteen words else [])
unfolding svec_dbg_meta seq_printf_meta meta_of_words word_at
svec_dbg_meta_lem d ws words e e' = rw (e, e') (shown-app d.fpga.svec_fpga d.fpga.app_pdev ws words)
