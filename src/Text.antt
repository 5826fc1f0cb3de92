-- ===== src/Text.antt =====
-- What the programs print: the tool to stdout, the driver's files to their buffers.
use Prim.Native.String.{String}
use svec.Base.{ℕ, List, [], ◌∷◌}

-- A piece of output: a text, `%08x`, `%x`, `%u` or `%d`, or one character.
pub data Piece : Type 0 where
  str : String → Piece
  hex08 : ℕ → Piece
  hex : ℕ → Piece
  dec : ℕ → Piece
  chr : ℕ → Piece

abbrev pub Output : Type 0
Output = List Piece

-- `%08x` for each of some words.
abbrev pub hex_all : List ℕ → Output
hex_all [] = []
hex_all (w ∷ ws) = hex08 w ∷ hex_all ws
