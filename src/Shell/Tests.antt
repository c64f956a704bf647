-- ===== src/Shell/Tests.antt =====
-- Keys at a small console, and the theorem at one of them.
use agnost_os.Base.{ℕ, some, List, [], ◌∷◌, ◌++◌}
use agnost_os.Commands.{Command, codes}
use agnost_os.Console.{KWriter, RasterHeight, size16, prompt}
use agnost_os.Console.Buffer.{Buffer}

abbrev cells8 : RasterHeight → ℕ
cells8 size = 8

abbrev silent : Command → List (List ℕ) → List ℕ
silent command args = []

-- The line `up` behind the command `up`, which is shown.
abbrev writer : KWriter
writer = record {
  width = 100;
  height = 200;
  drawn = [];
  column = 4;
  row = 1;
  glyph_cells = [];
  history = (prompt ++ codes "up") ∷ [];
  current_line = prompt ++ codes "up";
  input_cursor = 2;
  font_size = size16;
  history_index = some 0;
}

abbrev buffer : Buffer
buffer = record { before = b'p' ∷ b'u' ∷ []; after = [] }
