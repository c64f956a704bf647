-- ===== src/Console/Tests.antt =====
-- A small console: its theorems at it.
use agnost_os.Base.{
  ℕ, ◌/◌, ◌≡◌, ◌⊎◌, refl, some, List, [], ◌∷◌, ◌++◌, arith, All, length, get_elem?,
}
use agnost_os.Commands.{codes, complete_command}
use agnost_os.Console.{KWriter, RasterHeight, size16, Cell, prompt, write_str, newline}
use agnost_os.Console.Editing.{start_row}
use agnost_os.Console.Browsing.{arrow_up, auto_complete, command_history, drop, zoom, zoomed_in}
use agnost_os.Console.Emergency.{
  emergency_write, OnScreen, AtOrBehind, InOrder, emergency_write_lem,
}
use agnost_os.Console.Text.{IsLine, IsWriter, received, write_str_lem}
use agnost_os.Console.Buffer.{Buffer, Key, char, erase, left, edit_all}
use agnost_os.Console.Redraw.{Holds}
use agnost_os.Console.Editor.{InSync, press_all, press_all-InSync}
use agnost_os.Console.History.{prompted, IsRecalled}
use agnost_os.Console.Recall.{IsOlder, Shows, arrow_up_lem}
use agnost_os.Console.Complete.{typed, auto_complete_lem}
use agnost_os.Console.Zoom.{zoom_lem}

abbrev cells8 : RasterHeight → ℕ
cells8 size = 8

abbrev first_cell : Cell
first_cell = record { column = 0; row = 3 }

abbrev other_cells : List Cell
other_cells =
    record { column = 1; row = 3 }
    ∷ record { column = 2; row = 3 }
    ∷ record { column = 3; row = 3 }
    ∷ record { column = 4; row = 3 }
    ∷ []

-- The line `upt` behind two commands, the newer one shown.
abbrev writer : KWriter
writer = record {
  width = 100;
  height = 200;
  drawn = [];
  column = 5;
  row = 3;
  glyph_cells = first_cell ∷ other_cells;
  history = (prompt ++ codes "echo") ∷ codes "hello" ∷ (prompt ++ codes "upt") ∷ [];
  current_line = prompt ++ codes "upt";
  input_cursor = 3;
  font_size = size16;
  history_index = some 1;
}

abbrev buffer : Buffer
buffer = record { before = b't' ∷ b'p' ∷ b'u' ∷ []; after = [] }

writer-InSync : InSync cells8 writer (codes "upt") buffer
writer-InSync = record { line_eq = refl; held = record { shown = refl; cursor_eq = refl } }

upt-IsLine : IsLine (codes "upt")
upt-IsLine = (omega arith, (omega arith, (omega arith, tt)))

writer-IsWriter : IsWriter cells8 writer
writer-IsWriter = record {
  lines = (
    (omega arith, (omega arith, (omega arith, (omega arith, (omega arith, (omega arith, tt)))))),
    (
      (omega arith, (omega arith, (omega arith, (omega arith, (omega arith, tt))))),
      ((omega arith, (omega arith, upt-IsLine)), tt),
    ),
  );
  line = (omega arith, (omega arith, upt-IsLine));
  fits = record {
    cursor = omega arith;
    glyphs = (omega arith, (omega arith, (omega arith, (omega arith, (omega arith, tt)))));
  };
  one_glyph = omega arith;
}

write_str_lem_example :
    (received (write_str cells8 writer (codes "ime" ++ newline ∷ codes "up 5"))
      ≡ received writer ++ (codes "ime" ++ newline ∷ codes "up 5"))
    × IsWriter cells8 (write_str cells8 writer (codes "ime" ++ newline ∷ codes "up 5"))
write_str_lem_example =
    write_str_lem cells8 writer (codes "ime" ++ newline ∷ codes "up 5") writer-IsWriter

emergency_write_lem_example :
    All
      (λ g. OnScreen (100 / 8) (54 / 18) g × AtOrBehind 10 0 g)
      (emergency_write 8 18
        (record { width = 100; height = 54; column = 10; row = 0 })
        (codes "panic")).0
    × InOrder
        (emergency_write 8 18
          (record { width = 100; height = 54; column = 10; row = 0 })
          (codes "panic")).0
emergency_write_lem_example =
    emergency_write_lem 8 18 (record { width = 100; height = 54; column = 10; row = 0 })
      (codes "panic") (omega arith) (omega arith)

abbrev keys : List Key
keys = left ∷ left ∷ char b'x' ∷ erase ∷ erase ∷ []

run-edit_all : edit_all buffer keys ≡ record { before = []; after = b'p' ∷ b't' ∷ [] }
run-edit_all = refl

press_all-InSync_example :
    InSync cells8
      (press_all cells8 (writer, codes "upt") keys).0
      (press_all cells8 (writer, codes "upt") keys).1
      (edit_all buffer keys)
press_all-InSync_example = press_all-InSync cells8 writer (codes "upt") buffer keys writer-InSync

arrow_up_lem_example :
    ((prompted writer.history ≡ [])
      × (arrow_up cells8 writer (codes "upt") ≡ some (writer, codes "upt")))
    ⊎ ((index : ℕ) × (rest recalled : List ℕ) × (w' : KWriter) × IsOlder writer.history_index
          (length (prompted writer.history))
          index
        × (get_elem? (prompted writer.history) index ≡ some (prompt ++ rest))
        × IsRecalled rest recalled
        × (arrow_up cells8 writer (codes "upt") ≡ some (w', recalled))
        × Shows cells8 writer w' recalled (some index))
unfolding command_history
arrow_up_lem_example = arrow_up_lem cells8 writer (codes "upt") (omega arith)

auto_complete_lem_example :
    InSync cells8
      (auto_complete cells8 writer (codes "upt")).0
      (auto_complete cells8 writer (codes "upt")).1
      (typed buffer (drop (length (codes "upt")) (codes "uptime")))
    × (buffer.after ≡ [] → (auto_complete cells8 writer (codes "upt")).1 ≡ codes "uptime")
unfolding complete_command
auto_complete_lem_example =
    auto_complete_lem cells8 writer (codes "upt") (codes "uptime") buffer writer-InSync refl

zoom_lem_example :
    let w' = zoom cells8 zoomed_in writer (codes "upt") in
    Holds w' (codes "upt") writer.input_cursor
    × (w'.font_size ≡ zoomed_in writer.font_size)
    × (w'.history ≡ writer.history)
    × (start_row w' ≡ first_cell.row)
zoom_lem_example =
    zoom_lem cells8 zoomed_in writer (codes "upt") first_cell other_cells upt-IsLine refl
