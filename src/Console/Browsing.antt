-- ===== src/Console/Browsing.antt =====
-- src/console/mod.rs: recalling commands, redrawing the history, zooming and completion.
use agnost_os.Base.{
  ℕ, zero, suc, ◌+◌, ◌-◌, ◌/◌, Bool, not, ◌&&◌, Option, none, some, List, [], ◌∷◌, ◌++◌, ltb, ◌==◌,
  if◌then◌else◌, length, get_elem?,
}
use agnost_os.Commands.{codes, text_eq, starts_with, is_empty, complete_command}
use agnost_os.Console.{
  KWriter, RasterHeight, size16, size20, size24, size32, Drawing, text, clear, prompt, font_h,
  write_str,
}
use agnost_os.Console.Editing.{redraw_input_line, insert_char}

abbrev pub drop {ℓ} : {A : Type ℓ} → ℕ → List A → List A
drop zero xs = xs
drop (suc n) [] = []
drop (suc n) (x ∷ xs) = drop n xs

-- The filter of `command_history`.
abbrev pub is_command : List ℕ → Bool
is_command line =
    starts_with line prompt && (not (text_eq line (codes "^C")) && not (is_empty line))

unfoldable pub command_history : List (List ℕ) → List (List ℕ)
unfolding starts_with text_eq
command_history [] = []
command_history (line ∷ lines) =
    let rest = command_history lines in if is_command line then line ∷ rest else rest

-- `trim_start_matches(PROMPT)`, which takes the prompt away as often as it stands there.
unfoldable pub trim_start_matches : List ℕ → List ℕ
trim_start_matches [] = []
trim_start_matches (c ∷ []) = c ∷ []
trim_start_matches (c ∷ (d ∷ s)) =
    let rest = trim_start_matches s in if (c == b'>') && (d == b' ') then rest else c ∷ (d ∷ s)

-- The index of `arrow_up`, by the index before and the number of commands.
abbrev pub older : Option ℕ → ℕ → ℕ
older none count = count - 1
older (some zero) count = 0
older (some (suc i)) count = i

abbrev pub zoomed_in : RasterHeight → RasterHeight
zoomed_in size16 = size20
zoomed_in size20 = size24
zoomed_in size24 = size32
zoomed_in size32 = size32

abbrev pub zoomed_out : RasterHeight → RasterHeight
zoomed_out size32 = size24
zoomed_out size24 = size20
zoomed_out size20 = size16
zoomed_out size16 = size16

-- The loop of `print_history`: the drawing calls, and where it ends.
unfoldable pub draw_lines : RasterHeight → ℕ → List (List ℕ) → List Drawing → List Drawing × ℕ
draw_lines size y [] drawn = (drawn, y)
draw_lines size y (line ∷ lines) drawn =
    draw_lines size (y + font_h size) lines (text line 0 (y / font_h size) size ∷ drawn)

unfoldable pub print_history : KWriter → KWriter
unfolding draw_lines
print_history w =
    let fh = font_h w.font_size in
    let max_lines = w.height / fh in
    let start = length w.history - max_lines in
    let (drawn, y) = draw_lines w.font_size 0 (drop start w.history) w.drawn in
    record w { drawn = drawn; column = 0; row = y / fh }

module _ (raster_width : RasterHeight → ℕ) where
  -- None is the panic of an index out of bounds.
  unfoldable pub arrow_up : KWriter → List ℕ → Option (KWriter × List ℕ)
  arrow_up w current_line =
      let commands = command_history w.history in
      if length commands == 0
      then some (w, current_line)
      else (let new_index = older w.history_index (length commands) in
          elim (get_elem? commands new_index) [
            | none ↦ none
            | some command ↦
                let recalled = trim_start_matches command in
                some (
                  redraw_input_line raster_width (record w { history_index = some new_index })
                      recalled (length recalled),
                  recalled,
                )
          ])

  -- The text of `arrow_down` and the index it goes to, from an index.
  unfoldable pub newer : List (List ℕ) → ℕ → Option (Option ℕ × List ℕ)
  newer commands i =
      if ltb (i + 1) (length commands)
      then elim (get_elem? commands (i + 1)) [
        | none ↦ none
        | some command ↦ some (some (i + 1), trim_start_matches command)
      ]
      else some (none, [])

  unfoldable pub arrow_down : KWriter → List ℕ → Option (KWriter × List ℕ)
  unfolding newer
  arrow_down w current_line =
      let commands = command_history w.history in
      if length commands == 0 then some (w, current_line) else elim w.history_index [
        | none ↦ some (w, current_line)
        | some i ↦ elim (newer commands i) [
          | none ↦ none
          | some (index, new_text) ↦ some (
            redraw_input_line raster_width (record w { history_index = index }) new_text
                (length new_text),
            new_text,
          )
        ]
      ]

  -- `zoom_in` and `zoom_out`, by their step of the font size.
  unfoldable pub zoom : (RasterHeight → RasterHeight) → KWriter → List ℕ → KWriter
  zoom step w current_input =
      let cleared = record w {
        font_size = step w.font_size;
        drawn = clear ∷ w.drawn;
        current_line = [];
      } in
      write_str raster_width (print_history cleared) (prompt ++ current_input)

  unfoldable pub zoom_in : KWriter → List ℕ → KWriter
  unfolding zoom
  zoom_in = zoom zoomed_in

  unfoldable pub zoom_out : KWriter → List ℕ → KWriter
  unfolding zoom
  zoom_out = zoom zoomed_out

  unfoldable pub insert_all : KWriter → List ℕ → List ℕ → KWriter × List ℕ
  insert_all w line [] = (w, line)
  insert_all w line (ch ∷ s) =
      let (w', line') = insert_char raster_width w line ch in insert_all w' line' s

  unfoldable pub auto_complete : KWriter → List ℕ → KWriter × List ℕ
  unfolding insert_all
  auto_complete w line = elim (complete_command line) [
    | none ↦ (w, line)
    | some command ↦ insert_all w line (drop (length line) command)
  ]
