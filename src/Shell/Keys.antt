-- ===== src/Shell/Keys.antt =====
-- A key, from the console and the shell's line before it to those behind it.
use agnost_os.Base.{ℕ, ◌++◌, ◌∷◌, ◌≡◌, refl, ◌∙◌, ◌⊎◌, some, List, [], ◌==◌, Bool-cases, inl, inr}
use agnost_os.Commands.{codes}
use agnost_os.Console.{
  KWriter, RasterHeight, newline, prompt, write_str, reset, draw_cursor, erase_cursor,
}
use agnost_os.Console.Editing.{reset_input_cursor}
use agnost_os.Console.Browsing.{zoomed_in, zoomed_out, zoom_in, zoom_out}
use agnost_os.Console.Text.{IsLine}
use agnost_os.Console.Buffer.{Buffer, char, erase, left, right, edit}
use agnost_os.Console.Redraw.{Holds}
use agnost_os.Console.Editor.{InSync, press-InSync}
use agnost_os.Console.Recall.{IsBrowsing}
use agnost_os.Console.Zoom.{zoom-Holds}
use agnost_os.Input.Keyboard.{KeyboardEvent}
use agnost_os.Shell.{next_line, on_char, on_event, on_key}
use agnost_os.Shell.Sync.{
  empty_buffer, InSync-same, draw_cursor-same, print_line-nil, prompt-InSync, reset-InSync,
}
use agnost_os.Shell.Browsing.{
  Keeps-IsBrowsing, write_str-IsBrowsing, draw_cursor-Keeps, insert_char-Keeps, backspace-Keeps,
  arrow_left-Keeps, arrow_right-Keeps, zoom-IsBrowsing,
}
use agnost_os.Shell.Recall.{Answers, IsAnswered, up-IsAnswered, down-IsAnswered, tab-IsAnswered}

module _ (raster_width : RasterHeight → ℕ) where
  module _ (run_command : KWriter → List ℕ → KWriter) where
    -- The commands print whole lines, and the command that is shown stays one of the history.
    pub record PrintsLines : Type 0 where
      pub whole :
          (w : KWriter) (line : List ℕ)
          → w.current_line ≡ []
          → (run_command w line).current_line ≡ []
      pub browses : (w : KWriter) (line : List ℕ) → IsBrowsing w → IsBrowsing (run_command w line)

    abbrev pub IsZoom : KeyboardEvent → Type 0
    IsZoom key = (key ≡ KeyboardEvent.zoom_in) ⊎ (key ≡ KeyboardEvent.zoom_out)

    next_line-IsBrowsing :
        (w : KWriter) → IsBrowsing w → IsBrowsing (next_line raster_width run_command w).0
    unfolding next_line reset_input_cursor
    next_line-IsBrowsing w b = write_str-IsBrowsing raster_width prompt w b

    char-IsAnswered :
        (w : KWriter) (line : List ℕ) (b : Buffer) (c : ℕ)
        → PrintsLines
        → InSync raster_width w line b
        → IsBrowsing w
        → IsAnswered raster_width run_command w line b (KeyboardEvent.char c)
    unfolding on_event on_char next_line
    char-IsAnswered w line b c prints sync browsing = elim (Bool-cases (c == newline)) [
      | inl enter ↦
          let ended = write_str raster_width w ([] ++ newline ∷ []) in
          let ran = run_command ended line in
          let browses =
            prints.browses ended line (write_str-IsBrowsing raster_width _ w browsing) in
          (
            on_char raster_width run_command w line c,
            refl,
            record {
              buffer = empty_buffer;
              sync = rw enter (
                  prompt-InSync raster_width ran
                    (prints.whole _ line (print_line-nil raster_width [] w)));
              browsing = rw enter (next_line-IsBrowsing ran browses);
              is_meant = rw enter refl;
            },
          )
      | inr other ↦ elim (Bool-cases (c == 8)) [
        | inl back ↦ (
          on_char raster_width run_command w line c,
          refl,
          record {
            buffer = edit b erase;
            sync = rw (other, back) (press-InSync raster_width w line b erase sync);
            browsing =
                rw (other, back)
                  (Keeps-IsBrowsing w _ (backspace-Keeps raster_width w line) browsing);
            is_meant = rw (other, back) refl;
          },
        )
        | inr letter ↦ (
          on_char raster_width run_command w line c,
          refl,
          record {
            buffer = edit b (char c);
            sync = rw (other, letter) (press-InSync raster_width w line b (char c) sync);
            browsing =
                rw (other, letter)
                  (Keeps-IsBrowsing w _ (insert_char-Keeps raster_width w line c) browsing);
            is_meant = rw (other, letter) refl;
          },
        )
      ]
    ]

    zoom-InSync :
        (w w' : KWriter) (line : List ℕ) (b : Buffer)
        → InSync raster_width w line b
        → Holds w' line w.input_cursor
        → InSync raster_width w' line b
    zoom-InSync w w' line b sync h = record {
      line_eq = sync.line_eq;
      held = record { shown = h.shown; cursor_eq = h.cursor_eq ∙ sync.held.cursor_eq };
    }

    on_event_lem :
        (w : KWriter) (line : List ℕ) (b : Buffer) (key : KeyboardEvent)
        → PrintsLines
        → InSync raster_width w line b
        → IsBrowsing w
        → (IsZoom key → IsLine line)
        → IsAnswered raster_width run_command w line b key
    unfolding on_event next_line zoom_in zoom_out reset
    on_event_lem w line b (KeyboardEvent.char c) prints sync browsing one =
        char-IsAnswered w line b c prints sync browsing
    on_event_lem w line b KeyboardEvent.ctrl_c prints sync browsing one = (
      _,
      refl,
      record {
        buffer = empty_buffer;
        sync = prompt-InSync raster_width _ (print_line-nil raster_width (codes "^C") w);
        browsing =
            next_line-IsBrowsing _
              (write_str-IsBrowsing raster_width (codes "^C" ++ newline ∷ []) w browsing);
        is_meant = refl;
      },
    )
    on_event_lem w line b KeyboardEvent.zoom_in prints sync browsing one = (
      _,
      refl,
      record {
        buffer = b;
        sync =
            zoom-InSync w _ line b sync (zoom-Holds raster_width zoomed_in w line (one (inl refl)));
        browsing = zoom-IsBrowsing raster_width zoomed_in w line browsing;
        is_meant = refl;
      },
    )
    on_event_lem w line b KeyboardEvent.zoom_out prints sync browsing one = (
      _,
      refl,
      record {
        buffer = b;
        sync =
            zoom-InSync w _ line b sync
              (zoom-Holds raster_width zoomed_out w line (one (inr refl)));
        browsing = zoom-IsBrowsing raster_width zoomed_out w line browsing;
        is_meant = refl;
      },
    )
    on_event_lem w line b KeyboardEvent.arrow_right prints sync browsing one = (
      _,
      refl,
      record {
        buffer = edit b right;
        sync = press-InSync raster_width w line b right sync;
        browsing = Keeps-IsBrowsing w _ (arrow_right-Keeps raster_width w) browsing;
        is_meant = refl;
      },
    )
    on_event_lem w line b KeyboardEvent.arrow_left prints sync browsing one = (
      _,
      refl,
      record {
        buffer = edit b left;
        sync = press-InSync raster_width w line b left sync;
        browsing = Keeps-IsBrowsing w _ (arrow_left-Keeps raster_width w) browsing;
        is_meant = refl;
      },
    )
    on_event_lem w line b KeyboardEvent.arrow_up prints sync browsing one =
        up-IsAnswered raster_width run_command w line b sync browsing
    on_event_lem w line b KeyboardEvent.arrow_down prints sync browsing one =
        down-IsAnswered raster_width run_command w line b sync browsing
    on_event_lem w line b KeyboardEvent.ctrl_l prints sync browsing one = (
      _,
      refl,
      record {
        buffer = empty_buffer;
        sync = reset-InSync raster_width w;
        browsing = write_str-IsBrowsing raster_width prompt (reset w) tt;
        is_meant = refl;
      },
    )
    on_event_lem w line b KeyboardEvent.tab prints sync browsing one =
        tab-IsAnswered raster_width run_command w line b sync browsing

    pub on_key-Answers :
        (w : KWriter) (line : List ℕ) (b : Buffer) (key : KeyboardEvent)
        → PrintsLines
        → InSync raster_width w line b
        → IsBrowsing w
        → (IsZoom key → IsLine line)
        → (out : KWriter × List ℕ) × (on_key raster_width run_command w line key ≡ some out)
          × Answers raster_width w line b key out
    unfolding on_key erase_cursor
    on_key-Answers w line b key prints sync browsing one =
        let erased = erase_cursor raster_width w in
        let sync' = InSync-same raster_width w erased line b refl refl sync in
        let (out, e, a) = on_event_lem erased line b key prints sync' browsing one in
        let keeps = draw_cursor-Keeps raster_width out.0 in
        let (same, same') = draw_cursor-same raster_width out.0 in
        (
          (draw_cursor raster_width out.0, out.1),
          rw (on_key, e) refl,
          record {
            buffer = a.buffer;
            sync = InSync-same raster_width out.0 _ out.1 a.buffer same same' a.sync;
            browsing = Keeps-IsBrowsing out.0 _ keeps a.browsing;
            is_meant = rw keeps.index a.is_meant;
          },
        )
