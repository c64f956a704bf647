-- ===== src/Shell/Recall.antt =====
-- Recalling and completing commands, from the shell.
use agnost_os.Base.{
  ◌+◌, ◌∙◌, ℕ, ◌≡◌, refl, ap, none, some, List, [], ◌==◌, Bool-cases, inl, inr, length,
  Option-cases,
}
use agnost_os.Commands.{complete_command}
use agnost_os.Console.{KWriter, RasterHeight}
use agnost_os.Console.Browsing.{
  arrow_down, auto_complete, drop, command_history, trim_start_matches,
}
use agnost_os.Console.Buffer.{Buffer}
use agnost_os.Console.Editor.{InSync}
use agnost_os.Console.History.{command_history_lem, command_history-IsRecalled}
use agnost_os.Console.Recall.{IsBrowsing, arrow_up_lem, arrow_down_lem}
use agnost_os.Console.Complete.{typed, auto_complete_lem}
use agnost_os.Input.Keyboard.{KeyboardEvent}
use agnost_os.Shell.{on_event}
use agnost_os.Shell.Browsing.{auto_complete-IsBrowsing}
use agnost_os.Shell.Sync.{IsMeant, at_end, Holds-InSync}

module _ (raster_width : RasterHeight → ℕ) where
  -- The writer and the line hold the buffer that the key makes of theirs, and the command that is
  -- shown is one of the history.
  pub record Answers (w : KWriter) (line : List ℕ) (b : Buffer) (key : KeyboardEvent)
      (out : KWriter × List ℕ) : Type 0 where
    pub buffer : Buffer
    pub sync : InSync raster_width out.0 out.1 buffer
    pub browsing : IsBrowsing out.0
    pub is_meant : IsMeant w.history w.history_index out.0.history_index line b key buffer

  arrow_down-idle :
      (w : KWriter) (line : List ℕ)
      → w.history_index ≡ none
      → arrow_down raster_width w line ≡ some (w, line)
  unfolding arrow_down
  arrow_down-idle w line e = elim (Bool-cases (length (command_history w.history) == 0)) [
    | inl h ↦ rw (arrow_down, h) refl
    | inr h ↦ simp (arrow_down, h, e)
  ]

  auto_complete-idle :
      (w : KWriter) (line : List ℕ)
      → complete_command line ≡ none
      → auto_complete raster_width w line ≡ (w, line)
  unfolding auto_complete
  auto_complete-idle w line e = rw (auto_complete, e) refl

  module _ (run_command : KWriter → List ℕ → KWriter) where
    abbrev pub IsAnswered : KWriter → List ℕ → Buffer → KeyboardEvent → Type 0
    IsAnswered w line b key =
        (out : KWriter × List ℕ) × (on_event raster_width run_command w line key ≡ some out)
        × Answers w line b key out

    pub up-IsAnswered :
        (w : KWriter) (line : List ℕ) (b : Buffer)
        → InSync raster_width w line b
        → IsBrowsing w
        → IsAnswered w line b KeyboardEvent.arrow_up
    unfolding on_event
    up-IsAnswered w line b sync browsing = elim (arrow_up_lem raster_width w line browsing) [
      | inl (nothing, e) ↦ (
        (w, line),
        e,
        record { buffer = b; sync = sync; browsing = browsing; is_meant = inl (nothing, refl) },
      )
      | inr (index, rest, recalled, w', older, there, same, e, shows) ↦ (
        (w', recalled),
        e,
        record {
          buffer = at_end recalled;
          sync = Holds-InSync raster_width w' recalled shows.holds;
          browsing = shows.browsing;
          is_meant = inr (index, rest, recalled, older, there, same, refl, shows.index_eq);
        },
      )
    ]

    pub down-IsAnswered :
        (w : KWriter) (line : List ℕ) (b : Buffer)
        → InSync raster_width w line b
        → IsBrowsing w
        → IsAnswered w line b KeyboardEvent.arrow_down
    unfolding on_event
    down-IsAnswered w line b sync browsing = elim (Option-cases w.history_index) [
      | inl idle ↦ (
        (w, line),
        arrow_down-idle w line idle,
        record { buffer = b; sync = sync; browsing = browsing; is_meant = inl (idle, refl) },
      )
      | inr (i, e) ↦ elim (arrow_down_lem raster_width w line i e browsing) [
        | inl (last, w', e', shows) ↦ (
          (w', []),
          e',
          record {
            buffer = at_end [];
            sync = Holds-InSync raster_width w' [] shows.holds;
            browsing = shows.browsing;
            is_meant = inr (
              i,
              e,
              inl (last ∙ ap length (command_history_lem w.history), refl, shows.index_eq),
            );
          },
        )
        | inr (command, w', found, e', shows) ↦
            let (rest, there, same) = command_history-IsRecalled w.history (i + 1) command found in
            (
              (w', trim_start_matches command),
              e',
              record {
                buffer = at_end (trim_start_matches command);
                sync = Holds-InSync raster_width w' (trim_start_matches command) shows.holds;
                browsing = shows.browsing;
                is_meant = inr (
                  i,
                  e,
                  inr (rest, trim_start_matches command, there, same, refl, shows.index_eq),
                );
              },
            )
      ]
    ]

    pub tab-IsAnswered :
        (w : KWriter) (line : List ℕ) (b : Buffer)
        → InSync raster_width w line b
        → IsBrowsing w
        → IsAnswered w line b KeyboardEvent.tab
    unfolding on_event
    tab-IsAnswered w line b sync browsing = elim (Option-cases (complete_command line)) [
      | inl missing ↦ (
        (w, line),
        ap some (auto_complete-idle w line missing),
        record { buffer = b; sync = sync; browsing = browsing; is_meant = inl (missing, refl) },
      )
      | inr (command, found) ↦ (
        auto_complete raster_width w line,
        refl,
        record {
          buffer = typed b (drop (length line) command);
          sync = (auto_complete_lem raster_width w line command b sync found).0;
          browsing = auto_complete-IsBrowsing raster_width w line browsing;
          is_meant = inr (command, found, refl);
        },
      )
    ]
