-- ===== src/Console/Recall.antt =====
-- What the arrows recall of the history of commands.
use agnost_os.Base.{
  sym, ◌∙◌, ℕ, zero, suc, ◌+◌, ◌<◌, ◌≡◌, refl, ◌⊎◌, true, false, Option, none, some, List, [], ◌∷◌,
  ◌++◌, arith, ltb, ◌==◌, Bool-cases, inl, inr, length, get_elem?,
}
use mathlib.Core.Path.{subst}
use agnost_os.Console.{KWriter, RasterHeight, prompt}
use agnost_os.Console.Editing.{redraw_input_line}
use agnost_os.Console.Redraw.{Holds, redraw_input_line-Redrawn}
use agnost_os.Console.History.{
  prompted, IsRecalled, command_history_lem, command_history-IsRecalled,
}
use agnost_os.Console.Browsing.{
  command_history, trim_start_matches, older, arrow_up, newer, arrow_down,
}

-- The index of the command that is shown is one of the history's commands.
abbrev pub IsBrowsing : KWriter → Type 0
IsBrowsing w = elim w.history_index [
  | none ↦ Unit {0}
  | some i ↦ i < length (command_history w.history)
]

get_elem?-some :
    {A : Type 0} (xs : List A) (i : ℕ) → i < length xs → (x : A) × (get_elem? xs i ≡ some x)
get_elem?-some [] i h = absurd (omega arith)
get_elem?-some (x ∷ xs) zero h = (x, refl)
get_elem?-some (x ∷ xs) (suc i) h = get_elem?-some xs i (omega arith)

older_lt :
    (index : Option ℕ) (count : ℕ)
    → 0 < count
    → elim index as (λ _. Type 0) [ none ↦ Unit {0} | some i ↦ i < count ]
    → older index count < count
older_lt none count pos h = omega arith
older_lt (some zero) count pos h = pos
older_lt (some (suc i)) count pos h = omega arith

empty-cases :
    {A : Type 0} (xs : List A)
    → ((xs ≡ []) × ((length xs == 0) ≡ true)) ⊎ ((0 < length xs) × ((length xs == 0) ≡ false))
empty-cases [] = inl (refl, refl)
empty-cases (x ∷ xs) = inr (omega arith, ground arith)

-- An index is shown with the history as it is.
pub IsBrowsing-same :
    (w : KWriter) (history : List (List ℕ)) (index : Option ℕ)
    → w.history ≡ history
    → w.history_index ≡ index
    → elim index as (λ _. Type 0) [
      | none ↦ Unit {0}
      | some i ↦ i < length (command_history history)
    ]
    → IsBrowsing w
IsBrowsing-same w history index h e v = rw (h, e) v

count_pos :
    (lines : List (List ℕ)) (i : ℕ) (line : List ℕ)
    → get_elem? lines i ≡ some line
    → 0 < length lines
count_pos [] i line h = absurd (cc)
count_pos (l ∷ lines) i line h = omega arith

-- The command that comes before the one shown: the newest one if none is shown, and the oldest one
-- again if it is the one shown.
pub record IsOlder (shown : Option ℕ) (count index : ℕ) : Type 0 where
  pub newest : shown ≡ none → index + 1 ≡ count
  pub previous : (i : ℕ) → shown ≡ some (suc i) → index ≡ i
  pub oldest : shown ≡ some 0 → index ≡ 0

older-IsOlder : (shown : Option ℕ) (count : ℕ) → 0 < count → IsOlder shown count (older shown count)
older-IsOlder shown count pos = record {
  newest = λ e. rw e (omega (arith, pos));
  previous = λ i e. rw e refl;
  oldest = λ e. rw e refl;
}

module _ (raster_width : RasterHeight → ℕ) where
  -- A command is shown: the writer and the shell's line hold its text with the cursor at the end.
  pub record Shows (w w' : KWriter) (line : List ℕ) (index : Option ℕ) : Type 0 where
    pub holds : Holds w' line (length line)
    pub history : w'.history ≡ w.history
    pub index_eq : w'.history_index ≡ index
    pub browsing : IsBrowsing w'

  pub arrow_up-cases :
      (w : KWriter) (line : List ℕ)
      → IsBrowsing w
      → ((command_history w.history ≡ []) × (arrow_up raster_width w line ≡ some (w, line)))
        ⊎ ((command : List ℕ) × (w' : KWriter) × (get_elem?
                (command_history w.history)
                (older w.history_index (length (command_history w.history)))
              ≡ some command)
            × (arrow_up raster_width w line ≡ some (w', trim_start_matches command))
            × Shows w w'
                (trim_start_matches command)
                (some (older w.history_index (length (command_history w.history)))))
  unfolding arrow_up
  arrow_up-cases w line browsing =
      let commands = command_history w.history in
      elim (empty-cases commands) [
        | inl (none_there, e) ↦ inl (none_there, rw (arrow_up, e) refl)
        | inr (pos, e) ↦
            let index = older w.history_index (length commands) in
            let lt = older_lt w.history_index (length commands) pos browsing in
            let (command, found) = get_elem?-some commands index lt in
            let recalled = trim_start_matches command in
            let r =
              redraw_input_line-Redrawn raster_width (record w { history_index = some index })
                recalled (length recalled) in
            let shown =
              redraw_input_line raster_width (record w { history_index = some index }) recalled
                (length recalled) in
            inr (
              command,
              shown,
              found,
              rw (arrow_up, e, found) refl,
              record {
                holds = r.holds;
                history = r.history;
                index_eq = r.history_index;
                browsing =
                    IsBrowsing-same shown w.history (some index) r.history r.history_index lt;
              },
            )
      ]

  -- While the index is one of a command, `arrow_up` never reads out of bounds. The commands are the
  -- lines of the history that begin with the prompt. Without any it changes nothing; else it goes to
  -- the newest one if none was shown, to the one before the one shown, or stays at the oldest, and
  -- shows its text behind the prompt with the cursor at the end; a text that itself begins with the
  -- text of the prompt is cut short.
  pub arrow_up_lem :
      (w : KWriter) (line : List ℕ)
      → IsBrowsing w
      → ((prompted w.history ≡ []) × (arrow_up raster_width w line ≡ some (w, line)))
        ⊎ ((index : ℕ) × (rest recalled : List ℕ) × (w' : KWriter) × IsOlder w.history_index
              (length (prompted w.history))
              index
            × (get_elem? (prompted w.history) index ≡ some (prompt ++ rest))
            × IsRecalled rest recalled
            × (arrow_up raster_width w line ≡ some (w', recalled))
            × Shows w w' recalled (some index))
  arrow_up_lem w line browsing =
      let same = command_history_lem w.history in
      elim (arrow_up-cases w line browsing) [
        | inl (none_there, e) ↦ inl (sym same ∙ none_there, e)
        | inr (command, w', found, e, shows) ↦
            let index = older w.history_index (length (command_history w.history)) in
            let (rest, there, recalled) =
              command_history-IsRecalled w.history index command found in
            inr (
              index,
              rest,
              trim_start_matches command,
              w',
              rw (← same) (
                  older-IsOlder w.history_index (length (command_history w.history))
                    (count_pos (command_history w.history) index command found)),
              there,
              recalled,
              e,
              shows,
            )
      ]

  IsBrowsing-lt :
      (w : KWriter) (i : ℕ)
      → w.history_index ≡ some i
      → IsBrowsing w
      → i < length (command_history w.history)
  IsBrowsing-lt w i e b =
      subst
        (λ index. elim index as (λ _. Type 0) [
          | none ↦ Unit {0}
          | some j ↦ j < length (command_history w.history)
        ])
        e b

  -- While a command is shown, `arrow_down` never reads out of bounds. Behind the newest command it
  -- clears the line and shows none; before that, it recalls the command after the one that is shown,
  -- and shows its text.
  pub arrow_down_lem :
      (w : KWriter) (line : List ℕ) (i : ℕ)
      → w.history_index ≡ some i
      → IsBrowsing w
      → ((i + 1 ≡ length (command_history w.history))
          × (w' : KWriter) × (arrow_down raster_width w line ≡ some (w', []))
          × Shows w w' [] none)
        ⊎ ((command : List ℕ) × (w' : KWriter) × (get_elem? (command_history w.history) (i + 1)
              ≡ some command)
            × (arrow_down raster_width w line ≡ some (w', trim_start_matches command))
            × Shows w w' (trim_start_matches command) (some (i + 1)))
  unfolding arrow_down newer
  arrow_down_lem w line i e browsing =
      let commands = command_history w.history in
      let lt : i < length commands = IsBrowsing-lt w i e browsing in
      let there : (length commands == 0) ≡ false = ground arith in
      elim (Bool-cases (ltb (i + 1) (length commands))) [
        | inl before ↦
            let lt' : i + 1 < length commands = ground arith in
            let (command, found) = get_elem?-some commands (i + 1) lt' in
            let recalled = trim_start_matches command in
            let shown =
              redraw_input_line raster_width (record w { history_index = some (i + 1) }) recalled
                (length recalled) in
            let r =
              redraw_input_line-Redrawn raster_width (record w { history_index = some (i + 1) })
                recalled (length recalled) in
            inr (
              command,
              shown,
              found,
              rw (arrow_down, there, e, newer, before, found) refl,
              record {
                holds = r.holds;
                history = r.history;
                index_eq = r.history_index;
                browsing =
                    IsBrowsing-same shown w.history (some (i + 1)) r.history r.history_index lt';
              },
            )
        | inr last ↦
            let shown = redraw_input_line raster_width (record w { history_index = none }) [] 0 in
            let r =
              redraw_input_line-Redrawn raster_width (record w { history_index = none }) [] 0 in
            inl (
              ground arith,
              shown,
              rw (arrow_down, there, e, newer, last) refl,
              record {
                holds = r.holds;
                history = r.history;
                index_eq = r.history_index;
                browsing = IsBrowsing-same shown w.history none r.history r.history_index tt;
              },
            )
      ]
