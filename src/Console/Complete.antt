-- ===== src/Console/Complete.antt =====
-- What completion makes of the line.
use agnost_os.Base.{
  ℕ, ◌+◌, ◌≤◌, ◌≡◌, refl, sym, ap, ◌∙◌, true, false, some, List, [], ◌∷◌, ◌++◌, arith, leb, ◌==◌,
  Bool-cases, inl, inr, length, length-append, map, All, ==→eq,
}
use mathlib.Core.List.{append-nil}
use mathlib.Core.Path.{subst}
use agnost_os.Commands.{command_names, starts_with, complete_command}
use agnost_os.Commands.Completion.{complete_command_lem}
use agnost_os.Console.{KWriter, RasterHeight, max_input_chars}
use agnost_os.Console.Editing.{insert_char}
use agnost_os.Console.Browsing.{drop, insert_all, auto_complete}
use agnost_os.Console.Buffer.{Buffer, rev_onto, text_of, char, edit_all, length-rev_onto}
use agnost_os.Console.Editor.{InSync, press_all, press_all-InSync}

-- The buffer with a text typed at its cursor.
abbrev pub typed : Buffer → List ℕ → Buffer
typed b s = record { before = rev_onto s b.before; after = b.after }

edit_all-typed :
    (s : List ℕ) (b : Buffer)
    → length (text_of b) + length s ≤ max_input_chars
    → edit_all b (map char s) ≡ typed b s
edit_all-typed [] b room = refl
edit_all-typed (c ∷ s) b room =
    let size = length-rev_onto b.before b.after in
    let size' = length-rev_onto (c ∷ b.before) b.after in
    let free : leb max_input_chars (length b.before + length b.after) ≡ false = ground arith in
    rw (edit_all, free)
      (edit_all-typed s (record { before = c ∷ b.before; after = b.after })
        (omega (arith, size, size', room)))

pub rev_onto-rev_onto :
    (s before after : List ℕ) → rev_onto (rev_onto s before) after ≡ rev_onto before (s ++ after)
rev_onto-rev_onto [] before after = refl
rev_onto-rev_onto (c ∷ s) before after = rev_onto-rev_onto s (c ∷ before) after

rev_onto-append :
    (before after s : List ℕ) → rev_onto before (after ++ s) ≡ rev_onto before after ++ s
rev_onto-append [] after s = refl
rev_onto-append (c ∷ before) after s = rev_onto-append before (c ∷ after) s

-- A text that begins with a prefix is the prefix and what is behind it.
starts_with-drop :
    (command line : List ℕ)
    → starts_with command line ≡ true
    → line ++ drop (length line) command ≡ command
unfolding starts_with
starts_with-drop command [] h = refl
starts_with-drop [] (c ∷ line) h = absurd (cc)
starts_with-drop (d ∷ command) (c ∷ line) h = elim (Bool-cases (d == c)) [
  | inl same ↦
      let rest = starts_with-drop command line (rw (starts_with, same) at h) in
      let e = ==→eq d c same in cc
  | inr other ↦ let h' = rw (starts_with, other) at h in absurd (cc)
]

All-middle :
    (P : List ℕ → Type 0) (before : List (List ℕ)) (name : List ℕ) (behind : List (List ℕ))
    → All P (before ++ name ∷ behind)
    → P name
All-middle P [] name behind h = h.0
All-middle P (n ∷ before) name behind h = All-middle P before name behind h.1

names_short : All (λ n. length n ≤ max_input_chars) command_names
names_short = ground arith

-- The prefix and what is behind it have the length of the command, which fits the line.
completed-short :
    (line command : List ℕ)
    → complete_command line ≡ some command
    → (line ++ drop (length line) command ≡ command)
      × (length line + length (drop (length line) command) ≤ max_input_chars)
completed-short line command found =
    let (_, _, is_only) = (complete_command_lem line command).0 found in
    let joined = starts_with-drop command line is_only.fits in
    let short =
      All-middle (λ n. length n ≤ max_input_chars) is_only.before command is_only.behind
        (subst (All (λ n. length n ≤ max_input_chars)) is_only.table names_short) in
    let size = ap length joined in
    let parts = length-append line (drop (length line) command) in
    (joined, omega (arith, short, size, parts))

module _ (raster_width : RasterHeight → ℕ) where
  insert_all-press_all :
      (s : List ℕ) (w : KWriter) (line : List ℕ)
      → insert_all raster_width w line s ≡ press_all raster_width (w, line) (map char s)
  unfolding insert_all
  insert_all-press_all [] w line = refl
  insert_all-press_all (c ∷ s) w line =
      let out = insert_char raster_width w line c in insert_all-press_all s out.0 out.1

  -- While the writer and the shell's line hold a text with a cursor in it, and the whole text
  -- completes to a command, what the command has behind the text is typed at the cursor, all of it.
  -- With the cursor at the end the line is then the command.
  pub auto_complete_lem :
      (w : KWriter) (line command : List ℕ) (b : Buffer)
      → InSync raster_width w line b
      → complete_command line ≡ some command
      → InSync raster_width
          (auto_complete raster_width w line).0
          (auto_complete raster_width w line).1
          (typed b (drop (length line) command))
        × (b.after ≡ [] → (auto_complete raster_width w line).1 ≡ command)
  unfolding auto_complete
  auto_complete_lem w line command b sync found =
      let suffix = drop (length line) command in
      let (joined, short) = completed-short line command found in
      let same : auto_complete raster_width w line
          ≡ press_all raster_width (w, line) (map char suffix) =
        rw (auto_complete, found) (insert_all-press_all suffix w line) in
      let room : length (text_of b) + length suffix ≤ max_input_chars = rw (← sync.line_eq) short in
      let typed_in : InSync raster_width (auto_complete raster_width w line).0
          (auto_complete raster_width w line).1 (typed b suffix) =
        rw (same, ← edit_all-typed suffix b room)
          (press_all-InSync raster_width w line b (map char suffix) sync) in
      let command_eq : b.after ≡ [] → rev_onto b.before (suffix ++ b.after) ≡ command = λ at_end.
        ap (λ after. rev_onto b.before (suffix ++ after)) at_end
        ∙ (ap (rev_onto b.before) (append-nil suffix)
            ∙ (rev_onto-append b.before [] suffix
                ∙ (ap (λ s. s ++ suffix) (sym (sync.line_eq ∙ ap (rev_onto b.before) at_end))
                    ∙ joined))) in
      (
        typed_in,
        λ at_end.
            typed_in.line_eq ∙ (rev_onto-rev_onto suffix b.before b.after ∙ command_eq at_end),
      )
