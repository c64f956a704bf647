-- ===== src/Console/History.antt =====
-- The history of commands: which lines count as commands, and what is taken of one for the input.
use agnost_os.Base.{
  ap, sym, ◌∙◌, ℕ, zero, suc, ◌≤◌, ◌<◌, ◌≡◌, refl, true, false, some, List, [], ◌∷◌, ◌++◌, arith,
  if◌then◌else◌, Bool-cases, inl, inr, length, get_elem?,
}
use agnost_os.Commands.{text_eq, starts_with}
use agnost_os.Console.{prompt}
use agnost_os.Console.Browsing.{is_command, command_history, trim_start_matches}

-- The lines that begin with the prompt.
abbrev pub prompted : List (List ℕ) → List (List ℕ)
prompted [] = []
prompted (line ∷ lines) = if starts_with line prompt then line ∷ prompted lines else prompted lines

is_command_lem : (line : List ℕ) → is_command line ≡ starts_with line prompt
unfolding starts_with text_eq
is_command_lem [] = refl
is_command_lem (c ∷ line) = ground arith

-- The commands of the history are exactly its lines that begin with the prompt: the tests for `^C`
-- and for an empty line never take one away. A line that was cancelled and an empty one, which both
-- stand in the history behind the prompt, are recalled as well.
pub command_history_lem : (history : List (List ℕ)) → command_history history ≡ prompted history
unfolding command_history
command_history_lem [] = refl
command_history_lem (line ∷ lines) =
    rw (command_history, is_command_lem line, command_history_lem lines) refl

length-trim_start_matches : (s : List ℕ) → length (trim_start_matches s) ≤ length s
unfolding trim_start_matches
length-trim_start_matches [] = omega arith
length-trim_start_matches (c ∷ []) = omega arith
length-trim_start_matches (c ∷ (d ∷ s)) = ground (arith, length-trim_start_matches s)

trim-other : (line : List ℕ) → starts_with line prompt ≡ false → trim_start_matches line ≡ line
unfolding trim_start_matches starts_with
trim-other [] h = refl
trim-other (c ∷ []) h = refl
trim-other (c ∷ (d ∷ s)) h = ground arith

trim-prompted :
    (line : List ℕ)
    → starts_with line prompt ≡ true
    → length (trim_start_matches line) < length line
unfolding trim_start_matches starts_with
trim-prompted [] h = absurd (cc)
trim-prompted (c ∷ []) h = ground arith
trim-prompted (c ∷ (d ∷ s)) h = ground (arith, length-trim_start_matches s)

-- What the recall takes off a command's line is the prompt alone, unless the command itself begins
-- with the text of the prompt: then the recalled text is shorter than the command was.
pub trim_start_matches_lem :
    (line : List ℕ)
    → (starts_with line prompt ≡ false → trim_start_matches (prompt ++ line) ≡ line)
      × (starts_with line prompt ≡ true
          → length (trim_start_matches (prompt ++ line)) < length line)
unfolding trim_start_matches
trim_start_matches_lem line = (λ h. trim-other line h, trim-prompted line)

-- What the shell takes of a line of the history with a text behind the prompt: the text, or less of
-- it if it begins with the text of the prompt itself.
pub record IsRecalled (rest recalled : List ℕ) : Type 0 where
  pub whole : starts_with rest prompt ≡ false → recalled ≡ rest
  pub shorter : starts_with rest prompt ≡ true → length recalled < length rest

behind_prompt :
    (line : List ℕ) → starts_with line prompt ≡ true → (rest : List ℕ) × (line ≡ prompt ++ rest)
unfolding starts_with
behind_prompt [] h = absurd (cc)
behind_prompt (c ∷ []) h = absurd (ground arith)
behind_prompt (c ∷ (d ∷ rest)) h =
    let first : c ≡ b'>' = ground arith in
    let second : d ≡ b' ' = ground arith in (rest, rw (first, second) refl)

prompted-rest :
    (lines : List (List ℕ)) (i : ℕ) (line : List ℕ)
    → get_elem? (prompted lines) i ≡ some line
    → (rest : List ℕ) × (line ≡ prompt ++ rest)
prompted-rest [] i line h = absurd (cc)
prompted-rest (l ∷ lines) zero line h = elim (Bool-cases (starts_with l prompt)) [
  | inr other_line ↦ prompted-rest lines zero line (rw (prompted, other_line) at h)
  | inl there ↦
      let (rest, e) = behind_prompt l there in
      let h' = rw (prompted, there) at h in let same : l ≡ line = cc in (rest, sym same ∙ e)
]
prompted-rest (l ∷ lines) (suc i) line h = elim (Bool-cases (starts_with l prompt)) [
  | inr other_line ↦ prompted-rest lines (suc i) line (rw (prompted, other_line) at h)
  | inl there ↦ prompted-rest lines i line (rw (prompted, there) at h)
]

pub command_history-IsRecalled :
    (history : List (List ℕ)) (i : ℕ) (command : List ℕ)
    → get_elem? (command_history history) i ≡ some command
    → (rest : List ℕ) × (get_elem? (prompted history) i ≡ some (prompt ++ rest))
      × IsRecalled rest (trim_start_matches command)
command_history-IsRecalled history i command found =
    let found' = rw (command_history_lem history) at found in
    let (rest, e) = prompted-rest history i command found' in
    let (same, less) = trim_start_matches_lem rest in
    (
      rest,
      found' ∙ ap some e,
      record { whole = λ h. ap trim_start_matches e ∙ same h; shorter = λ h. rw e (less h) },
    )
