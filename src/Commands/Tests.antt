-- ===== src/Commands/Tests.antt =====
-- Runs of the parser, and its theorems at them.
use agnost_os.Base.{ℕ, ◌≡◌, ◌↔◌, refl, false, not, some, none, List, [], ◌∷◌, ◌++◌}
use agnost_os.Commands.{
  font, codes, classify, is_flag, parse, complete_command, command_names, any_whitespace, is_empty,
  is_whitespace,
}
use agnost_os.Commands.Tokens.{IsLine, render, words_of}
use agnost_os.Commands.Parsing.{select, parse_lem}
use agnost_os.Commands.Completion.{IsOnly, complete_command_lem}

run-parse :
    parse (codes "font --temporary 24")
    ≡ record { command = font; args = codes "24" ∷ []; flags = codes "--temporary" ∷ [] }
unfolding parse
run-parse = refl

run-complete_command :
    (complete_command (codes "upt") ≡ some (codes "uptime"))
    × (complete_command (codes "h") ≡ none)
    × (complete_command (codes "echo hello") ≡ none)
unfolding complete_command
run-complete_command = (refl, refl, refl)

abbrev one_space : List ℕ
one_space = b' ' ∷ []

abbrev font_line : List (List ℕ × List ℕ)
font_line = (codes "-x", one_space ++ one_space) ∷ (codes "24", one_space) ∷ []

font-IsLine : IsLine ((codes "font", one_space) ∷ font_line)
unfolding is_whitespace
font-IsLine = (
  (λ e. cc, (refl, (refl, (refl, (refl, tt))))),
  λ e. cc,
  (refl, tt),
  (
    (λ e. cc, (refl, (refl, tt))),
    λ e. cc,
    (refl, (refl, tt)),
    ((λ e. cc, (refl, (refl, tt))), λ e. cc, (refl, tt), tt),
  ),
)

parse_lem_example : parse ([] ++ render ((codes "font", one_space) ∷ font_line)) ≡ record {
  command = classify (codes "font");
  args = select (λ t. not (is_flag t)) (words_of font_line);
  flags = select is_flag (words_of font_line);
}
parse_lem_example = parse_lem [] (codes "font") one_space font_line tt font-IsLine

complete_command_lem_example : (complete_command (codes "upt") ≡ some (codes "uptime")) ↔ (
    (is_empty (codes "upt") ≡ false)
    × (any_whitespace (codes "upt") ≡ false)
    × IsOnly (codes "upt") (codes "uptime") command_names)
complete_command_lem_example = complete_command_lem (codes "upt") (codes "uptime")
