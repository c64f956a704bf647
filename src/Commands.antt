-- ===== src/Commands.antt =====
-- src/commands/parser.rs and src/commands/mod.rs: the command line of the shell. A text is the list
-- of its characters.
pub mod Tokens
pub mod Parsing
pub mod Completion
pub mod Tests
use Prim.Native.Char.{code}
use Prim.Native.String.{String}
use agnost_os.Base.{
  ℕ, zero, suc, Bool, true, false, not, ◌&&◌, ◌||◌, Option, none, some, List, [], ◌∷◌, ◌++◌, leb,
  ◌==◌, if◌then◌else◌,
}

-- The characters of a literal.
abbrev pub codes : String → List ℕ
codes String.[] = []
codes (String.◌∷◌ c s) = code c ∷ codes s

-- Equality of texts.
unfoldable pub text_eq : List ℕ → List ℕ → Bool
text_eq [] [] = true
text_eq [] (d ∷ t) = false
text_eq (c ∷ s) [] = false
text_eq (c ∷ s) (d ∷ t) = (c == d) && text_eq s t

-- `str::starts_with`, the text first.
unfoldable pub starts_with : List ℕ → List ℕ → Bool
starts_with s [] = true
starts_with [] (p ∷ ps) = false
starts_with (c ∷ s) (p ∷ ps) = (c == p) && starts_with s ps

-- `char::is_whitespace`: the characters with Unicode's property White_Space.
unfoldable pub is_whitespace : ℕ → Bool
is_whitespace c =
    (leb 9 c && leb c 13)
    || (c == 32)
    || (c == 0x85)
    || (c == 0xa0)
    || (c == 0x1680)
    || (leb 0x2000 c && leb c 0x200a)
    || (c == 0x2028)
    || (c == 0x2029)
    || (c == 0x202f)
    || (c == 0x205f)
    || (c == 0x3000)

-- `push` of a token that is complete, if there is one.
abbrev pub keep_token : List ℕ → List (List ℕ) → List (List ℕ)
keep_token [] rest = rest
keep_token (c ∷ s) rest = (c ∷ s) ∷ rest

-- `str::split_whitespace`: the pieces between white space that are not empty. `token` is what has
-- been read of the current one.
unfoldable pub split_from : List ℕ → List ℕ → List (List ℕ)
unfolding is_whitespace
split_from token [] = keep_token token []
split_from token (c ∷ s) = elim (is_whitespace c) [
  | true ↦ keep_token token (split_from [] s)
  | false ↦ split_from (token ++ c ∷ []) s
]

unfoldable pub split_whitespace : List ℕ → List (List ℕ)
unfolding split_from
split_whitespace input = split_from [] input

pub data Command : Type 0 where
  help about history echo meminfo taskinfo font clear shutdown empty unknown uptime : Command

-- `COMMAND_NAMES`.
abbrev pub command_names : List (List ℕ)
command_names =
    codes "about"
    ∷ codes "clear"
    ∷ codes "echo"
    ∷ codes "font"
    ∷ codes "help"
    ∷ codes "history"
    ∷ codes "meminfo"
    ∷ codes "shutdown"
    ∷ codes "taskinfo"
    ∷ codes "uptime"
    ∷ []

-- The match on the first token.
unfoldable pub classify : List ℕ → Command
unfolding text_eq
classify s =
    if text_eq s (codes "help")
    then help
    else if text_eq s (codes "about")
    then about
    else if text_eq s (codes "history")
    then history
    else if text_eq s (codes "echo")
    then echo
    else if text_eq s (codes "meminfo")
    then meminfo
    else if text_eq s (codes "taskinfo")
    then taskinfo
    else if text_eq s (codes "font")
    then font
    else if text_eq s (codes "clear")
    then clear
    else if text_eq s (codes "shutdown")
    then shutdown
    else if text_eq s (codes "uptime")
    then uptime
    else if text_eq s []
    then empty
    else unknown

pub record ParsedCommand : Type 0 where
  pub command : Command
  pub args : List (List ℕ)
  pub flags : List (List ℕ)

abbrev pub is_flag : List ℕ → Bool
is_flag token = starts_with token (b'-' ∷ [])

-- The loop over the tokens behind the first.
unfoldable pub sort_tokens :
    List (List ℕ) → List (List ℕ) → List (List ℕ) → List (List ℕ) × List (List ℕ)
sort_tokens [] args flags = (args, flags)
sort_tokens (token ∷ tokens) args flags = elim (is_flag token) [
  | true ↦ sort_tokens tokens args (flags ++ token ∷ [])
  | false ↦ sort_tokens tokens (args ++ token ∷ []) flags
]

-- `tokens.next().unwrap_or("")`, and the rest.
abbrev pub next_token : List (List ℕ) → List ℕ × List (List ℕ)
next_token [] = ([], [])
next_token (token ∷ tokens) = (token, tokens)

unfoldable pub parse : List ℕ → ParsedCommand
unfolding split_whitespace classify sort_tokens starts_with
parse input =
    let (first, tokens) = next_token (split_whitespace input) in
    let (args, flags) = sort_tokens tokens [] [] in
    record { command = classify first; args = args; flags = flags }

unfoldable pub matching : List ℕ → List (List ℕ) → List (List ℕ)
matching prefix [] = []
matching prefix (name ∷ names) =
    let rest = matching prefix names in if starts_with name prefix then name ∷ rest else rest

abbrev pub any_whitespace : List ℕ → Bool
any_whitespace [] = false
any_whitespace (c ∷ s) = is_whitespace c || any_whitespace s

-- The only element of a list.
abbrev pub only : List (List ℕ) → Option (List ℕ)
only [] = none
only (name ∷ []) = some name
only (name ∷ (other ∷ names)) = none

abbrev pub is_empty : List ℕ → Bool
is_empty [] = true
is_empty (c ∷ s) = false

unfoldable pub complete_command : List ℕ → Option (List ℕ)
unfolding is_whitespace matching starts_with
complete_command prefix =
    if is_empty prefix || any_whitespace prefix then none else only (matching prefix command_names)
