-- ===== src/Commands/Parsing.antt =====
-- `parse`: where the words of a line go.
use agnost_os.Base.{
  ℕ, ◌≡◌, refl, Bool, not, List, [], ◌∷◌, ◌++◌, Bool-cases, inl, inr, if◌then◌else◌,
}
use mathlib.Core.List.{append_assoc, append-nil}
use agnost_os.Commands.{classify, is_flag, sort_tokens, parse}
use agnost_os.Commands.Tokens.{IsSpace, IsLine, render, words_of, split_whitespace_lem}

-- The words for which a test holds, in order.
abbrev pub select : (List ℕ → Bool) → List (List ℕ) → List (List ℕ)
select test [] = []
select test (t ∷ ts) = if test t then t ∷ select test ts else select test ts

sort_tokens_lem :
    (tokens args flags : List (List ℕ))
    → sort_tokens tokens args flags
      ≡ (args ++ select (λ t. not (is_flag t)) tokens, flags ++ select is_flag tokens)
unfolding sort_tokens
sort_tokens_lem [] args flags = cc (append-nil args, append-nil flags)
sort_tokens_lem (t ∷ ts) args flags = elim (Bool-cases (is_flag t)) [
  | inl flag ↦
      rw (sort_tokens, flag, sort_tokens_lem ts args (flags ++ t ∷ []))
        (cc (append_assoc flags (t ∷ []) (select is_flag ts)))
  | inr arg ↦
      rw (sort_tokens, arg, sort_tokens_lem ts (args ++ t ∷ []) flags)
        (cc (append_assoc args (t ∷ []) (select (λ t. not (is_flag t)) ts)))
]

-- A line of words, its first the verb, is parsed into the command of the verb, the words behind it
-- that begin with `-` as flags and the others as arguments, both in their order.
pub parse_lem :
    (lead verb space : List ℕ) (line : List (List ℕ × List ℕ))
    → IsSpace lead
    → IsLine ((verb, space) ∷ line)
    → parse (lead ++ render ((verb, space) ∷ line)) ≡ record {
      command = classify verb;
      args = select (λ t. not (is_flag t)) (words_of line);
      flags = select is_flag (words_of line);
    }
unfolding parse
parse_lem lead verb space line white v =
    rw
      (
        parse,
        (split_whitespace_lem [] lead ((verb, space) ∷ line) white v).1,
        sort_tokens_lem (words_of line) [] [],
      )
      refl
