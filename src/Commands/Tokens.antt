-- ===== src/Commands/Tokens.antt =====
-- `split_whitespace`: what the tokens of a line are.
use agnost_os.Base.{
  ℕ, ◌≡◌, ◌≢◌, refl, ap, ◌∙◌, true, false, List, [], ◌∷◌, ◌++◌, All, All-append, Bool-cases, inl,
  inr,
}
use mathlib.Core.List.{append_assoc, append-nil}
use agnost_os.Commands.{is_whitespace, keep_token, split_from, split_whitespace}

abbrev pub IsWord : List ℕ → Type 0
IsWord = All (λ c. is_whitespace c ≡ false)

abbrev pub IsSpace : List ℕ → Type 0
IsSpace = All (λ c. is_whitespace c ≡ true)

abbrev pub IsToken : List ℕ → Type 0
IsToken token = (token ≢ []) × IsWord token

keep_token-IsToken :
    (token : List ℕ) (rest : List (List ℕ))
    → IsWord token
    → All IsToken rest
    → All IsToken (keep_token token rest)
keep_token-IsToken [] rest w h = h
keep_token-IsToken (c ∷ s) rest w h = ((λ e. cc, w), h)

split_from-IsToken : (token s : List ℕ) → IsWord token → All IsToken (split_from token s)
unfolding split_from
split_from-IsToken token [] w = keep_token-IsToken token [] w tt
split_from-IsToken token (c ∷ s) w = elim (Bool-cases (is_whitespace c)) [
  | inl space ↦
      rw (split_from, space)
        (keep_token-IsToken token (split_from [] s) w (split_from-IsToken [] s tt))
  | inr letter ↦
      rw (split_from, letter)
        (split_from-IsToken (token ++ c ∷ []) s
          (All-append (λ d. is_whitespace d ≡ false) token (c ∷ []) w (letter, tt)))
]

split_from-word :
    (token word s : List ℕ)
    → IsWord word
    → split_from token (word ++ s) ≡ split_from (token ++ word) s
unfolding split_from
split_from-word token [] s w = rw (append-nil token) refl
split_from-word token (c ∷ word) s (letter, w) =
    rw
      (
        split_from,
        letter,
        split_from-word (token ++ c ∷ []) word s w,
        append_assoc token (c ∷ []) word,
      )
      refl

split_from-space : (space s : List ℕ) → IsSpace space → split_from [] (space ++ s) ≡ split_from [] s
unfolding split_from
split_from-space [] s w = refl
split_from-space (c ∷ space) s (white, w) = rw (split_from, white) (split_from-space space s w)

-- A line: its words, each with the white space behind it.
unfoldable pub render : List (List ℕ × List ℕ) → List ℕ
render [] = []
render ((word, space) ∷ rest) = word ++ (space ++ render rest)

-- Each word is a token, each space at least one white character.
abbrev pub IsLine : List (List ℕ × List ℕ) → Type 0
IsLine [] = Unit
IsLine ((word, space) ∷ rest) = IsToken word × (space ≢ []) × IsSpace space × IsLine rest

abbrev pub words_of : List (List ℕ × List ℕ) → List (List ℕ)
words_of [] = []
words_of ((word, space) ∷ rest) = word ∷ words_of rest

keep_token-word :
    (word : List ℕ) (rest : List (List ℕ)) → word ≢ [] → keep_token word rest ≡ word ∷ rest
keep_token-word [] rest h = absurd (h refl)
keep_token-word (c ∷ s) rest h = refl

split_from-gap :
    (token space s : List ℕ)
    → token ≢ []
    → space ≢ []
    → IsSpace space
    → split_from token (space ++ s) ≡ token ∷ split_from [] s
unfolding split_from
split_from-gap token [] s t n w = absurd (n refl)
split_from-gap token (c ∷ space) s t n (white, w) =
    rw (split_from, white, split_from-space space s w) (keep_token-word token (split_from [] s) t)

split_from-render :
    (line : List (List ℕ × List ℕ)) → IsLine line → split_from [] (render line) ≡ words_of line
unfolding split_from render
split_from-render [] v = refl
split_from-render ((word, space) ∷ rest) ((some_word, w), gap, white, v) =
    split_from-word [] word (space ++ render rest) w
    ∙ (split_from-gap word space (render rest) some_word gap white
        ∙ ap (λ ws. word ∷ ws) (split_from-render rest v))

-- Every token of a line is not empty and has no white space; and a line that is made of such words,
-- with white space before them and behind each, has exactly them as its tokens, in order.
pub split_whitespace_lem :
    (input : List ℕ) (lead : List ℕ) (line : List (List ℕ × List ℕ))
    → IsSpace lead
    → IsLine line
    → All IsToken (split_whitespace input)
      × (split_whitespace (lead ++ render line) ≡ words_of line)
unfolding split_whitespace
split_whitespace_lem input lead line space v = (
  split_from-IsToken [] input tt,
  split_from-space lead (render line) space ∙ split_from-render line v,
)
