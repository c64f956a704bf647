-- ===== src/Console/Buffer.antt =====
-- A text with a cursor in it, what the keys do to it, and the line operations of the console on it.
use agnost_os.Base.{
  ℕ, suc, ◌+◌, ◌-◌, ◌≡◌, refl, ap, ◌∙◌, false, List, [], ◌∷◌, arith, leb, ◌==◌, if◌then◌else◌,
  length, min,
}
use agnost_os.Console.{max_input_chars}
use agnost_os.Console.Editing.{insert_char_at, drop_at, remove_char_at}

-- The characters before the cursor, the nearest first, and those from the cursor on.
pub record Buffer : Type 0 where
  pub before : List ℕ
  pub after : List ℕ

abbrev pub rev_onto : List ℕ → List ℕ → List ℕ
rev_onto [] after = after
rev_onto (c ∷ before) after = rev_onto before (c ∷ after)

abbrev pub text_of : Buffer → List ℕ
text_of b = rev_onto b.before b.after

pub data Key : Type 0 where
  char : ℕ → Key
  erase left right : Key

-- What a key is for.
abbrev pub edit_key : List ℕ → List ℕ → Key → Buffer
edit_key before after (char c) =
    if leb max_input_chars (length before + length after)
    then record { before = before; after = after }
    else record { before = c ∷ before; after = after }
edit_key [] after erase = record { before = []; after = after }
edit_key (c ∷ before) after erase = record { before = before; after = after }
edit_key [] after left = record { before = []; after = after }
edit_key (c ∷ before) after left = record { before = before; after = c ∷ after }
edit_key before [] right = record { before = before; after = [] }
edit_key before (c ∷ after) right = record { before = c ∷ before; after = after }

abbrev pub edit : Buffer → Key → Buffer
edit b key = edit_key b.before b.after key

abbrev pub edit_all : Buffer → List Key → Buffer
edit_all b [] = b
edit_all b (key ∷ keys) = edit_all (edit b key) keys

pub length-rev_onto : (b a : List ℕ) → length (rev_onto b a) ≡ length b + length a
length-rev_onto [] a = omega arith
length-rev_onto (c ∷ b) a = omega (arith, length-rev_onto b (c ∷ a))

insert_char_at-rev_onto :
    (b a : List ℕ) (k c : ℕ)
    → insert_char_at (rev_onto b a) (length b + k) c ≡ rev_onto b (insert_char_at a k c)
unfolding insert_char_at
insert_char_at-rev_onto [] a k c = ap (λ n. insert_char_at a n c) (omega arith)
insert_char_at-rev_onto (d ∷ b) a k c =
    ap (λ n. insert_char_at (rev_onto b (d ∷ a)) n c) (omega arith)
    ∙ insert_char_at-rev_onto b (d ∷ a) (suc k) c

drop_at-rev_onto :
    (b a : List ℕ) (k : ℕ) → drop_at (rev_onto b a) (length b + k) ≡ rev_onto b (drop_at a k)
unfolding drop_at
drop_at-rev_onto [] a k = ap (drop_at a) (omega arith)
drop_at-rev_onto (d ∷ b) a k =
    ap (λ n. drop_at (rev_onto b (d ∷ a)) n) (omega arith) ∙ drop_at-rev_onto b (d ∷ a) (suc k)

pub insert-at_cursor :
    (b a : List ℕ) (c : ℕ) → insert_char_at (rev_onto b a) (length b) c ≡ rev_onto (c ∷ b) a
unfolding insert_char_at
insert-at_cursor b a c =
    ap (λ n. insert_char_at (rev_onto b a) n c) (omega arith)
    ∙ (insert_char_at-rev_onto b a 0 c ∙ ap (rev_onto b) (insert_front a c))
  where
    insert_front : (a : List ℕ) (c : ℕ) → insert_char_at a 0 c ≡ c ∷ a
    insert_front [] c = refl
    insert_front (d ∷ a) c = refl

pub remove-at_cursor :
    (b a : List ℕ) (c : ℕ) → remove_char_at (rev_onto (c ∷ b) a) (suc (length b)) ≡ rev_onto b a
unfolding remove_char_at
remove-at_cursor b a c =
    let n = length-rev_onto b (c ∷ a) in
    let whole : min (suc (length b)) (length (rev_onto b (c ∷ a))) ≡ suc (length b) = omega arith in
    let some_chars : (suc (length b) == 0) ≡ false = ground arith in
    rw (remove_char_at, whole, some_chars)
      (ap (drop_at (rev_onto b (c ∷ a)))
          (let e : suc (length b) - 1 ≡ length b + 0 = omega arith in e)
        ∙ drop_at-rev_onto b (c ∷ a) 0)
