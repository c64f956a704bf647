-- ===== src/Task/Stack.antt =====
-- src/task/context.rs and src/task/stack.rs: saved contexts, and the first frame of a stack.
-- A stack is its address and its memory in 8-byte words; the address comes from where the
-- scheduler is placed, and `repr(align(16))` makes it a multiple of 16.
use agnost_os.Base.{
  ℕ, zero, suc, ◌+◌, ◌-◌, ◌*◌, ◌/◌, ◌%◌, ◌≤◌, ◌<◌, ◌≡◌, refl, ap, List, [], ◌∷◌, arith, length,
  get_or, set, replicate, length-set, length-replicate, get_or-set_self, get_or-set_ne, ◌∙◌,
}

abbrev pub task_stack_size : ℕ
task_stack_size = 4 * 1024

abbrev pub stack_frame_words : ℕ
stack_frame_words = 7

-- `size_of::<usize>()`.
abbrev pub word_size : ℕ
word_size = 8

pub record TaskContext : Type 0 where
  pub stack_pointer : ℕ
  pub rbx : ℕ
  pub rbp : ℕ
  pub r12 : ℕ
  pub r13 : ℕ
  pub r14 : ℕ
  pub r15 : ℕ

abbrev pub new_context : TaskContext
new_context = record { stack_pointer = 0; rbx = 0; rbp = 0; r12 = 0; r13 = 0; r14 = 0; r15 = 0 }

pub record TaskStack : Type 0 where
  pub address : ℕ
  pub words : List ℕ

unfoldable pub new_stack : ℕ → TaskStack
new_stack address = record { address = address; words = replicate (task_stack_size / word_size) 0 }

-- `end & !15`.
unfoldable pub top : TaskStack → ℕ
top s = let end = s.address + task_stack_size in end - end % 16

-- The seven words that `switch` pops, lowest address first.
pub frame_words : ℕ → TaskContext → List ℕ
frame_words trampoline c = c.rbx ∷ c.rbp ∷ c.r12 ∷ c.r13 ∷ c.r14 ∷ c.r15 ∷ trampoline ∷ []

-- `copy_nonoverlapping` of words to word index `i`.
copy_words : List ℕ → ℕ → List ℕ → List ℕ
copy_words memory i [] = memory
copy_words memory i (x ∷ xs) = copy_words (set memory i x) (i + 1) xs

unfoldable pub initialize_frame : ℕ → TaskStack → TaskContext → ℕ × TaskStack
unfolding top copy_words frame_words
initialize_frame trampoline s c =
    let stack_pointer = top s - stack_frame_words * word_size in
    let i = (stack_pointer - s.address) / word_size in
    (stack_pointer, record s { words = copy_words s.words i (frame_words trampoline c) })

-- The first word that `switch` pops is `rbx`, and it returns to the word after the six registers.
pub record IsPlaced (s : TaskStack) : Type 0 where
  pub aligned : s.address % 16 ≡ 0
  pub sized : length s.words ≡ task_stack_size / word_size

length-copy_words :
    (memory : List ℕ) (i : ℕ) (xs : List ℕ) → length (copy_words memory i xs) ≡ length memory
unfolding copy_words
length-copy_words memory i [] = refl
length-copy_words memory i (x ∷ xs) =
    length-copy_words (set memory i x) (i + 1) xs ∙ length-set memory i x

copy_words_below :
    (memory : List ℕ) (i : ℕ) (xs : List ℕ) (j : ℕ)
    → j < i
    → get_or (copy_words memory i xs) j 0 ≡ get_or memory j 0
unfolding copy_words
copy_words_below memory i [] j h = refl
copy_words_below memory i (x ∷ xs) j h =
    copy_words_below (set memory i x) (i + 1) xs j (omega arith)
    ∙ get_or-set_ne memory i j x 0 (omega arith)

copy_words_inside :
    (memory : List ℕ) (i : ℕ) (xs : List ℕ) (k : ℕ)
    → i + length xs ≤ length memory
    → k < length xs
    → get_or (copy_words memory i xs) (i + k) 0 ≡ get_or xs k 0
unfolding copy_words
copy_words_inside memory i [] k fits h = elim h [ ]
copy_words_inside memory i (x ∷ xs) zero fits h =
    ap (λ j. get_or (copy_words (set memory i x) (i + 1) xs) j 0) (omega arith)
    ∙ (copy_words_below (set memory i x) (i + 1) xs i (omega arith)
        ∙ get_or-set_self memory i x 0 (omega arith))
copy_words_inside memory i (x ∷ xs) (suc k) fits h =
    ap (λ j. get_or (copy_words (set memory i x) (i + 1) xs) j 0) (omega arith)
    ∙ copy_words_inside (set memory i x) (i + 1) xs k (omega (arith, length-set memory i x))
        (omega arith)

-- The frame lies in the last seven words of the stack, below a 16-byte boundary: the stack pointer
-- is a word of the stack, the seven words from it on are the registers in the order in which
-- `switch` pops them and the trampoline, and no word below it changes.
pub initialize_frame_lem :
    (trampoline : ℕ) (s : TaskStack) (c : TaskContext)
    → IsPlaced s
    → ((initialize_frame trampoline s c).0 + stack_frame_words * word_size
        ≡ s.address + task_stack_size)
      × ((k : ℕ)
          → k < stack_frame_words
          → get_or
              (initialize_frame trampoline s c).1.words
              (((initialize_frame trampoline s c).0 - s.address) / word_size + k)
              0
            ≡ get_or (frame_words trampoline c) k 0)
      × ((j : ℕ)
          → s.address + word_size * j < (initialize_frame trampoline s c).0
          → get_or (initialize_frame trampoline s c).1.words j 0 ≡ get_or s.words j 0)
      × IsPlaced (initialize_frame trampoline s c).1
unfolding initialize_frame
initialize_frame_lem trampoline s c v = (
  omega arith,
  λ k h. copy_words_inside s.words _ (frame_words trampoline c) k (omega arith) h,
  λ j h. copy_words_below s.words _ (frame_words trampoline c) j (omega arith),
  record {
    aligned = v.aligned;
    sized = length-copy_words s.words _ (frame_words trampoline c) ∙ v.sized;
  },
)

pub IsPlaced-new_stack : (address : ℕ) → address % 16 ≡ 0 → IsPlaced (new_stack address)
unfolding new_stack
IsPlaced-new_stack address h = record {
  aligned = h;
  sized = length-replicate {A = ℕ} (task_stack_size / word_size) 0;
}
