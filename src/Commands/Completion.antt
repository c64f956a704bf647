-- ===== src/Commands/Completion.antt =====
-- `complete_command`, and its table against the commands that `parse` knows.
use agnost_os.Base.{
  ℕ, ◌≡◌, ◌≢◌, ◌↔◌, refl, sym, ap, true, false, ◌||◌, some, List, [], ◌∷◌, ◌++◌, arith, All,
  Bool-cases, inl, inr,
}
use mathlib.Core.Path.{subst}
use agnost_os.Commands.{
  Command, help, about, history, echo, meminfo, taskinfo, font, clear, shutdown, empty, unknown,
  uptime, classify, codes, command_names, starts_with, matching, only, any_whitespace, is_empty,
  complete_command,
}

-- A name of the table is the only one that begins with the prefix: the names before it and those
-- behind it do not.
pub record IsOnly (prefix name : List ℕ) (names : List (List ℕ)) : Type 0 where
  pub before : List (List ℕ)
  pub behind : List (List ℕ)
  pub table : names ≡ before ++ name ∷ behind
  pub fits : starts_with name prefix ≡ true
  pub none_before : All (λ n. starts_with n prefix ≡ false) before
  pub none_behind : All (λ n. starts_with n prefix ≡ false) behind

matching-nil :
    (prefix : List ℕ) (names : List (List ℕ))
    → matching prefix names ≡ []
    → All (λ n. starts_with n prefix ≡ false) names
unfolding matching
matching-nil prefix [] h = tt
matching-nil prefix (n ∷ ns) h = elim (Bool-cases (starts_with n prefix)) [
  | inl fits ↦ let h' = rw (matching, fits) at h in absurd (cc)
  | inr other ↦ let h' = rw (matching, other) at h in (other, matching-nil prefix ns h')
]

nil-matching :
    (prefix : List ℕ) (names : List (List ℕ))
    → All (λ n. starts_with n prefix ≡ false) names
    → matching prefix names ≡ []
unfolding matching
nil-matching prefix [] h = refl
nil-matching prefix (n ∷ ns) (other, h) = rw (matching, other) (nil-matching prefix ns h)

only-inv :
    (n : List ℕ) (ms : List (List ℕ)) (name : List ℕ)
    → only (n ∷ ms) ≡ some name
    → (ms ≡ []) × (n ≡ name)
only-inv n [] name h = (refl, cc)
only-inv n (m ∷ ms) name h = absurd (cc)

only-IsOnly :
    (prefix : List ℕ) (names : List (List ℕ)) (name : List ℕ)
    → only (matching prefix names) ≡ some name
    → IsOnly prefix name names
unfolding matching
only-IsOnly prefix [] name h = absurd (cc)
only-IsOnly prefix (n ∷ ns) name h = elim (Bool-cases (starts_with n prefix)) [
  | inr other ↦
      let rest = only-IsOnly prefix ns name (rw (matching, other) at h) in
      record {
        before = n ∷ rest.before;
        behind = rest.behind;
        table = ap (λ l. n ∷ l) rest.table;
        fits = rest.fits;
        none_before = (other, rest.none_before);
        none_behind = rest.none_behind;
      }
  | inl fits ↦
      let (alone, same) = only-inv n (matching prefix ns) name (rw (matching, fits) at h) in
      record {
        before = [];
        behind = ns;
        table = rw same refl;
        fits = rw (← same) fits;
        none_before = tt;
        none_behind = matching-nil prefix ns alone;
      }
]

IsOnly-only :
    (prefix name : List ℕ) (before behind : List (List ℕ))
    → starts_with name prefix ≡ true
    → All (λ n. starts_with n prefix ≡ false) before
    → All (λ n. starts_with n prefix ≡ false) behind
    → only (matching prefix (before ++ name ∷ behind)) ≡ some name
unfolding matching
IsOnly-only prefix name [] behind fits hs ks =
    rw (matching, fits, nil-matching prefix behind ks) refl
IsOnly-only prefix name (n ∷ before) behind fits (other, hs) ks =
    rw (matching, other) (IsOnly-only prefix name before behind fits hs ks)

-- A prefix is completed to a name exactly when it is not empty, has no white space, and the name is
-- the only one of the table that begins with it.
pub complete_command_lem :
    (prefix name : List ℕ)
    → (complete_command prefix ≡ some name) ↔ (
        (is_empty prefix ≡ false)
        × (any_whitespace prefix ≡ false)
        × IsOnly prefix name command_names)
unfolding complete_command
complete_command_lem prefix name = (
  λ h. elim (Bool-cases (is_empty prefix || any_whitespace prefix)) [
    | inl refused ↦ let h' = rw (complete_command, refused) at h in absurd (cc)
    | inr word ↦ (
      ground arith,
      ground arith,
      only-IsOnly prefix command_names name (rw (complete_command, word) at h),
    )
  ],
  λ h.
      rw (complete_command, h.0, h.1)
        (subst (λ ns. only (matching prefix ns) ≡ some name) (sym h.2.table)
          (IsOnly-only prefix name h.2.before h.2.behind h.2.fits h.2.none_before h.2.none_behind)),
)

-- The verb of a command.
unfoldable pub name_of : Command → List ℕ
name_of help = codes "help"
name_of about = codes "about"
name_of history = codes "history"
name_of echo = codes "echo"
name_of meminfo = codes "meminfo"
name_of taskinfo = codes "taskinfo"
name_of font = codes "font"
name_of clear = codes "clear"
name_of shutdown = codes "shutdown"
name_of uptime = codes "uptime"
name_of empty = []
name_of unknown = []

-- The table and the parser agree: each command with a name is parsed from its name, and the name
-- completes to itself.
pub complete_command-name_of :
    (c : Command)
    → c ≢ empty
    → c ≢ unknown
    → (classify (name_of c) ≡ c) × (complete_command (name_of c) ≡ some (name_of c))
unfolding name_of classify complete_command
complete_command-name_of help e u = (refl, refl)
complete_command-name_of about e u = (refl, refl)
complete_command-name_of history e u = (refl, refl)
complete_command-name_of echo e u = (refl, refl)
complete_command-name_of meminfo e u = (refl, refl)
complete_command-name_of taskinfo e u = (refl, refl)
complete_command-name_of font e u = (refl, refl)
complete_command-name_of clear e u = (refl, refl)
complete_command-name_of shutdown e u = (refl, refl)
complete_command-name_of uptime e u = (refl, refl)
complete_command-name_of empty e u = absurd (e refl)
complete_command-name_of unknown e u = absurd (u refl)
