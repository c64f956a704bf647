-- ===== src/Frame/Table.antt =====
-- The index operations of the table of free ranges, at an index that splits the table.
use agnost_os.Base.{
  ℕ, suc, ◌+◌, ◌-◌, ◌≡◌, refl, ap, Bool, true, ◌&&◌, List, [], ◌∷◌, ◌++◌, arith, ltb, ◌==◌,
  if◌then◌else◌, Result, ok, err, length, length-append, get_or, set, saturating,
}
use agnost_os.Frame.{
  FreeRange, FrameError, remove_range, insert_range, no_range, free_at, free_end, page_size,
  max_free_ranges, invalid_address, free_range_storage_full,
}

module _ {ℓ} {A : Type ℓ} where
  pub get_or-append :
      (xs : List A) (y : A) (ys : List A) (d : A) → get_or (xs ++ y ∷ ys) (length xs) d ≡ y
  get_or-append [] y ys d = refl
  get_or-append (x ∷ xs) y ys d = get_or-append xs y ys d

  get_or-append_suc :
      (xs : List A) (y : A) (ys : List A) (d : A)
      → get_or (xs ++ y ∷ ys) (suc (length xs)) d ≡ get_or ys 0 d
  get_or-append_suc [] y ys d = refl
  get_or-append_suc (x ∷ xs) y ys d = get_or-append_suc xs y ys d

  pub set-append :
      (xs : List A) (y : A) (ys : List A) (v : A) → set (xs ++ y ∷ ys) (length xs) v ≡ xs ++ v ∷ ys
  set-append [] y ys v = refl
  set-append (x ∷ xs) y ys v = ap (λ zs. x ∷ zs) (set-append xs y ys v)

  set-append_suc :
      (xs : List A) (y : A) (ys : List A) (v : A)
      → set (xs ++ y ∷ ys) (suc (length xs)) v ≡ xs ++ y ∷ set ys 0 v
  set-append_suc [] y ys v = refl
  set-append_suc (x ∷ xs) y ys v = ap (λ zs. x ∷ zs) (set-append_suc xs y ys v)

pub remove_range-append :
    (xs : List FreeRange) (y : FreeRange) (ys : List FreeRange)
    → remove_range (xs ++ y ∷ ys) (length xs) ≡ xs ++ ys
unfolding remove_range
remove_range-append [] y ys = refl
remove_range-append (x ∷ xs) y ys = ap (λ zs. x ∷ zs) (remove_range-append xs y ys)

remove_range-append_suc :
    (xs : List FreeRange) (y : FreeRange) (ys : List FreeRange)
    → remove_range (xs ++ y ∷ ys) (suc (length xs)) ≡ xs ++ y ∷ remove_range ys 0
unfolding remove_range
remove_range-append_suc [] y ys = refl
remove_range-append_suc (x ∷ xs) y ys = ap (λ zs. x ∷ zs) (remove_range-append_suc xs y ys)

insert_range-append_suc :
    (xs : List FreeRange) (y : FreeRange) (ys : List FreeRange) (v : FreeRange)
    → insert_range (xs ++ y ∷ ys) (suc (length xs)) v ≡ xs ++ y ∷ v ∷ ys
unfolding insert_range
insert_range-append_suc [] y ys v = refl
insert_range-append_suc (x ∷ xs) y ys v = ap (λ zs. x ∷ zs) (insert_range-append_suc xs y ys v)

-- What `free_at` does to the ranges from the previous one on, `full` whether the table is.
abbrev pub free_after : FreeRange → List FreeRange → Bool → ℕ → Result FrameError (List FreeRange)
free_after p ys full address =
    let next = get_or ys 0 no_range in
    let has_next = ltb 0 (length ys) in
    if ltb address (free_end p)
    then err invalid_address
    else if has_next && ltb next.start (saturating (address + page_size))
    then err invalid_address
    else if free_end p == address
    then (let grown = record p { frames = p.frames + 1 } in
        if has_next && free_end grown == next.start
        then ok (record grown { frames = grown.frames + next.frames } ∷ remove_range ys 0)
        else ok (grown ∷ ys))
    else if has_next && saturating (address + page_size) == next.start
    then ok (p ∷ set ys 0 (record { start = address; frames = next.frames + 1 }))
    else if full
    then err free_range_storage_full
    else ok (p ∷ record { start = address; frames = 1 } ∷ ys)

abbrev pub prefix :
    List FreeRange → Result FrameError (List FreeRange) → Result FrameError (List FreeRange)
prefix xs (ok ys) = ok (xs ++ ys)
prefix xs (err e) = err e

prefix-choices :
    (xs : List FreeRange) (a b c d e f : Bool) (merged grown first new : List FreeRange)
    → (if a
        then err invalid_address
        else if b
        then err invalid_address
        else if c
        then (if d then ok (xs ++ merged) else ok (xs ++ grown))
        else if e
        then ok (xs ++ first)
        else if f
        then err free_range_storage_full
        else ok (xs ++ new))
      ≡ prefix xs (
          if a
          then err invalid_address
          else if b
          then err invalid_address
          else if c
          then (if d then ok merged else ok grown)
          else if e
          then ok first
          else if f
          then err free_range_storage_full
          else ok new)
prefix-choices xs a b c d e f merged grown first new = ground arith

-- At an index that has a previous range, the ranges before that one stay.
pub free_at-append :
    (xs : List FreeRange) (p : FreeRange) (ys : List FreeRange) (address : ℕ)
    → free_at (xs ++ p ∷ ys) (suc (length xs)) address
      ≡ prefix xs (free_after p ys (length (xs ++ p ∷ ys) == max_free_ranges) address)
unfolding free_at
free_at-append xs p ys address =
    let zs = xs ++ p ∷ ys in
    let i1 : suc (length xs) - 1 ≡ length xs = omega arith in
    let p1 : ltb 0 (suc (length xs)) ≡ true = ground arith in
    let l1 : ltb (suc (length xs)) (length zs) ≡ ltb 0 (length ys) =
      ground (arith, length-append xs (p ∷ ys)) in
    let grown : FreeRange = record p { frames = p.frames + 1 } in
    let merged : FreeRange = record p { frames = p.frames + 1 + (get_or ys 0 no_range).frames } in
    let first : FreeRange = record {
      start = address;
      frames = (get_or ys 0 no_range).frames + 1;
    } in
    rw
      (
        i1,
        p1,
        l1,
        get_or-append xs p ys no_range,
        get_or-append_suc xs p ys no_range,
        set-append xs p ys grown,
        set-append xs p ys merged,
        remove_range-append_suc xs merged ys,
        set-append_suc xs p ys first,
        insert_range-append_suc xs p ys (record { start = address; frames = 1 }),
      )
      (prefix-choices xs (ltb address (free_end p))
        (ltb 0 (length ys) && ltb (get_or ys 0 no_range).start (saturating (address + page_size)))
        (free_end p == address)
        (ltb 0 (length ys) && free_end grown == (get_or ys 0 no_range).start)
        (ltb 0 (length ys) && saturating (address + page_size) == (get_or ys 0 no_range).start)
        (length zs == max_free_ranges) (merged ∷ remove_range ys 0) (grown ∷ ys)
        (p ∷ set ys 0 first) (p ∷ record { start = address; frames = 1 } ∷ ys))

-- What `free_at` does at index 0, where no range comes before.
abbrev pub free_first : List FreeRange → Bool → ℕ → Result FrameError (List FreeRange)
free_first ys full address =
    let next = get_or ys 0 no_range in
    let has_next = ltb 0 (length ys) in
    if has_next && ltb next.start (saturating (address + page_size))
    then err invalid_address
    else if has_next && saturating (address + page_size) == next.start
    then ok (set ys 0 (record { start = address; frames = next.frames + 1 }))
    else if full
    then err free_range_storage_full
    else ok (record { start = address; frames = 1 } ∷ ys)

pub free_at-zero :
    (ys : List FreeRange) (address : ℕ)
    → free_at ys 0 address ≡ free_first ys (length ys == max_free_ranges) address
unfolding free_at insert_range
free_at-zero ys address = refl
