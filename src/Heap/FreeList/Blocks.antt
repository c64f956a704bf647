-- ===== src/Heap/FreeList/Blocks.antt =====
-- src/allocator/mod.rs: blocks of the heap that are handed out, and that they share no address.
use agnost_os.Base.{
  ℕ, zero, suc, ◌+◌, ◌%◌, ◌≤◌, ◌≡◌, ◌⊎◌, inl, inr, ◌||◌, some, List, [], ◌∷◌, arith, All, get_elem?,
  Result, ok, ltb, Bool-cases, tests, max,
}
use mathlib.Core.Path.{subst}
use agnost_os.Memory.Pieces.{between}
use agnost_os.Heap.FreeList.{FreeChunk, Layout, block_size, block_align}
use agnost_os.Heap.FreeList.Chunks.{covers, IsBlockFree, IsBlockTaken}

-- A block that was handed out and not returned yet.
pub record Block : Type 0 where
  pub start : ℕ
  pub layout : Layout

abbrev pub block_end : Block → ℕ
block_end b = b.start + block_size b.layout

abbrev pub remove : List Block → ℕ → List Block
remove [] i = []
remove (b ∷ bs) zero = bs
remove (b ∷ bs) (suc i) = b ∷ remove bs i

-- Two blocks share no address.
abbrev pub Separate : Block → Block → Type 0
Separate a b = (block_end a ≤ b.start) ⊎ (block_end b ≤ a.start)

abbrev pub Disjoint : List Block → Type 0
Disjoint [] = Unit
Disjoint (b ∷ bs) = All (Separate b) bs × Disjoint bs

-- A live block of the region from `low` to `high`.
pub record IsBlock (low high : ℕ) (cs : List FreeChunk) (b : Block) : Type 0 where
  pub aligned : b.start % block_align b.layout ≡ 0
  pub above : low ≤ b.start
  pub below : block_end b ≤ high
  pub taken : IsBlockTaken cs b.start (block_size b.layout)

pub some_inj {ℓ} : {A : Type ℓ} {a b : A} → some a ≡ some b → a ≡ b
some_inj e = cc

pub ok_inj {ℓ} : {E V : Type ℓ} {a b : V} → ◌≡◌ {A = Result E V} (ok a) (ok b) → a ≡ b
ok_inj e = cc

pub All-map {ℓ} :
    {A : Type ℓ} (P Q : A → Type 0) (f : (a : A) → P a → Q a) (xs : List A) → All P xs → All Q xs
All-map P Q f [] h = tt
All-map P Q f (x ∷ xs) (p, h) = (f x p, All-map P Q f xs h)

pub All-remove : (P : Block → Type 0) (bs : List Block) (i : ℕ) → All P bs → All P (remove bs i)
All-remove P [] i h = tt
All-remove P (b ∷ bs) zero (p, h) = h
All-remove P (b ∷ bs) (suc i) (p, h) = (p, All-remove P bs i h)

pub All-get {ℓ} :
    {A : Type ℓ} (P : A → Type 0) (xs : List A) (i : ℕ) (x : A)
    → All P xs
    → get_elem? xs i ≡ some x
    → P x
All-get P [] i x h e = absurd (cc)
All-get P (y ∷ ys) zero x (p, h) e = subst P (some_inj e) p
All-get P (y ∷ ys) (suc i) x (p, h) e = All-get P ys i x h e

pub Separate-comm : (a b : Block) → Separate a b → Separate b a
Separate-comm a b (inl h) = inr h
Separate-comm a b (inr h) = inl h

pub Disjoint-remove : (bs : List Block) (i : ℕ) → Disjoint bs → Disjoint (remove bs i)
Disjoint-remove [] i h = tt
Disjoint-remove (b ∷ bs) zero (p, h) = h
Disjoint-remove (b ∷ bs) (suc i) (p, h) = (All-remove (Separate b) bs i p, Disjoint-remove bs i h)

-- The block at an index shares no address with the others.
pub Disjoint-get :
    (bs : List Block) (i : ℕ) (b : Block)
    → Disjoint bs
    → get_elem? bs i ≡ some b
    → All (Separate b) (remove bs i)
Disjoint-get [] i b h e = tt
Disjoint-get (c ∷ bs) zero b (p, h) e = subst (λ d. All (Separate d) bs) (some_inj e) p
Disjoint-get (c ∷ bs) (suc i) b (p, h) e =
    (Separate-comm c b (All-get (Separate c) bs i b p e), Disjoint-get bs i b h e)

-- A free block and a taken one share no address.
pub Separate-of_free :
    (cs : List FreeChunk) (a b : Block)
    → IsBlockFree cs a.start (block_size a.layout)
    → IsBlockTaken cs b.start (block_size b.layout)
    → Separate a b
Separate-of_free cs a b free taken = elim (Bool-cases (ltb b.start (block_end a))) [
  | inr after ↦ inl (omega tests)
  | inl before ↦ elim (Bool-cases (ltb a.start (block_end b))) [
    | inr after ↦ inr (omega tests)
    | inl overlap ↦
        let x = max a.start b.start in
        let in_a = free x (omega tests) (omega tests) in
        let out_b = taken x (omega tests) (omega tests) in cc
  ]
]

-- Blocks that share nothing with a returned one are still taken.
pub still_blocks :
    (low high : ℕ) (cs cs' : List FreeChunk) (b : Block)
    → ((x : ℕ) → covers cs' x ≡ (between b.start (block_end b) x || covers cs x))
    → (bs : List Block) → All (IsBlock low high cs) bs
    → All (Separate b) bs
    → All (IsBlock low high cs') bs
still_blocks low high cs cs' b free [] hs ss = tt
still_blocks low high cs cs' b free (c ∷ bs) (h, hs) (s, ss) = (
  record {
    aligned = h.aligned;
    above = h.above;
    below = h.below;
    taken = λ x from to. ground (arith, h.taken x from to, free x, s);
  },
  still_blocks low high cs cs' b free bs hs ss,
)
