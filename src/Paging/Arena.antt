-- ===== src/Paging/Arena.antt =====
-- The arena of page tables: which frames it hands out.
use agnost_os.Base.{
  ℕ, ◌+◌, ◌%◌, ◌≤◌, ◌<◌, ◌≡◌, ◌≢◌, refl, ◌⊎◌, inl, inr, Option, none, some, ◌∷◌, arith, true, ◌==◌,
  ◌∙◌, ==→eq, length, get_or, set, Bool-cases, length-set, get_or-set, length-replicate,
}
use agnost_os.Memory.{page_size}
use agnost_os.Frame.{OwnedFrame, frame_address, page_table}
use agnost_os.Paging.{
  PageTableArena, new_arena, reserve_frame, storage_address, max_page_table_frames,
}

-- The frames handed out so far are the tables of the storage behind the root's, in order.
pub record IsArena (storage : ℕ) (a : PageTableArena) : Type 0 where
  pub room : a.count ≤ max_page_table_frames
  pub frames_length : length a.frames ≡ max_page_table_frames
  pub addresses_length : length a.addresses ≡ max_page_table_frames
  pub handed_out : (i : ℕ) → i < a.count → get_or a.addresses i 0 ≡ storage_address storage (i + 1)

pub new_arena-IsArena : (storage : ℕ) → IsArena storage new_arena
unfolding new_arena
new_arena-IsArena storage = record {
  room = omega arith;
  frames_length = length-replicate {A = Option OwnedFrame} max_page_table_frames none;
  addresses_length = length-replicate {A = ℕ} max_page_table_frames 0;
  handed_out = λ i h. absurd (omega arith);
}

-- With the storage aligned, the arena hands out a table that it has not handed out
-- before, cleared, and not the root's; and it refuses, unchanged, exactly when all 512 are used.
pub reserve_frame_lem :
    (storage : ℕ) (a : PageTableArena)
    → IsArena storage a
    → storage % page_size ≡ 0
    → ((a.count ≡ max_page_table_frames) × (reserve_frame storage a ≡ (none, a)))
      ⊎ ((a.count < max_page_table_frames)
          × (address : ℕ) × (a' : PageTableArena) × (reserve_frame storage a ≡ (some address, a'))
          × IsArena storage a'
          × (a'.count ≡ a.count + 1)
          × (a'.cleared ≡ address ∷ a.cleared)
          × (address ≢ storage)
          × ((i : ℕ) → i < a.count → get_or a.addresses i 0 ≢ address))
unfolding reserve_frame frame_address
reserve_frame_lem storage a v aligned = elim (Bool-cases (a.count == max_page_table_frames)) [
  | inl full ↦ inl (==→eq a.count max_page_table_frames full, rw full refl)
  | inr free ↦
      let address = storage_address storage (a.count + 1) in
      let whole : (address % page_size == 0) ≡ true = ground arith in
      let owned : OwnedFrame = record {
        frame = record { address = address };
        owner = page_table;
      } in
      inr (
        ground (arith, v.room),
        address,
        record {
          frames = set a.frames a.count (some owned);
          addresses = set a.addresses a.count address;
          count = a.count + 1;
          cleared = address ∷ a.cleared;
        },
        ground arith,
        record {
          room = ground (arith, v.room);
          frames_length = length-set a.frames a.count (some owned) ∙ v.frames_length;
          addresses_length = length-set a.addresses a.count address ∙ v.addresses_length;
          handed_out = λ i h. ground (
            arith,
            get_or-set a.addresses a.count i address 0,
            v.handed_out i,
            v.addresses_length,
            v.room,
          );
        },
        refl,
        refl,
        λ e. omega arith,
        λ i h e. omega (arith, v.handed_out i h),
      )
]
