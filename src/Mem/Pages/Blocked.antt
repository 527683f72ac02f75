-- ===== src/Mem/Pages/Blocked.antt =====
-- The branches of allocatePage and freePage of libcpu/src/mem.cpp that return without unlocking.
use switch_emu_pub.Base.{ℕ, ◌<◌, ◌≡◌, refl, leb, true, false, none, some, arith}
use switch_emu_pub.Mem.Pages.{num_pages, Memory, allocate_page, free_page}
use switch_emu_pub.Mem.Pages.Free.{pointers}

-- Each later call that is to take the lock waits for ever.
abbrev pub Stuck : Memory → Type 0
Stuck m =
    (other : ℕ) → other < num_pages → (allocate_page other m ≡ none) × (free_page other m ≡ none)

within : (page_num : ℕ) → page_num < num_pages → leb num_pages page_num ≡ false
within page_num h = ground arith

locked-Stuck : (m : Memory) → m.locked ≡ true → Stuck m
unfolding allocate_page free_page
locked-Stuck m locked other h = (rw (within other h, locked) refl, rw (within other h, locked) refl)

module _ (page_num : ℕ) (m : Memory) (in_range : page_num < num_pages) (unlocked : m.locked ≡ false)
    (vacant : pointers m page_num ≡ 0) where
  -- With the lock free, an allocation for a vacant page number in range while no page is free
  -- returns false, and then every allocation and every free of a page number in range waits for
  -- ever.
  pub allocate_page_exhausted :
      m.free_page_list ≡ 0
      → (m' : Memory) × (allocate_page page_num m ≡ some (false, m')) × Stuck m'
  unfolding allocate_page
  allocate_page_exhausted no_more = (
    record m { locked = true },
    rw (within page_num in_range, unlocked, vacant, no_more) refl,
    locked-Stuck _ refl,
  )

  -- With the lock free, freeing a vacant page number in range returns, and then every allocation
  -- and every free of a page number in range waits for ever.
  pub free_page_vacant : (m' : Memory) × (free_page page_num m ≡ some m') × Stuck m'
  unfolding free_page
  free_page_vacant = (
    record m { locked = true },
    rw (within page_num in_range, unlocked, vacant) refl,
    locked-Stuck _ refl,
  )
