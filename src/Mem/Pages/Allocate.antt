-- ===== src/Mem/Pages/Allocate.antt =====
-- What allocatePage and freePage of libcpu/src/mem.cpp do on each branch.
use switch_emu_pub.Base.{
  ℕ, ◌+◌, ◌<◌, ◌≤◌, ◌⊎◌, ◌≡◌, ◌≢◌, inl, inr, refl, sym, ◌∙◌, ap, subst, ◌==◌, ==_iff, test_false,
  leb, Bool-cases, true, false, List, ◌∷◌, some, arith,
}
use switch_emu_pub.Mem.Bytes.{load_pointer, store_pointer, clear}
use switch_emu_pub.Mem.Pages.{
  page_size, num_pages, set_at, Permission, PageTableEntry, Memory, allocate_page, free_page,
}
use switch_emu_pub.Mem.Pages.Free.{Chain, Accounted, IsAccounted, pointers}
use switch_emu_pub.Mem.Pages.Moves.{Accounted-take, Accounted-give}

-- Every entry but that of `page_num` is as it was.
abbrev pub Elsewhere : ℕ → Memory → Memory → Type 0
Elsewhere page_num m m' = (i : ℕ) → page_num ≢ i → m'.entries i ≡ m.entries i

set_at-pointer :
    (entries : ℕ → PageTableEntry) (k : ℕ) (e : PageTableEntry)
    → (λ i. (set_at entries k e i).pointer) ≡ set_at (λ i. (entries i).pointer) k e.pointer
set_at-pointer entries k e = λ x i. pointwise i x
  where
    pointwise :
        (i : ℕ) → (set_at entries k e i).pointer ≡ set_at (λ j. (entries j).pointer) k e.pointer i
    pointwise i = elim (Bool-cases (k == i)) [ inl t ↦ rw t refl | inr t ↦ rw t refl ]

set_at-elsewhere :
    (entries : ℕ → PageTableEntry) (k : ℕ) (e : PageTableEntry) (i : ℕ)
    → k ≢ i
    → set_at entries k e i ≡ entries i
set_at-elsewhere entries k e i h = rw (test_false k i h) refl

clear-zero : (bytes : ℕ → ℕ) (p n offset : ℕ) → offset < n → clear bytes p n (p + offset) ≡ 0
unfolding clear
clear-zero bytes p n offset h = ground arith

clear-outside : (bytes : ℕ → ℕ) (p n a : ℕ) → (a < p) ⊎ (p + n ≤ a) → clear bytes p n a ≡ bytes a
unfolding clear
clear-outside bytes p n a h = ground arith

-- The memory after the first free page went to an entry, and after the page of an entry was freed.
abbrev taken : ℕ → Memory → Memory
taken page_num m = record m {
  entries = set_at m.entries page_num (record (m.entries page_num) { pointer = m.free_page_list });
  free_page_list = load_pointer m.bytes m.free_page_list;
  bytes = clear m.bytes m.free_page_list page_size;
}

abbrev given : ℕ → Memory → Memory
given page_num m = record m {
  entries = set_at m.entries page_num (record { pointer = 0; perm = Permission.none_allowed });
  bytes = store_pointer m.bytes (pointers m page_num) m.free_page_list;
  free_page_list = pointers m page_num;
}

set_at-here : (entries : ℕ → PageTableEntry) (k : ℕ) (e : PageTableEntry) → set_at entries k e k ≡ e
set_at-here entries k e = rw ((==_iff k k).1 refl) refl

module _ (base n : ℕ) (page_num : ℕ) (m : Memory) (in_range : page_num < num_pages) where
  within : leb num_pages page_num ≡ false
  within = ground arith

  taken_run :
      m.locked ≡ false
      → pointers m page_num ≡ 0
      → m.free_page_list ≢ 0
      → allocate_page page_num m ≡ some (true, taken page_num m)
  unfolding allocate_page
  taken_run unlocked vacant more =
      rw (within, unlocked, vacant, test_false m.free_page_list 0 more) refl

  -- From an accounted state with a free page q in front, the allocation of a page number in range
  -- that is not mapped returns true, maps it to q with its permission kept, changes no other
  -- entry, no byte outside q and not the base of the reservation, leaves q filled with zeros, and
  -- leaves an accounted state without q among the free pages.
  pub allocate_page_takes :
      (q : ℕ) (free : List ℕ)
      → pointers m page_num ≡ 0
      → IsAccounted base n (q ∷ free) m
      → (m' : Memory) × (allocate_page page_num m ≡ some (true, m'))
        × IsAccounted base n free m'
        × (pointers m' page_num ≡ q)
        × Elsewhere page_num m m'
        × ((offset : ℕ) → offset < page_size → m'.bytes (q + offset) ≡ 0)
        × ((a : ℕ) → (a < q) ⊎ (q + page_size ≤ a) → m'.bytes a ≡ m.bytes a)
        × ((m'.entries page_num).perm ≡ (m.entries page_num).perm)
        × (m'.mem_base ≡ m.mem_base)
  unfolding Chain
  allocate_page_takes q free vacant acc = (
    taken page_num m,
    taken_run acc.unlocked vacant (λ z. chain.1 (sym chain.0 ∙ z)),
    record {
      pages =
          subst
            (λ (f : ℕ → ℕ).
              Accounted base n f (clear m.bytes m.free_page_list page_size)
                (load_pointer m.bytes m.free_page_list) free)
            (sym (set_at-pointer m.entries page_num _))
            (subst
              (λ (h : ℕ).
                Accounted base n (set_at (pointers m) page_num h) (clear m.bytes h page_size)
                  (load_pointer m.bytes h) free)
              (sym chain.0)
              (Accounted-take base n (pointers m) m.bytes m.free_page_list q free page_num vacant
                acc.pages));
      unlocked = acc.unlocked;
    },
    ap (λ (e : PageTableEntry). e.pointer) (set_at-here m.entries page_num _) ∙ chain.0,
    set_at-elsewhere m.entries page_num _,
    λ offset h. rw chain.0 (clear-zero m.bytes q page_size offset h),
    λ a h. rw chain.0 (clear-outside m.bytes q page_size a h),
    ap (λ (e : PageTableEntry). e.perm) (set_at-here m.entries page_num _),
    refl,
  )
    where
      chain : Chain m.bytes m.free_page_list (q ∷ free)
      chain = acc.pages.chain

  given_run :
      m.locked ≡ false → pointers m page_num ≢ 0 → free_page page_num m ≡ some (given page_num m)
  unfolding free_page
  given_run unlocked used = rw (within, unlocked, test_false (pointers m page_num) 0 used) refl

  -- From an accounted state, freeing a mapped page number in range returns, unmaps it, changes no
  -- other entry, and leaves an accounted state with its page in front of the free pages.
  pub free_page_gives :
      (free : List ℕ)
      → pointers m page_num ≢ 0
      → IsAccounted base n free m
      → (m' : Memory) × (free_page page_num m ≡ some m')
        × IsAccounted base n (pointers m page_num ∷ free) m'
        × (pointers m' page_num ≡ 0)
        × Elsewhere page_num m m'
  free_page_gives free used acc = (
    given page_num m,
    given_run acc.unlocked used,
    record {
      pages =
          subst
            (λ (f : ℕ → ℕ).
              Accounted base n f (store_pointer m.bytes (pointers m page_num) m.free_page_list)
                (pointers m page_num) (pointers m page_num ∷ free))
            (sym (set_at-pointer m.entries page_num _))
            (Accounted-give base n (pointers m) m.bytes m.free_page_list page_num free used
              acc.pages);
      unlocked = acc.unlocked;
    },
    ap (λ (e : PageTableEntry). e.pointer) (set_at-here m.entries page_num _),
    set_at-elsewhere m.entries page_num _,
  )
