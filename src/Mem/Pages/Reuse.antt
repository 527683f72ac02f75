-- ===== src/Mem/Pages/Reuse.antt =====
-- freePage and then allocatePage of libcpu/src/mem.cpp: the page is used again, without its bytes.
use switch_emu_pub.Base.{ℕ, ◌+◌, ◌<◌, ◌≡◌, ◌≢◌, sym, ◌∙◌, ap, true, List, some}
use switch_emu_pub.Mem.Pages.{
  page_size, num_pages, PageTableEntry, Memory, allocate_page, free_page,
}
use switch_emu_pub.Mem.Pages.Free.{IsAccounted, pointers}
use switch_emu_pub.Mem.Pages.Allocate.{allocate_page_takes, free_page_gives}

module _ (base n : ℕ) (free : List ℕ) (m : Memory) (acc : IsAccounted base n free m) where
  -- From an accounted state, freeing a mapped page number k in range and then allocating another
  -- page number j in range that is not mapped both return, map j to the page that k had, filled
  -- with zeros, unmap k, and leave an accounted state with the same free pages.
  pub free_page-allocate_page :
      (k j : ℕ)
      → k < num_pages
      → j < num_pages
      → k ≢ j
      → pointers m k ≢ 0
      → pointers m j ≡ 0
      → (m1 : Memory) × (m2 : Memory) × (free_page k m ≡ some m1)
        × (allocate_page j m1 ≡ some (true, m2))
        × IsAccounted base n free m2
        × (pointers m2 k ≡ 0)
        × (pointers m2 j ≡ pointers m k)
        × ((offset : ℕ) → offset < page_size → m2.bytes (pointers m k + offset) ≡ 0)
  free_page-allocate_page k j hk hj apart used vacant =
      let (m1, freed, acc1, gone, others1) = free_page_gives base n k m hk free used acc in
      let still = ap (λ (e : PageTableEntry). e.pointer) (others1 j apart) ∙ vacant in
      let (m2, taken, acc2, here, others2, zeros, outside_page, perm, base_kept) =
        allocate_page_takes base n j m1 hj (pointers m k) free still acc1 in
      (
        m1,
        m2,
        freed,
        taken,
        acc2,
        ap (λ (e : PageTableEntry). e.pointer) (others2 k (λ e. apart (sym e))) ∙ gone,
        here,
        zeros,
      )
