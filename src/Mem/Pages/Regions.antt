-- ===== src/Mem/Pages/Regions.antt =====
-- allocateRegion of libcpu/src/mem.cpp maps every page of a region while free pages last.
use switch_emu_pub.Base.{
  ℕ, zero, suc, ◌+◌, ◌<◌, ◌≤◌, ◌≡◌, ◌≢◌, inl, inr, refl, sym, ◌∙◌, ap, ◌==◌, ==_iff, leb,
  Bool-cases, true, false, List, [], ◌∷◌, length, some, arith, subst, leb→le,
}
use switch_emu_pub.Bits.{u64}
use switch_emu_pub.Mem.Pages.{num_pages, PageTableEntry, Memory, allocate_page, allocate_region}
use switch_emu_pub.Mem.Pages.Free.{IsAccounted, pointers, Chain}
use switch_emu_pub.Mem.Pages.Allocate.{allocate_page_takes}

-- A call that mapped the pages from `begin` on, `count` of them, and kept what was mapped.
pub record Mapped (base n begin count : ℕ) (free : List ℕ) (m m' : Memory) : Type 0 where
  pub left : List ℕ
  pub accounted : IsAccounted base n left m'
  pub enough : length free ≤ length left + count
  pub mapped : (i : ℕ) → begin ≤ i → i < begin + count → pointers m' i ≢ 0
  pub kept : (i : ℕ) → pointers m i ≢ 0 → pointers m' i ≡ pointers m i

present_run :
    (page_num : ℕ) (m : Memory)
    → page_num < num_pages
    → m.locked ≡ false
    → pointers m page_num ≢ 0
    → allocate_page page_num m ≡ some (true, m)
unfolding allocate_page
present_run page_num m h unlocked used = rw (within, unlocked, test) refl
  where
    within : leb num_pages page_num ≡ false
    within = ground arith

    test : ((m.entries page_num).pointer == 0) ≡ false
    test = ground arith

test_nonzero : (a : ℕ) → (a == 0) ≡ false → a ≢ 0
test_nonzero a h e = ground arith

u64-small : (a : ℕ) → a < num_pages → u64 (a + 1) ≡ a + 1
u64-small a h = omega arith

allocate_region-suc :
    (begin count : ℕ) (m m' : Memory)
    → begin < num_pages
    → allocate_page begin m ≡ some (true, m')
    → allocate_region begin (suc count) m ≡ allocate_region (begin + 1) count m'
unfolding allocate_region
allocate_region-suc begin count m m' h run =
    rw (allocate_region, run) (ap (λ (next : ℕ). allocate_region next count m') (u64-small begin h))

module _ (base n : ℕ) where
  one_page :
      (page_num : ℕ) (free : List ℕ) (m : Memory)
      → page_num < num_pages
      → 1 ≤ length free
      → IsAccounted base n free m
      → (m' : Memory) × (allocate_page page_num m ≡ some (true, m'))
        × Mapped base n page_num 1 free m m'
  unfolding Chain
  one_page page_num [] m h more acc = absurd (omega arith)
  one_page page_num (q ∷ free) m h more acc = elim (Bool-cases (pointers m page_num == 0)) [
    | inl t ↦
        let vacant = (==_iff _ _).0 t in
        let (m', run, acc', here, elsewhere, zeros, outside_page, perm, base_kept) =
          allocate_page_takes base n page_num m h q free vacant acc in
        (
          m',
          run,
          record {
            left = free;
            accounted = acc';
            enough = omega arith;
            mapped = λ i lo hi.
                subst (λ (t : ℕ). pointers m' t ≢ 0) (omega arith)
                  (λ z. acc.pages.chain.1 (sym here ∙ z));
            kept = λ i used.
                ap (λ (e : PageTableEntry). e.pointer)
                  (elsewhere i (λ same. used (ap (pointers m) (sym same) ∙ vacant)));
          },
        )
    | inr t ↦ (
      m,
      present_run page_num m h acc.unlocked (test_nonzero _ t),
      record {
        left = q ∷ free;
        accounted = acc;
        enough = omega arith;
        mapped = λ i lo hi. subst (λ (t : ℕ). pointers m t ≢ 0) (omega arith) (test_nonzero _ t);
        kept = λ i used. refl;
      },
    )
  ]

  -- From an accounted state with at least `count` free pages, the allocation of `count` page
  -- numbers in range returns true, leaves an accounted state with all of them mapped and at most
  -- `count` fewer free pages, and keeps the page of each page number that was mapped.
  pub allocate_region_maps :
      (count begin : ℕ) (free : List ℕ) (m : Memory)
      → begin + count ≤ num_pages
      → count ≤ length free
      → IsAccounted base n free m
      → (m' : Memory) × (allocate_region begin count m ≡ some (true, m'))
        × Mapped base n begin count free m m'
  unfolding allocate_region
  allocate_region_maps zero begin free m h more acc = (
    m,
    refl,
    record {
      left = free;
      accounted = acc;
      enough = omega arith;
      mapped = λ i lo hi. absurd (omega arith);
      kept = λ i used. refl;
    },
  )
  allocate_region_maps (suc count) begin free m h more acc =
      let (m1, run1, first) = one_page begin free m (omega arith) (omega arith) acc in
      let (m2, run2, rest) =
        allocate_region_maps count (begin + 1) first.left m1 (omega arith)
          (omega (arith, first.enough)) first.accounted in
      (
        m2,
        allocate_region-suc begin count m m1 (omega arith) run1 ∙ run2,
        record {
          left = rest.left;
          accounted = rest.accounted;
          enough = omega (arith, first.enough, rest.enough);
          mapped = λ i lo hi. elim (Bool-cases (leb (begin + 1) i)) [
            | inl t ↦ rest.mapped i (leb→le _ _ t) (omega arith)
            | inr t ↦
                let used = first.mapped i lo (ground arith) in
                λ z. used (sym (rest.kept i used) ∙ z)
          ];
          kept = λ i used.
              let before = first.kept i used in rest.kept i (λ z. used (sym before ∙ z)) ∙ before;
        },
      )
