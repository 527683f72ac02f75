-- ===== src/Tests/Pages.antt =====
-- A reservation of two pages at host address 0x10000.
use switch_emu_pub.Base.{
  ℕ, ◌+◌, ◌<◌, ◌≤◌, ◌≡◌, ◌≢◌, ◌⊎◌, refl, sym, ap, subst, ◌*◌, Bool, true, false, List, [], ◌∷◌,
  Each, Option, none, some, arith,
}
use switch_emu_pub.Mem.Pages.{
  page_size, Permission, Memory, init, link_pages, link_loop, allocate_page, free_page,
  allocate_region, translate,
}
use switch_emu_pub.Mem.Pages.Free.{IsAccounted, pointers}
use switch_emu_pub.Mem.Pages.Setup.{init-IsAccounted, pages_from}
use switch_emu_pub.Mem.Pages.Allocate.{allocate_page_takes, free_page_gives, Elsewhere}
use switch_emu_pub.Mem.Pages.{protect_page, get_permission, get_page_num}
use switch_emu_pub.Mem.Pages.Protect.{protect_page_sets}
use switch_emu_pub.Mem.Pages.Blocked.{allocate_page_exhausted, free_page_vacant, Stuck}
use switch_emu_pub.Mem.Pages.Reuse.{free_page-allocate_page}
use switch_emu_pub.Mem.Pages.Regions.{allocate_region_maps, Mapped}
use switch_emu_pub.Mem.Pages.Translate.{translate_distinct, translate-apart_free}

abbrev pub blank : Memory
blank = record {
  entries = λ i. record { pointer = 0; perm = Permission.none_allowed };
  free_page_list = 0;
  bytes = λ a. 0;
  locked = false;
  mem_base = 0;
}

abbrev pub or_blank : Option (Bool × Memory) → Memory
or_blank none = blank
or_blank (some r) = r.1

abbrev pool : List ℕ
pool = 0x10000 ∷ 0x11000 ∷ []

init-IsAccounted_example :
    (m' : Memory) × (init 0x10000 (2 * page_size) blank ≡ some (true, m'))
    × IsAccounted 0x10000 2 (pages_from 0x10000 0 2) m'
init-IsAccounted_example =
    init-IsAccounted 0x10000 2 blank (omega arith) (omega arith) (omega arith) (omega arith)
      (λ i. refl) refl

abbrev pub start : Memory
start = or_blank (init 0x10000 (2 * page_size) blank)

start-IsAccounted : IsAccounted 0x10000 2 pool start
start-IsAccounted =
    let made =
      init-IsAccounted 0x10000 2 blank (omega arith) (omega arith) (omega arith) (omega arith)
        (λ i. refl) refl in
    subst (IsAccounted 0x10000 2 pool) (sym (ap or_blank made.1)) made.2

start_vacant : pointers start 5 ≡ 0
unfolding init link_pages link_loop
start_vacant = refl

allocate_page_takes_example :
    (m' : Memory) × (allocate_page 5 start ≡ some (true, m'))
    × IsAccounted 0x10000 2 (0x11000 ∷ []) m'
    × (pointers m' 5 ≡ 0x10000)
    × Elsewhere 5 start m'
    × ((offset : ℕ) → offset < page_size → m'.bytes (0x10000 + offset) ≡ 0)
    × ((a : ℕ) → (a < 0x10000) ⊎ (0x10000 + page_size ≤ a) → m'.bytes a ≡ start.bytes a)
    × ((m'.entries 5).perm ≡ (start.entries 5).perm)
    × (m'.mem_base ≡ start.mem_base)
allocate_page_takes_example =
    allocate_page_takes 0x10000 2 5 start (omega arith) 0x10000 (0x11000 ∷ []) start_vacant
      start-IsAccounted

-- Page 5 is mapped.
abbrev pub mapped : Memory
mapped = or_blank (allocate_page 5 start)

pub mapped-IsAccounted : IsAccounted 0x10000 2 (0x11000 ∷ []) mapped
mapped-IsAccounted =
    let taken =
      allocate_page_takes 0x10000 2 5 start (omega arith) 0x10000 (0x11000 ∷ []) start_vacant
        start-IsAccounted in
    subst (IsAccounted 0x10000 2 (0x11000 ∷ [])) (sym (ap or_blank taken.1)) taken.2

mapped_pointer : pointers mapped 5 ≡ 0x10000
unfolding init link_pages link_loop allocate_page
mapped_pointer = refl

mapped_run : translate 0x5123 mapped ≡ some 0x10123
unfolding init link_pages link_loop allocate_page translate
mapped_run = refl

free_page_gives_example :
    (m' : Memory) × (free_page 5 mapped ≡ some m')
    × IsAccounted 0x10000 2 (pointers mapped 5 ∷ 0x11000 ∷ []) m'
    × (pointers m' 5 ≡ 0)
    × Elsewhere 5 mapped m'
free_page_gives_example =
    free_page_gives 0x10000 2 5 mapped (omega arith) (0x11000 ∷ [])
      (λ z. omega (arith, mapped_pointer, z)) mapped-IsAccounted

protect_page_sets_example :
    IsAccounted 0x10000 2 (0x11000 ∷ []) (protect_page 5 Permission.read_only mapped)
    × ((addr : ℕ)
        → get_page_num addr ≡ 5
        → get_permission addr (protect_page 5 Permission.read_only mapped) ≡ Permission.read_only)
    × ((addr : ℕ)
        → get_page_num addr ≢ 5
        → get_permission addr (protect_page 5 Permission.read_only mapped)
          ≡ get_permission addr mapped)
    × ((addr : ℕ)
        → translate addr (protect_page 5 Permission.read_only mapped) ≡ translate addr mapped)
protect_page_sets_example =
    protect_page_sets 5 Permission.read_only mapped 0x10000 2 (0x11000 ∷ []) (omega arith)
      (λ z. omega (arith, mapped_pointer, z)) mapped-IsAccounted

allocate_page_exhausted_example :
    (m' : Memory) × (allocate_page 7 blank ≡ some (false, m')) × Stuck m'
allocate_page_exhausted_example = allocate_page_exhausted 7 blank (omega arith) refl refl refl

free_page_vacant_example : (m' : Memory) × (free_page 7 blank ≡ some m') × Stuck m'
free_page_vacant_example = free_page_vacant 7 blank (omega arith) refl refl

allocate_region_maps_example :
    (m' : Memory) × (allocate_region 5 2 start ≡ some (true, m'))
    × Mapped 0x10000 2 5 2 pool start m'
allocate_region_maps_example =
    allocate_region_maps 0x10000 2 2 5 pool start (omega arith) (omega arith) start-IsAccounted

next_run : translate 0x5124 mapped ≡ some 0x10124
unfolding init link_pages link_loop allocate_page translate
next_run = refl

translate_distinct_example : ◌≢◌ {A = ℕ} 0x10123 0x10124
translate_distinct_example =
    translate_distinct 0x10000 2 (0x11000 ∷ []) mapped mapped-IsAccounted 0x5123 0x5124 0x10123
      0x10124 mapped_run next_run (λ z. omega (arith, z))

translate-apart_free_example : Each (λ q. (0x10123 < q) ⊎ (q + page_size ≤ 0x10123)) (0x11000 ∷ [])
translate-apart_free_example =
    translate-apart_free 0x10000 2 (0x11000 ∷ []) mapped mapped-IsAccounted 0x5123 0x10123
      mapped_run

mapped_vacant : pointers mapped 6 ≡ 0
unfolding init link_pages link_loop allocate_page
mapped_vacant = refl

free_page-allocate_page_example :
    (m1 : Memory) × (m2 : Memory) × (free_page 5 mapped ≡ some m1)
    × (allocate_page 6 m1 ≡ some (true, m2))
    × IsAccounted 0x10000 2 (0x11000 ∷ []) m2
    × (pointers m2 5 ≡ 0)
    × (pointers m2 6 ≡ pointers mapped 5)
    × ((offset : ℕ) → offset < page_size → m2.bytes (pointers mapped 5 + offset) ≡ 0)
free_page-allocate_page_example =
    free_page-allocate_page 0x10000 2 (0x11000 ∷ []) mapped mapped-IsAccounted 5 6 (omega arith)
      (omega arith) (λ z. omega (arith, z)) (λ z. omega (arith, mapped_pointer, z)) mapped_vacant
