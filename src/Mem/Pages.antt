-- ===== src/Mem/Pages.antt =====
-- libcpu/src/mem.cpp: pages are taken from and given back to a list of free pages, under a lock.
pub mod Free
pub mod Moves
pub mod Allocate
pub mod Protect
pub mod Setup
pub mod Blocked
pub mod Regions
pub mod Reuse
pub mod Translate
use Prim.Native.Nat.{bit_and}
use switch_emu_pub.Base.{
  ℕ, zero, suc, ◌+◌, ◌-◌, ◌*◌, ◌/◌, ◌%◌, ◌^◌, ◌==◌, leb, ltb, Bool, true, false, not, ◌||◌,
  if◌then◌else◌, Option, none, some,
}
use switch_emu_pub.Bits.{u64}
use switch_emu_pub.Mem.Bytes.{load_pointer, store_pointer, clear}

abbrev pub page_size : ℕ
page_size = 2 ^ 12

-- VMEM_SIZE >> PAGE_BITS.
abbrev pub num_pages : ℕ
num_pages = 2 ^ 38 / 2 ^ 12

pub data Permission : Type 0 where
  none_allowed read_only write_only read_write execute_only read_execute write_execute : Permission
  all_allowed : Permission

-- Pointers are addresses of the host; the null pointer is 0.
pub record PageTableEntry : Type 0 where
  pub pointer : ℕ
  pub perm : Permission

-- The variables of namespace mem, with the bytes of the host that the allocator touches.
pub record Memory : Type 0 where
  pub entries : ℕ → PageTableEntry
  pub free_page_list : ℕ
  pub bytes : ℕ → ℕ
  pub locked : Bool
  pub mem_base : ℕ

abbrev pub set_at {ℓ} : {A : Type ℓ} → (ℕ → A) → ℕ → A → ℕ → A
set_at f k a i = if k == i then a else f i

abbrev pub get_page_num : ℕ → ℕ
get_page_num addr = addr / 2 ^ 12

abbrev pub is_page_aligned : ℕ → Bool
is_page_aligned addr = addr % 2 ^ 12 == 0

-- The loop of `init` over the pages before the last one, with its 32-bit counter, in at most `fuel`
-- rounds; `none` is a loop that goes on.
unfoldable pub link_loop : ℕ → (ℕ → ℕ) → ℕ → ℕ → ℕ → Option (ℕ → ℕ)
link_loop zero bytes base last i = none
link_loop (suc fuel) bytes base last i =
    let next = (i + 1) % 2 ^ 32 in
    let rest =
      link_loop fuel (store_pointer bytes (base + i * page_size) (base + next * page_size)) base
        last next in
    if ltb i last then rest else some bytes

-- The loop, which has no more than `last` rounds where it ends, and the store that ends the list.
unfoldable pub link_pages : (ℕ → ℕ) → ℕ → ℕ → Option (ℕ → ℕ)
link_pages bytes base last = elim (link_loop (last + 1) bytes base last 0) [
  | none ↦ none
  | some linked ↦ some (store_pointer linked (base + last * page_size) 0)
]

-- `page` is what the platform returns for the reservation.
unfoldable pub init : ℕ → ℕ → Memory → Option (Bool × Memory)
init page mem_size m =
    if mem_size == 0
    then some (false, m)
    else if not (is_page_aligned mem_size)
    then some (false, m)
    else if page == 0
    then some (false, m)
    else elim (link_pages m.bytes page (mem_size / page_size - 1)) [
      | none ↦ none
      | some linked ↦
          some (true, record m { mem_base = page; free_page_list = page; bytes = linked })
    ]

-- `none` where the call waits for a lock that is held.
unfoldable pub allocate_page : ℕ → Memory → Option (Bool × Memory)
allocate_page page_num m =
    if leb num_pages page_num
    then some (false, m)
    else if m.locked
    then none
    else if not ((m.entries page_num).pointer == 0)
    then some (true, m)
    else if m.free_page_list == 0
    then some (false, record m { locked = true })
    else some (
      true,
      record m {
        entries =
            set_at m.entries page_num (record (m.entries page_num) { pointer = m.free_page_list });
        free_page_list = load_pointer m.bytes m.free_page_list;
        bytes = clear m.bytes m.free_page_list page_size;
      },
    )

unfoldable pub free_page : ℕ → Memory → Option Memory
free_page page_num m =
    let freed = (m.entries page_num).pointer in
    if leb num_pages page_num
    then some m
    else if m.locked
    then none
    else if freed == 0
    then some (record m { locked = true })
    else some (record m {
      entries = set_at m.entries page_num (record { pointer = 0; perm = Permission.none_allowed });
      bytes = store_pointer m.bytes freed m.free_page_list;
      free_page_list = freed;
    })

unfoldable pub protect_page : ℕ → Permission → Memory → Memory
protect_page page_num perm m =
    if leb num_pages page_num || ((m.entries page_num).pointer == 0) then m else record m {
      entries = set_at m.entries page_num (record (m.entries page_num) { perm = perm });
    }

-- The regions: `count` pages from `begin` on.
unfoldable pub allocate_region : ℕ → ℕ → Memory → Option (Bool × Memory)
allocate_region begin zero m = some (true, m)
allocate_region begin (suc count) m = elim (allocate_page begin m) [
  | none ↦ none
  | some (true, m') ↦ allocate_region (u64 (begin + 1)) count m'
  | some (false, m') ↦ some (false, m')
]

unfoldable pub free_region : ℕ → ℕ → Memory → Option Memory
free_region begin zero m = some m
free_region begin (suc count) m = elim (free_page begin m) [
  | none ↦ none
  | some m' ↦ free_region (u64 (begin + 1)) count m'
]

unfoldable pub protect_region : ℕ → ℕ → Permission → Memory → Memory
protect_region begin zero perm m = m
protect_region begin (suc count) perm m =
    protect_region (u64 (begin + 1)) count perm (protect_page begin perm m)

unfoldable pub is_valid : ℕ → Memory → Bool
is_valid addr m =
    if leb num_pages (get_page_num addr)
    then false
    else if ltb addr page_size
    then false
    else not ((m.entries (get_page_num addr)).pointer == 0)

unfoldable pub get_permission : ℕ → Memory → Permission
get_permission addr m =
    if leb num_pages (get_page_num addr)
    then Permission.none_allowed
    else (m.entries (get_page_num addr)).perm

-- The host address, or `none` where the fault handler is called.
unfoldable pub translate : ℕ → Memory → Option ℕ
translate addr m =
    if leb num_pages (get_page_num addr) || ((m.entries (get_page_num addr)).pointer == 0)
    then none
    else some ((m.entries (get_page_num addr)).pointer + addr % page_size)
