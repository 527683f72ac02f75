-- ===== src/Mem/Access/Isolation.antt =====
-- Accesses of libcpu/inc/mem.h that stay within a page: they touch no other guest address and no
-- page of the allocator.
use switch_emu_pub.Base.{
  ℕ, ◌+◌, ◌%◌, ◌<◌, ◌≤◌, ◌≡◌, ◌⊎◌, inl, inr, Option-cases, some, sym, ap, ◌∙◌, List, Each, Each-map,
  Each-both, Bool-cases, ◌==◌, ==_iff, arith,
}
use switch_emu_pub.Mem.Bytes.{load_pointer, load_unchanged}
use switch_emu_pub.Mem.Pages.{page_size, get_page_num, Memory, translate}
use switch_emu_pub.Mem.Pages.Free.{IsAccounted, pointers, Chain-unchanged}
use switch_emu_pub.Mem.Pages.Translate.{translate_parts, two_pages_apart, distinct_test}
use switch_emu_pub.Mem.Access.{store_bytes, inspect, poke, put_bytes}
use switch_emu_pub.Mem.Access.RoundTrip.{
  poke_parts, inspect-some, inspect-none, translate-put_bytes, load_bytes-store_bytes-Apart,
}

-- The `n` bytes at a guest address lie in one page.
abbrev pub WithinPage : ℕ → ℕ → Type 0
WithinPage addr n = addr % page_size + n ≤ page_size

kept_byte :
    (bytes : ℕ → ℕ) (j p v a : ℕ) → (a < p) ⊎ (p + j ≤ a) → store_bytes bytes j p v a ≡ bytes a
unfolding store_bytes
kept_byte bytes j p v a apart = ground arith

load_pointer-store_bytes :
    (bytes : ℕ → ℕ) (j p v q : ℕ)
    → (p + j ≤ q) ⊎ (q + page_size ≤ p)
    → load_pointer (store_bytes bytes j p v) q ≡ load_pointer bytes q
load_pointer-store_bytes bytes j p v q apart =
    load_unchanged bytes (store_bytes bytes j p v) q
      (λ i h. kept_byte bytes j p v (q + i) (ground arith))

module _ (base n : ℕ) (free : List ℕ) (m : Memory) (acc : IsAccounted base n free m) where
  -- Two accesses that do not meet at guest addresses do not meet in the host.
  hosts_apart :
      (a b p q j k : ℕ)
      → translate a m ≡ some p
      → translate b m ≡ some q
      → WithinPage a j
      → WithinPage b k
      → (a + j ≤ b) ⊎ (b + k ≤ a)
      → (p + j ≤ q) ⊎ (q + k ≤ p)
  hosts_apart a b p q j k ea eb wa wb apart =
      let (ua, pa) = translate_parts a p m ea in
      let (ub, pb) = translate_parts b q m eb in
      elim (Bool-cases (pointers m (get_page_num a) == pointers m (get_page_num b))) [
        | inl t ↦
            let same_pointer = (==_iff _ _).0 t in
            let same_page = acc.pages.table_once _ _ ua same_pointer in
            ground (arith, pa, pb, same_pointer, same_page, apart)
        | inr t ↦
            let pages =
              two_pages_apart base n _ _ (acc.pages.table_pages _ ua) (acc.pages.table_pages _ ub)
                (λ e. distinct_test _ _ t e) in
            ground (arith, pages, pa, pb)
      ]

  -- In an accounted state, a store that returns changes no load, whether mapped or not, of guest
  -- bytes that do not meet the stored ones, when each access stays within a page.
  pub inspect-poke-Apart :
      (j a v k b : ℕ) (m' : Memory)
      → poke j a v m ≡ some m'
      → WithinPage a j
      → WithinPage b k
      → (a + j ≤ b) ⊎ (b + k ≤ a)
      → inspect k b m' ≡ inspect k b m
  inspect-poke-Apart j a v k b m' e wa wb apart =
      let (p, there, made) = poke_parts j a v m m' e in
      elim (Option-cases (translate b m)) [
        | inl missing ↦ rw made (
            inspect-none k b (put_bytes j p v m) (translate-put_bytes j p v b m ∙ missing)
            ∙ sym (inspect-none k b m missing))
        | inr (q, second) ↦ rw made (
            inspect-some k b q (put_bytes j p v m) (translate-put_bytes j p v b m ∙ second)
            ∙ ap some (
                load_bytes-store_bytes-Apart m.bytes j p v k q
                  (hosts_apart a b p q j k there second wa wb apart))
            ∙ sym (inspect-some k b q m second))
      ]

  -- Every page that is free lies apart from the bytes that are stored.
  stored_apart :
      (j a p : ℕ)
      → translate a m ≡ some p
      → WithinPage a j
      → Each (λ q. (p + j ≤ q) ⊎ (q + page_size ≤ p)) free
  stored_apart j a p e wa =
      let (used, split) = translate_parts a p m e in
      Each-map
        (λ q both.
          ground
            (arith, split, two_pages_apart base n q _ both.0 (acc.pages.table_pages _ used) both.1))
        (Each-both acc.pages.free_pages (acc.pages.table_apart (get_page_num a)))

  -- From an accounted state, a store to a guest address that returns and stays within a page
  -- leaves an accounted state with the same free pages.
  pub poke-IsAccounted :
      (j a v : ℕ) (m' : Memory)
      → poke j a v m ≡ some m'
      → WithinPage a j
      → IsAccounted base n free m'
  poke-IsAccounted j a v m' e wa =
      let (p, there, made) = poke_parts j a v m m' e in
      let changed = store_bytes m.bytes j p v in
      let chain =
        Chain-unchanged m.bytes changed free m.free_page_list
          (Each-map (λ q apart. load_pointer-store_bytes m.bytes j p v q apart)
            (stored_apart j a p there wa))
          acc.pages.chain in
      rw made (record {
        pages = record {
          base_pos = acc.pages.base_pos;
          pool_end = acc.pages.pool_end;
          chain = chain;
          distinct = acc.pages.distinct;
          free_pages = acc.pages.free_pages;
          table_pages = acc.pages.table_pages;
          table_once = acc.pages.table_once;
          table_apart = acc.pages.table_apart;
          none_lost = acc.pages.none_lost;
        };
        unlocked = acc.unlocked;
      })
