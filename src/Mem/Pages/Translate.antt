-- ===== src/Mem/Pages/Translate.antt =====
-- Guest addresses and the host addresses that translate of libcpu/src/mem.cpp gives them.
use switch_emu_pub.Base.{
  ℕ, ◌+◌, ◌%◌, ◌<◌, ◌≤◌, ◌≡◌, ◌≢◌, ◌⊎◌, inl, inr, sym, ◌==◌, ==_iff, leb, ◌||◌, Bool-cases, Bool,
  true, false, List, Each, Each-map, Each-both, some, some_inj, arith, subst,
}
use switch_emu_pub.Mem.Pages.{page_size, num_pages, get_page_num, Memory, translate}
use switch_emu_pub.Mem.Pages.Free.{IsPage, IsAccounted, pointers, pages-Apart}

or_false : (t u : Bool) → (t || u) ≡ false → u ≡ false
or_false false u h = h
or_false true u h = cc

pub distinct_test : (a b : ℕ) → (a == b) ≡ false → a ≢ b
distinct_test a b h e = ground arith

not_zero : (a : ℕ) → (a == 0) ≡ false → a ≢ 0
not_zero a h = distinct_test a 0 h

pub translate_parts :
    (addr p : ℕ) (m : Memory)
    → translate addr m ≡ some p
    → (pointers m (get_page_num addr) ≢ 0) × (p ≡ pointers m (get_page_num addr) + addr % page_size)
unfolding translate
translate_parts addr p m e =
    elim (Bool-cases
      (leb num_pages (get_page_num addr) || ((m.entries (get_page_num addr)).pointer == 0))) [
        | inl t ↦ cc (rw t at e)
        | inr t ↦ (not_zero _ (or_false _ _ t), sym (some_inj (rw t at e)))
      ]

module _ (base n : ℕ) where
  -- Two pages that are not the same do not meet.
  pub two_pages_apart :
      (p q : ℕ)
      → IsPage base n p
      → IsPage base n q
      → p ≢ q
      → (p + page_size ≤ q) ⊎ (q + page_size ≤ p)
  two_pages_apart p q hp hq d =
      ground (arith, pages-Apart base n p q hp hq d, pages-Apart base n q p hq hp (λ e. d (sym e)))

  module _ (free : List ℕ) (m : Memory) (acc : IsAccounted base n free m) where
    translate_inj : (a b p : ℕ) → translate a m ≡ some p → translate b m ≡ some p → a ≡ b
    translate_inj a b p ea eb =
        let (ua, pa) = translate_parts a p m ea in
        let (ub, pb) = translate_parts b p m eb in
        elim (Bool-cases (pointers m (get_page_num a) == pointers m (get_page_num b))) [
          | inl t ↦
              let same_pointer = (==_iff _ _).0 t in
              let same_page = acc.pages.table_once _ _ ua same_pointer in
              omega (arith, pa, pb, same_pointer, same_page)
          | inr t ↦
              let apart =
                two_pages_apart _ _ (acc.pages.table_pages _ ua) (acc.pages.table_pages _ ub)
                  (λ e. distinct_test _ _ t e) in
              ground (arith, apart, pa, pb)
        ]

    -- In an accounted state, two different guest addresses that both translate have different
    -- host addresses.
    pub translate_distinct :
        (a b p q : ℕ) → translate a m ≡ some p → translate b m ≡ some q → a ≢ b → p ≢ q
    translate_distinct a b p q ea eb apart e =
        apart (translate_inj a b q (subst (λ (t : ℕ). translate a m ≡ some t) e ea) eb)

    -- In an accounted state, the host address of a guest address that translates lies in no free
    -- page.
    pub translate-apart_free :
        (a p : ℕ) → translate a m ≡ some p → Each (λ q. (p < q) ⊎ (q + page_size ≤ p)) free
    translate-apart_free a p e =
        let (used, split) = translate_parts a p m e in
        Each-map
          (λ q both.
            ground (arith, split, two_pages_apart q _ both.0 (acc.pages.table_pages _ used) both.1))
          (Each-both acc.pages.free_pages (acc.pages.table_apart (get_page_num a)))
