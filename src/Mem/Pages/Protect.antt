-- ===== src/Mem/Pages/Protect.antt =====
-- protectPage, getPermission and translate of libcpu/src/mem.cpp together.
use switch_emu_pub.Base.{
  ℕ, ◌+◌, ◌%◌, ◌<◌, ◌≡◌, ◌≢◌, refl, sym, ap, subst, ◌==◌, ==_iff, test_false, leb, ◌||◌, Bool-cases,
  inl, inr, false, if◌then◌else◌, List, none, some, arith,
}
use switch_emu_pub.Mem.Pages.{
  page_size, num_pages, set_at, get_page_num, Permission, Memory, protect_page, get_permission,
  translate,
}
use switch_emu_pub.Mem.Pages.Free.{IsAccounted, Accounted, pointers}

module _ (page_num : ℕ) (perm : Permission) (m : Memory) where
  abbrev protected : Memory
  protected = record m {
    entries = set_at m.entries page_num (record (m.entries page_num) { perm = perm });
  }

  protected_run :
      page_num < num_pages → pointers m page_num ≢ 0 → protect_page page_num perm m ≡ protected
  unfolding protect_page
  protected_run h used = rw (within, test_false (pointers m page_num) 0 used) refl
    where
      within : leb num_pages page_num ≡ false
      within = ground arith

  protected_pointer : (i : ℕ) → pointers protected i ≡ pointers m i
  protected_pointer i = elim (Bool-cases (page_num == i)) [
    | inl t ↦ rw (pointers, t) (ap (pointers m) ((==_iff _ _).0 t))
    | inr t ↦ rw (pointers, t) refl
  ]

  protected-pointers : pointers protected ≡ pointers m
  protected-pointers = λ x i. protected_pointer i x

  protected-IsAccounted :
      (base n : ℕ) (free : List ℕ) → IsAccounted base n free m → IsAccounted base n free protected
  protected-IsAccounted base n free acc = record {
    pages =
        subst (λ (f : ℕ → ℕ). Accounted base n f m.bytes m.free_page_list free)
          (sym protected-pointers) acc.pages;
    unlocked = acc.unlocked;
  }

  protected_here :
      (addr : ℕ)
      → page_num < num_pages
      → get_page_num addr ≡ page_num
      → get_permission addr protected ≡ perm
  unfolding get_permission
  protected_here addr h here = rw (within, (==_iff page_num (get_page_num addr)).1 (sym here)) refl
    where
      within : leb num_pages (get_page_num addr) ≡ false
      within = ground (arith, here, h)

  protected_elsewhere :
      (addr : ℕ)
      → get_page_num addr ≢ page_num
      → get_permission addr protected ≡ get_permission addr m
  unfolding get_permission
  protected_elsewhere addr away =
      rw (test_false page_num (get_page_num addr) (λ z. away (sym z))) refl

  protected-translate : (addr : ℕ) → translate addr protected ≡ translate addr m
  unfolding translate
  protected-translate addr =
      ap
        (λ (pointer : ℕ).
          if leb num_pages (get_page_num addr) || (pointer == 0)
          then none
          else some (pointer + addr % page_size))
        (protected_pointer (get_page_num addr))

  -- From an accounted state, the protection of a mapped page number in range leaves an accounted
  -- state in which every address of the page has the new permission, every other address the
  -- permission it had, and all addresses translate as before.
  pub protect_page_sets :
      (base n : ℕ) (free : List ℕ)
      → page_num < num_pages
      → pointers m page_num ≢ 0
      → IsAccounted base n free m
      → IsAccounted base n free (protect_page page_num perm m)
        × ((addr : ℕ)
            → get_page_num addr ≡ page_num
            → get_permission addr (protect_page page_num perm m) ≡ perm)
        × ((addr : ℕ)
            → get_page_num addr ≢ page_num
            → get_permission addr (protect_page page_num perm m) ≡ get_permission addr m)
        × ((addr : ℕ) → translate addr (protect_page page_num perm m) ≡ translate addr m)
  protect_page_sets base n free h used acc = rw (protected_run h used) (
    protected-IsAccounted base n free acc,
    (λ addr here. protected_here addr h here),
    protected_elsewhere,
    protected-translate,
  )
