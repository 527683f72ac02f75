-- ===== src/Mem/Pages/Setup.antt =====
-- init of libcpu/src/mem.cpp links all pages of the reservation into the list of free pages.
use switch_emu_pub.Base.{
  ℕ, zero, suc, ◌+◌, ◌-◌, ◌*◌, ◌/◌, ◌^◌, ◌<◌, ◌≤◌, ◌≡◌, ◌≢◌, inl, inr, refl, sym, ◌∙◌, subst, ◌==◌,
  Bool-cases, true, false, List, Option, none, some, ltb, lt→ltb, ap, ◌%◌, [], ◌∷◌, Each, nil, ◌▸◌,
  Each-map, Contains, here, there, AllDistinct, empty, add, arith,
}
use switch_emu_pub.Mem.Bytes.{load_pointer, store_pointer, load-store, load-store-Apart}
use switch_emu_pub.Mem.Pages.{page_size, is_page_aligned, Memory, link_loop, link_pages, init}
use switch_emu_pub.Mem.Pages.Free.{IsPage, Chain, IsAccounted, pointers, page_pos}

-- `k` pages from page `i` on.
abbrev pub pages_from : ℕ → ℕ → ℕ → List ℕ
pages_from base i zero = []
pages_from base i (suc k) = (base + i * page_size) ∷ pages_from base (i + 1) k

-- The pages from `i` on, with `k` more after it, linked in order, and the last one ending the list.
links : (ℕ → ℕ) → ℕ → ℕ → ℕ → ℕ → ℕ
links bytes base i zero = store_pointer bytes (base + i * page_size) 0
links bytes base i (suc k) =
    links (store_pointer bytes (base + i * page_size) (base + (i + 1) * page_size)) base (i + 1) k

module _ (base : ℕ) where
  links-below :
      (k i : ℕ) (bytes : ℕ → ℕ) (q : ℕ)
      → q + 8 ≤ base + i * page_size
      → load_pointer (links bytes base i k) q ≡ load_pointer bytes q
  unfolding links
  links-below zero i bytes q h = load-store-Apart bytes q _ _ (inl h)
  links-below (suc k) i bytes q h =
      links-below k (i + 1) _ q (omega arith) ∙ load-store-Apart bytes q _ _ (inl h)

  linked :
      (k i : ℕ) (bytes : ℕ → ℕ)
      → 0 < base
      → base + (i + k + 1) * page_size ≤ 2 ^ 64
      → Chain (links bytes base i k) (base + i * page_size) (pages_from base i (suc k))
  unfolding links Chain
  linked zero i bytes pos_base h =
      (refl, (λ z. omega arith), load-store bytes (base + i * page_size) 0 (omega arith))
  linked (suc k) i bytes pos_base h = (
    refl,
    (λ z. omega arith),
    subst (λ (p : ℕ). Chain (links changed base (i + 1) k) p (pages_from base (i + 1) (suc k)))
        (sym (
          links-below k (i + 1) changed (base + i * page_size) (omega arith)
          ∙ load-store bytes (base + i * page_size) (base + (i + 1) * page_size) (omega arith)))
        (linked k (i + 1) changed pos_base (omega arith)),
  )
    where
      changed : ℕ → ℕ
      changed = store_pointer bytes (base + i * page_size) (base + (i + 1) * page_size)

  -- Below 2 ^ 32 the counter of the loop does not wrap around, and the loop ends.
  loop_links :
      (k i fuel last : ℕ) (bytes : ℕ → ℕ)
      → last ≡ i + k
      → last < 2 ^ 32
      → k < fuel
      → (b : ℕ → ℕ) × (link_loop fuel bytes base last i ≡ some b)
        × (store_pointer b (base + last * page_size) 0 ≡ links bytes base i k)
  unfolding link_loop links
  loop_links k i zero last bytes e small more = absurd (omega (arith, more))
  loop_links zero i (suc fuel) last bytes e small more =
      let over : ltb i last ≡ false = ground (arith, e) in
      (
        bytes,
        rw over refl,
        ap (λ (t : ℕ). store_pointer bytes (base + t * page_size) 0) (omega (arith, e)),
      )
  loop_links (suc k) i (suc fuel) last bytes e small more =
      let next : (i + 1) % 2 ^ 32 ≡ i + 1 = omega (arith, e, small) in
      let (b, run, ends) =
        loop_links k (i + 1) fuel last
          (store_pointer bytes (base + i * page_size) (base + (i + 1) * page_size))
          (omega (arith, e)) small (omega (arith, more)) in
      (
        b,
        rw (lt→ltb i last (omega (arith, e))) (
            ap
              (λ (n : ℕ).
                link_loop fuel (store_pointer bytes (base + i * page_size) (base + n * page_size))
                  base last n)
              next
            ∙ run),
        ends,
      )

  linked_run :
      (last : ℕ) (bytes : ℕ → ℕ)
      → last < 2 ^ 32
      → link_pages bytes base last ≡ some (links bytes base 0 last)
  unfolding link_pages
  linked_run last bytes small =
      let (b, run, ends) =
        loop_links last 0 (last + 1) last bytes (omega arith) small (omega arith) in
      ap
        (λ (o : Option (ℕ → ℕ)). elim o [
          | none ↦ none
          | some b ↦ some (store_pointer b (base + last * page_size) 0)
        ])
        run
      ∙ ap some ends

  pages_from-IsPage :
      (count k i : ℕ) → i + k ≤ count → Each (IsPage base count) (pages_from base i k)
  unfolding IsPage
  pages_from-IsPage count zero i h = nil
  pages_from-IsPage count (suc k) i h =
      (i, omega arith, refl) ▸ pages_from-IsPage count k (i + 1) (omega arith)

  later_pages : (k i j : ℕ) → i < j → Each (λ y. y ≢ base + i * page_size) (pages_from base j k)
  later_pages zero i j h = nil
  later_pages (suc k) i j h = (λ e. omega arith) ▸ later_pages k i (j + 1) (omega arith)

  pages_from-AllDistinct : (k i : ℕ) → AllDistinct (pages_from base i k)
  pages_from-AllDistinct zero i = empty
  pages_from-AllDistinct (suc k) i =
      add (later_pages k i (i + 1) (omega arith)) (pages_from-AllDistinct k (i + 1))

  pages_from-Contains :
      (k i j : ℕ) → i ≤ j → j < i + k → Contains (base + j * page_size) (pages_from base i k)
  pages_from-Contains zero i j lo hi = absurd (omega arith)
  pages_from-Contains (suc k) i j lo hi = elim (Bool-cases (i == j)) [
    | inl t ↦ here (ground arith)
    | inr t ↦ there (pages_from-Contains k (i + 1) j (ground arith) (omega arith))
  ]

  -- On a reservation of at least one and at most 2 ^ 32 pages at a host address that is not null
  -- and does not wrap around, with an empty page table and the lock free, init returns true, and
  -- each page of the reservation is then free exactly once.
  pub init-IsAccounted :
      (count : ℕ) (m : Memory)
      → 0 < base
      → 0 < count
      → count ≤ 2 ^ 32
      → base + count * page_size ≤ 2 ^ 64
      → ((i : ℕ) → pointers m i ≡ 0)
      → m.locked ≡ false
      → (m' : Memory) × (init base (count * page_size) m ≡ some (true, m'))
        × IsAccounted base count (pages_from base 0 count) m'
  unfolding init IsPage
  init-IsAccounted zero m pos_base pos_count few fits vacant unlocked = absurd (omega arith)
  init-IsAccounted (suc k) m pos_base pos_count few fits vacant unlocked = (
    record m { mem_base = base; free_page_list = base; bytes = links m.bytes base 0 k },
    rw (nonzero, aligned, based, last, linked_run k m.bytes (omega (arith, few))) refl,
    record {
      pages = record {
        base_pos = pos_base;
        pool_end = fits;
        chain =
            subst (λ (p : ℕ). Chain (links m.bytes base 0 k) p (pages_from base 0 (suc k)))
              (omega arith) (linked k 0 m.bytes pos_base (omega arith));
        distinct = pages_from-AllDistinct (suc k) 0;
        free_pages = pages_from-IsPage (suc k) (suc k) 0 (omega arith);
        table_pages = λ i used. absurd (used (vacant i));
        table_once = λ i j used e. absurd (used (vacant i));
        table_apart = λ i.
            subst (λ (t : ℕ). Each (λ q. q ≢ t) (pages_from base 0 (suc k))) (sym (vacant i))
              (Each-map (λ q page. page_pos base (suc k) q pos_base page)
                (pages_from-IsPage (suc k) (suc k) 0 (omega arith)));
        none_lost = λ p page. inl (found p page);
      };
      unlocked = unlocked;
    },
  )
    where
      nonzero : (suc k * page_size == 0) ≡ false
      nonzero = ground arith

      aligned : is_page_aligned (suc k * page_size) ≡ true
      aligned = ground arith

      based : (base == 0) ≡ false
      based = ground arith

      last : suc k * page_size / page_size - 1 ≡ k
      last = omega arith

      found : (p : ℕ) → IsPage base (suc k) p → Contains p (pages_from base 0 (suc k))
      found p (j, hj, e) =
          subst (λ (t : ℕ). Contains t (pages_from base 0 (suc k))) (sym e)
            (pages_from-Contains (suc k) 0 j (omega arith) (omega arith))
