-- ===== src/Mem/Pages/Moves.antt =====
-- A page of libcpu/src/mem.cpp moves from the free pages to the page table and back.
use switch_emu_pub.Base.{
  ℕ, ◌≡◌, ◌≢◌, ◌⊎◌, inl, inr, refl, sym, ◌∙◌, ap, subst, List, ◌∷◌, Each, ◌▸◌, Each-map, Each-both,
  Contains, here, there, add,
}
use switch_emu_pub.Mem.Bytes.{
  load_pointer, store_pointer, clear, load-store, load-store-Apart, load-clear-Apart,
}
use switch_emu_pub.Mem.Pages.{page_size, set_at}
use switch_emu_pub.Mem.Pages.Free.{
  IsPage, Chain, Accounted, Chain-unchanged, Each-first, Each-rest, distinct-first, distinct-rest,
  set_at-cases, set_at_self, pages-Apart, page_pos, narrow, head_lt,
}

module _ (base n : ℕ) (pointers bytes : ℕ → ℕ) where
  -- The first free page goes to a table entry that has none, and is cleared.
  module _ (head q : ℕ) (qs : List ℕ) (k : ℕ) (vacant : pointers k ≡ 0)
      (a : Accounted base n pointers bytes head (q ∷ qs)) where
    taken_pages : (i : ℕ) → set_at pointers k q i ≢ 0 → IsPage base n (set_at pointers k q i)
    taken_pages i h = elim (set_at-cases pointers k q i) [
      | inl (e, v) ↦ subst (IsPage base n) (sym v) (Each-first a.free_pages)
      | inr (d, v) ↦ subst (IsPage base n) (sym v) (a.table_pages i (λ z. h (v ∙ z)))
    ]

    taken_once :
        (i j : ℕ)
        → set_at pointers k q i ≢ 0
        → set_at pointers k q i ≡ set_at pointers k q j
        → i ≡ j
    taken_once i j h e = elim (set_at-cases pointers k q i) [
      | inl (ki, vi) ↦ elim (set_at-cases pointers k q j) [
        | inl (kj, vj) ↦ sym ki ∙ kj
        | inr (dj, vj) ↦ absurd (Each-first (a.table_apart j) (sym vi ∙ e ∙ vj))
      ]
      | inr (di, vi) ↦ elim (set_at-cases pointers k q j) [
        | inl (kj, vj) ↦ absurd (Each-first (a.table_apart i) (sym vj ∙ sym e ∙ vi))
        | inr (dj, vj) ↦ a.table_once i j (λ z. h (vi ∙ z)) (sym vi ∙ e ∙ vj)
      ]
    ]

    taken_apart : (i : ℕ) → Each (λ r. r ≢ set_at pointers k q i) qs
    taken_apart i = elim (set_at-cases pointers k q i) [
      | inl (e, v) ↦ subst (λ (t : ℕ). Each (λ r. r ≢ t) qs) (sym v) (distinct-first a.distinct)
      | inr (d, v) ↦ subst (λ (t : ℕ). Each (λ r. r ≢ t) qs) (sym v) (Each-rest (a.table_apart i))
    ]

    taken_lost : (p : ℕ) → IsPage base n p → Contains p qs ⊎ ((i : ℕ) × (set_at pointers k q i ≡ p))
    taken_lost p page = elim (a.none_lost p page) [
      | inl (here e) ↦ inr (k, set_at_self pointers k q ∙ sym e)
      | inl (there c) ↦ inl c
      | inr (i, e) ↦ elim (set_at-cases pointers k q i) [
        | inl (ki, v) ↦
            absurd (page_pos base n p a.base_pos page (sym e ∙ ap pointers (sym ki) ∙ vacant))
        | inr (d, v) ↦ inr (i, v ∙ e)
      ]
    ]

    taken-Chain : Chain (clear bytes q page_size) (load_pointer bytes q) qs
    unfolding Chain
    taken-Chain =
        Chain-unchanged bytes (clear bytes q page_size) qs (load_pointer bytes q)
          (Each-map
            (λ r both.
              load-clear-Apart bytes r q page_size
                (pages-Apart base n r q both.0 (Each-first a.free_pages) both.1))
            (Each-both (Each-rest a.free_pages) (distinct-first a.distinct)))
          a.chain.2

    pub Accounted-take :
        Accounted base n (set_at pointers k q) (clear bytes q page_size) (load_pointer bytes q) qs
    Accounted-take = record {
      base_pos = a.base_pos;
      pool_end = a.pool_end;
      chain = taken-Chain;
      distinct = distinct-rest a.distinct;
      free_pages = Each-rest a.free_pages;
      table_pages = taken_pages;
      table_once = taken_once;
      table_apart = taken_apart;
      none_lost = taken_lost;
    }

  -- The page of a table entry goes to the front of the free pages.
  module _ (head k : ℕ) (free : List ℕ) (used : pointers k ≢ 0)
      (a : Accounted base n pointers bytes head free) where
    given_pages : (i : ℕ) → set_at pointers k 0 i ≢ 0 → IsPage base n (set_at pointers k 0 i)
    given_pages i h = elim (set_at-cases pointers k 0 i) [
      | inl (e, v) ↦ absurd (h v)
      | inr (d, v) ↦ subst (IsPage base n) (sym v) (a.table_pages i (λ z. h (v ∙ z)))
    ]

    given_once :
        (i j : ℕ)
        → set_at pointers k 0 i ≢ 0
        → set_at pointers k 0 i ≡ set_at pointers k 0 j
        → i ≡ j
    given_once i j h e = elim (set_at-cases pointers k 0 i) [
      | inl (ki, vi) ↦ absurd (h vi)
      | inr (di, vi) ↦ elim (set_at-cases pointers k 0 j) [
        | inl (kj, vj) ↦ absurd (h (e ∙ vj))
        | inr (dj, vj) ↦ a.table_once i j (λ z. h (vi ∙ z)) (sym vi ∙ e ∙ vj)
      ]
    ]

    given_apart : (i : ℕ) → Each (λ r. r ≢ set_at pointers k 0 i) (pointers k ∷ free)
    given_apart i = elim (set_at-cases pointers k 0 i) [
      | inl (e, v) ↦
          subst (λ (t : ℕ). Each (λ r. r ≢ t) (pointers k ∷ free)) (sym v)
            (used ▸ Each-map (λ r page. page_pos base n r a.base_pos page) a.free_pages)
      | inr (d, v) ↦
          subst (λ (t : ℕ). Each (λ r. r ≢ t) (pointers k ∷ free)) (sym v)
            ((λ e. d (a.table_once k i used e)) ▸ a.table_apart i)
    ]

    given_lost :
        (p : ℕ)
        → IsPage base n p
        → Contains p (pointers k ∷ free) ⊎ ((i : ℕ) × (set_at pointers k 0 i ≡ p))
    given_lost p page = elim (a.none_lost p page) [
      | inl c ↦ inl (there c)
      | inr (i, e) ↦ elim (set_at-cases pointers k 0 i) [
        | inl (ki, v) ↦ inl (here (sym e ∙ ap pointers (sym ki)))
        | inr (d, v) ↦ inr (i, v ∙ e)
      ]
    ]

    page : IsPage base n (pointers k)
    page = a.table_pages k used

    given-Chain : Chain (store_pointer bytes (pointers k) head) head free
    given-Chain =
        Chain-unchanged bytes (store_pointer bytes (pointers k) head) free head
          (Each-map
            (λ r both.
              load-store-Apart bytes r (pointers k) head
                (narrow _ _ (pages-Apart base n r (pointers k) both.0 page both.1)))
            (Each-both a.free_pages (a.table_apart k)))
          a.chain

    pub Accounted-give :
        Accounted base n
          (set_at pointers k 0)
          (store_pointer bytes (pointers k) head)
          (pointers k)
          (pointers k ∷ free)
    unfolding Chain
    Accounted-give = record {
      base_pos = a.base_pos;
      pool_end = a.pool_end;
      chain = (
        refl,
        used,
        rw
            (load-store bytes (pointers k) head
              (head_lt base n bytes head free a.pool_end a.free_pages a.chain))
            given-Chain,
      );
      distinct = add (a.table_apart k) a.distinct;
      free_pages = page ▸ a.free_pages;
      table_pages = given_pages;
      table_once = given_once;
      table_apart = given_apart;
      none_lost = given_lost;
    }
