-- ===== src/Mem/Pages/Free.antt =====
-- The pages of libcpu/src/mem.cpp: each is free or stands in the page table, once.
use switch_emu_pub.Base.{
  ℕ, ◌+◌, ◌*◌, ◌^◌, ◌<◌, ◌≤◌, ◌≡◌, ◌≢◌, ◌⊎◌, inl, inr, refl, ◌==◌, ==_iff, Bool-cases, false, List,
  [], ◌∷◌, Each, nil, ◌▸◌, arith, Contains, AllDistinct, add,
}
use switch_emu_pub.Mem.Bytes.{load_pointer, Apart}
use switch_emu_pub.Mem.Pages.{page_size, set_at, Memory}

unfoldable pub IsPage : ℕ → ℕ → ℕ → Type 0
IsPage base n p = (k : ℕ) × (k < n) × (p ≡ base + k * page_size)

-- The list that starts at `p` runs through exactly the pages given.
unfoldable pub Chain : (ℕ → ℕ) → ℕ → List ℕ → Type 0
Chain bytes p [] = p ≡ 0
Chain bytes p (q ∷ qs) = (p ≡ q) × (q ≢ 0) × Chain bytes (load_pointer bytes q) qs

pub record Accounted (base n : ℕ) (pointers bytes : ℕ → ℕ) (head : ℕ) (free : List ℕ) : Type 0 where
  pub base_pos : 0 < base
  pub pool_end : base + n * page_size ≤ 2 ^ 64
  pub chain : Chain bytes head free
  pub distinct : AllDistinct free
  pub free_pages : Each (IsPage base n) free
  pub table_pages : (i : ℕ) → pointers i ≢ 0 → IsPage base n (pointers i)
  pub table_once : (i j : ℕ) → pointers i ≢ 0 → pointers i ≡ pointers j → i ≡ j
  pub table_apart : (i : ℕ) → Each (λ q. q ≢ pointers i) free
  pub none_lost : (p : ℕ) → IsPage base n p → Contains p free ⊎ ((i : ℕ) × (pointers i ≡ p))

pub Chain-unchanged :
    (bytes changed : ℕ → ℕ) (free : List ℕ) (p : ℕ)
    → Each (λ q. load_pointer changed q ≡ load_pointer bytes q) free
    → Chain bytes p free
    → Chain changed p free
unfolding Chain
Chain-unchanged bytes changed [] p nil c = c
Chain-unchanged bytes changed (q ∷ qs) p (unchanged ▸ rest) (e, nonzero, c) =
    (e, nonzero, rw unchanged (Chain-unchanged bytes changed qs (load_pointer bytes q) rest c))

pub Each-first : {P : ℕ → Type 0} {x : ℕ} {xs : List ℕ} → Each P (x ∷ xs) → P x
Each-first (p ▸ ps) = p

pub Each-rest : {P : ℕ → Type 0} {x : ℕ} {xs : List ℕ} → Each P (x ∷ xs) → Each P xs
Each-rest (p ▸ ps) = ps

pub distinct-first : {x : ℕ} {xs : List ℕ} → AllDistinct (x ∷ xs) → Each (λ y. y ≢ x) xs
distinct-first (add first rest) = first

pub distinct-rest : {x : ℕ} {xs : List ℕ} → AllDistinct (x ∷ xs) → AllDistinct xs
distinct-rest (add first rest) = rest

-- Every index is the changed one, at which the new value stands, or keeps its value.
pub set_at-cases :
    (f : ℕ → ℕ) (k v i : ℕ) → ((k ≡ i) × (set_at f k v i ≡ v)) ⊎ ((k ≢ i) × (set_at f k v i ≡ f i))
set_at-cases f k v i = elim (Bool-cases (k == i)) [
  | inl t ↦ inl ((==_iff k i).0 t, rw t refl)
  | inr t ↦ inr ((λ e. ground arith), rw t refl)
]

pub set_at_self : (f : ℕ → ℕ) (k v : ℕ) → set_at f k v k ≡ v
set_at_self f k v = ground arith

module _ (base n : ℕ) where
  pub pages-Apart : (p q : ℕ) → IsPage base n p → IsPage base n q → p ≢ q → Apart p q page_size
  unfolding IsPage
  pages-Apart p q (i, hi, ei) (j, hj, ej) apart = ground arith

  pub page_pos : (p : ℕ) → 0 < base → IsPage base n p → p ≢ 0
  unfolding IsPage
  page_pos p h (k, hk, e) z = omega arith

  pub page_end : (p : ℕ) → base + n * page_size ≤ 2 ^ 64 → IsPage base n p → p + page_size ≤ 2 ^ 64
  unfolding IsPage
  page_end p h (k, hk, e) = omega arith

pub narrow : (p q : ℕ) → Apart p q page_size → Apart p q 8
narrow p q apart = ground arith

pub head_lt :
    (base n : ℕ) (bytes : ℕ → ℕ) (head : ℕ) (free : List ℕ)
    → base + n * page_size ≤ 2 ^ 64
    → Each (IsPage base n) free
    → Chain bytes head free
    → head < 2 ^ 64
unfolding Chain
head_lt base n bytes head [] h nil c = omega arith
head_lt base n bytes head (q ∷ qs) h (page ▸ pages) (e, nonzero, c) =
    omega (arith, page_end base n q h page)

abbrev pub pointers : Memory → ℕ → ℕ
pointers m i = (m.entries i).pointer

-- The state between two calls.
pub record IsAccounted (base n : ℕ) (free : List ℕ) (m : Memory) : Type 0 where
  pub pages : Accounted base n (pointers m) m.bytes m.free_page_list free
  pub unlocked : m.locked ≡ false
