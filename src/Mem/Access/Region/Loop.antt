-- ===== src/Mem/Access/Region/Loop.antt =====
-- The loop of writeRegion and readRegion of libcpu/src/mem.cpp comes to what its single bytes come
-- to, where the copy of a page does.
use switch_emu_pub.Base.{
  ℕ, zero, suc, ◌+◌, ◌-◌, ◌%◌, ◌^◌, ◌<◌, ◌≤◌, ◌≡◌, inl, inr, ltb, ltb→lt, lt→ltb, ◌==◌, ==_iff,
  ◌&&◌, Bool-cases, true, false, refl, sym, ap, ◌∙◌, arith,
}
use switch_emu_pub.Bits.{u64}
use switch_emu_pub.Mem.Pages.{page_size}
use switch_emu_pub.Mem.Access.Region.{
  Run, finished, faulted, unfinished, then_run, copy_loop, each_byte,
}

one_before : (n k : ℕ) → suc n + k ≡ suc (n + k)
one_before n k = omega arith

both_hold : (a b c : ℕ) → ((a == 0) && ltb b c) ≡ true → (a ≡ 0) × (b < c)
both_hold a b c h = elim (Bool-cases (a == 0)) [
  | inl e ↦ ((==_iff a 0).0 e, ltb→lt b c (rw e at h))
  | inr e ↦ cc (rw e at h)
]

module _ {S : Type 0} where
  then_run_same :
      (r : Run S) (f g : S → Run S) → ((s : S) → f s ≡ g s) → then_run r f ≡ then_run r g
  then_run_same (finished s) f g h = h s
  then_run_same (faulted a s) f g h = refl
  then_run_same (unfinished s) f g h = refl

  then_run_assoc :
      (r : Run S) (f g : S → Run S) → then_run (then_run r f) g ≡ then_run r (λ s. then_run (f s) g)
  then_run_assoc (finished s) f g = refl
  then_run_assoc (faulted a s) f g = refl
  then_run_assoc (unfinished s) f g = refl

  module _ (byte : ℕ → S → Run S) where
    -- A run of bytes is two runs.
    pub each_byte-append :
        (n k i : ℕ) (s : S)
        → each_byte byte (n + k) i s
          ≡ then_run (each_byte byte n i s) (λ s'. each_byte byte k (i + n) s')
    each_byte-append zero k i s =
        let none_before : zero + k ≡ k = omega arith in
        rw none_before (ap (λ (j : ℕ). each_byte byte k j s) (omega arith))
    each_byte-append (suc n) k i s = rw (one_before n k) (
        then_run_same (byte i s) _ _ (λ s'.
          each_byte-append n k (i + 1) s'
          ∙ ap (λ (j : ℕ). then_run (each_byte byte n (i + 1) s') (λ x. each_byte byte k j x))
              (omega arith))
        ∙ sym (then_run_assoc (byte i s) _ _))

    -- `size` is the size of a page.
    module _ (size : ℕ) (is_page : size ≡ page_size) (page : ℕ → S → Run S) (addr len : ℕ)
        (small : len < 2 ^ 32)
        (whole_page : (i : ℕ) (s : S)
          → u64 (addr + i) % page_size ≡ 0
          → i + page_size < len
          → page i s ≡ each_byte byte size i s) where
      pub copy_loop-each_byte :
          (fuel n i : ℕ) (s : S)
          → len ≡ i + n
          → n ≤ fuel
          → copy_loop fuel byte page addr len i s ≡ each_byte byte n i s
      unfolding copy_loop
      copy_loop-each_byte zero n i s e h =
          let done_all : n ≡ 0 = omega (arith, h) in
          let over : ltb i len ≡ false = ground (arith, e, done_all) in rw (over, done_all) refl
      copy_loop-each_byte (suc fuel) zero i s e h =
          let over : ltb i len ≡ false = ground (arith, e) in rw over refl
      copy_loop-each_byte (suc fuel) (suc n) i s e h =
          rw (lt→ltb i len (omega (arith, e)))
            (elim (Bool-cases (u64 (addr + i) % page_size == 0 && ltb (i + page_size) len)) [
              | inl whole ↦
                  let (aligned, inside) =
                    both_hold (u64 (addr + i) % page_size) (i + page_size) len whole in
                  let r = suc n - size in
                  let split : suc n ≡ size + r = omega (arith, inside, e, is_page) in
                  let shift : (i + page_size) % 2 ^ 32 ≡ i + size =
                    omega (arith, is_page, inside, small) in
                  rw whole (
                    then_run_same (page i s) _ _ (λ s'.
                      ap (λ (j : ℕ). copy_loop fuel byte page addr len j s') shift
                      ∙ copy_loop-each_byte fuel r (i + size) s' (omega (arith, e, split, is_page))
                          (omega (arith, h, split, is_page)))
                    ∙ ap (λ (o : Run S). then_run o (λ s'. each_byte byte r (i + size) s'))
                        (whole_page i s aligned inside)
                    ∙ sym (each_byte-append size r i s)
                    ∙ ap (λ (k : ℕ). each_byte byte k i s) (sym split))
              | inr single ↦
                  let shift : (i + 1) % 2 ^ 32 ≡ i + 1 = omega (arith, e, small) in
                  rw single (
                    then_run_same (byte i s) _ _ (λ s'.
                      ap (λ (j : ℕ). copy_loop fuel byte page addr len j s') shift
                      ∙ copy_loop-each_byte fuel n (i + 1) s' (omega (arith, e))
                          (omega (arith, h))))
            ])
