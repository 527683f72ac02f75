-- ===== src/Kernel/Scheduler/Best.antt =====
-- popBest of switch-emu/src/hle/kernel/scheduler.cpp takes the first of the threads with the lowest
-- priority value.
use mathlib.Core.List.{append_assoc, append-nil}
use switch_emu_pub.Base.{
  ℕ, ◌+◌, ◌<◌, ◌≤◌, ◌≡◌, ◌≢◌, ◌⊎◌, inl, inr, ltb, ltb→lt, ◌==◌, test_apart, true, false, not, ◌&&◌,
  Bool-cases, List, [], ◌∷◌, ◌++◌, length, length-append, Contains, Each, nil, ◌▸◌, Each-map,
  Each-append, Option, none, some, refl, sym, ap, ◌∙◌, subst, arith,
}
use switch_emu_pub.Kernel.Scheduler.{best_from, take_at, handle_at, erase_at, pop_best}

module _ (priority : ℕ → ℕ) (min : ℕ) where
  -- The thread at position `i`, of priority `p`, is the first of the best threads of a list.
  pub record BestAt (list : List ℕ) (i p : ℕ) : Type 0 where
    pub before : List ℕ
    pub best : ℕ
    pub after : List ℕ
    pub split : list ≡ before ++ (best ∷ after)
    pub place : i ≡ length before
    pub valid : best ≢ 0
    pub worth : p ≡ priority best
    pub under : p < min
    pub earlier : Each (λ x. (x ≡ 0) ⊎ (p < priority x)) before
    pub later : Each (λ x. (x ≡ 0) ⊎ (p ≤ priority x)) after

  -- No thread of the list comes under the bound.
  abbrev pub NoneUnder : List ℕ → Type 0
  NoneUnder list = Each (λ x. (x ≡ 0) ⊎ (min ≤ priority x)) list

  abbrev Found : List ℕ → Option ℕ → ℕ → Type 0
  Found list none p = (p ≡ min) × NoneUnder list
  Found list (some i) p = BestAt list i p

Each-join : {P : ℕ → Type 0} (xs ys : List ℕ) → Each P xs → Each P ys → Each P (xs ++ ys)
Each-join [] ys nil q = q
Each-join (x ∷ xs) ys (p ▸ ps) q = p ▸ Each-join xs ys ps q

handle_at_split :
    (before after : List ℕ) (best : ℕ) → handle_at (before ++ (best ∷ after)) (length before) ≡ best
handle_at_split [] after best = refl
handle_at_split (x ∷ before) after best = handle_at_split before after best

erase_at_split :
    (before after : List ℕ) (best : ℕ)
    → erase_at (before ++ (best ∷ after)) (length before) ≡ before ++ after
erase_at_split [] after best = refl
erase_at_split (x ∷ before) after best =
    ap (λ (t : List ℕ). x ∷ t) (erase_at_split before after best)

-- The test of the loop.
better_test : (h p q : ℕ) → (not (h == 0) && ltb q p) ≡ true → (h ≢ 0) × (q < p)
better_test h p q e = elim (Bool-cases (h == 0)) [
  | inl zero_handle ↦ cc (rw zero_handle at e)
  | inr valid ↦ (test_apart h 0 valid, ltb→lt q p (rw valid at e))
]

worse_test : (h p q : ℕ) → (not (h == 0) && ltb q p) ≡ false → (h ≡ 0) ⊎ (p ≤ q)
worse_test h p q e = ground arith

module _ (priority : ℕ → ℕ) (min : ℕ) where
  take_better :
      (pre : List ℕ) (i p h : ℕ) (best : Option ℕ)
      → Found priority min pre best p
      → i ≡ length pre
      → h ≢ 0
      → priority h < p
      → BestAt priority min (pre ++ (h ∷ [])) i (priority h)
  take_better pre i p h none (e, none_under) place valid lower = record {
    before = pre;
    best = h;
    after = [];
    split = refl;
    place = place;
    valid = valid;
    worth = refl;
    under = omega (arith, e, lower);
    earlier = Each-map (λ x d. ground (arith, d, e, lower)) none_under;
    later = nil;
  }
  take_better pre i p h (some j) b place valid lower = record {
    before = pre;
    best = h;
    after = [];
    split = refl;
    place = place;
    valid = valid;
    worth = refl;
    under = omega (arith, b.under, lower);
    earlier = rw b.split (
        Each-join b.before (b.best ∷ b.after) (Each-map (λ x d. ground (arith, d, lower)) b.earlier)
          (inr (omega (arith, b.worth, lower))
            ▸ Each-map (λ x d. ground (arith, d, lower)) b.later));
    later = nil;
  }

  keep_best :
      (pre : List ℕ) (p h : ℕ) (best : Option ℕ)
      → Found priority min pre best p
      → (h ≡ 0) ⊎ (p ≤ priority h)
      → Found priority min (pre ++ (h ∷ [])) best p
  keep_best pre p h none (e, none_under) worse =
      (e, Each-append pre h none_under (ground (arith, worse, e)))
  keep_best pre p h (some j) b worse = record {
    before = b.before;
    best = b.best;
    after = b.after ++ (h ∷ []);
    split =
        ap (λ (t : List ℕ). t ++ (h ∷ [])) b.split
        ∙ append_assoc b.before (b.best ∷ b.after) (h ∷ []);
    place = b.place;
    valid = b.valid;
    worth = b.worth;
    under = b.under;
    earlier = b.earlier;
    later = Each-append b.after h b.later worse;
  }

  best_from_finds :
      (pre rest : List ℕ) (i p : ℕ) (best : Option ℕ)
      → Found priority min pre best p
      → i ≡ length pre
      → (q : ℕ) × Found priority min (pre ++ rest) (best_from priority rest i best p) q
  unfolding best_from
  best_from_finds pre [] i p best found place =
      (p, subst (λ (t : List ℕ). Found priority min t best p) (sym (append-nil pre)) found)
  best_from_finds pre (h ∷ rest) i p best found place =
      let next_place : i + 1 ≡ length (pre ++ (h ∷ [])) =
        omega (arith, place, length-append pre (h ∷ [])) in
      let shape = append_assoc pre (h ∷ []) rest in
      elim (Bool-cases (not (h == 0) && ltb (priority h) p)) [
        | inl better ↦
            let (valid, lower) = better_test h p (priority h) better in
            let (q, result) =
              best_from_finds (pre ++ (h ∷ [])) rest (i + 1) (priority h) (some i)
                (take_better pre i p h best found place valid lower) next_place in
            rw better (
              q,
              subst
                  (λ (t : List ℕ).
                    Found priority min t (best_from priority rest (i + 1) (some i) (priority h)) q)
                  shape result,
            )
        | inr worse ↦
            let (q, result) =
              best_from_finds (pre ++ (h ∷ [])) rest (i + 1) p best
                (keep_best pre p h best found (worse_test h p (priority h) worse)) next_place in
            rw worse (
              q,
              subst
                  (λ (t : List ℕ). Found priority min t (best_from priority rest (i + 1) best p) q)
                  shape result,
            )
      ]

  -- popBest either returns the invalid handle and the list as it was, when no valid handle of the
  -- list has a priority value under the bound, or takes out the first valid handle whose value is
  -- the lowest of the list and under the bound, with the other handles left in order.
  pub pop_best-BestAt :
      (list : List ℕ)
      → (NoneUnder priority min list × (pop_best priority list min ≡ (0, list)))
        ⊎ ((i : ℕ) × (p : ℕ) × (b : BestAt priority min list i p) × (pop_best priority list min
              ≡ (b.best, b.before ++ b.after)))
  unfolding pop_best
  pop_best-BestAt list =
      let (q, found) = best_from_finds [] list 0 min none (refl, nil) refl in
      popped q (best_from priority list 0 none min) found
    where
      popped :
          (q : ℕ) (o : Option ℕ)
          → Found priority min list o q
          → (NoneUnder priority min list × (take_at list o ≡ (0, list)))
            ⊎ ((i : ℕ) × (p : ℕ) × (b : BestAt priority min list i p) × (take_at list o
                  ≡ (b.best, b.before ++ b.after)))
      popped q none (e, none_under) = inl (none_under, refl)
      popped q (some i) b =
          let taken : handle_at list i ≡ b.best =
            ap (λ (l : List ℕ). handle_at l i) b.split
            ∙ ap (λ (j : ℕ). handle_at (b.before ++ (b.best ∷ b.after)) j) b.place
            ∙ handle_at_split b.before b.after b.best in
          let left : erase_at list i ≡ b.before ++ b.after =
            ap (λ (l : List ℕ). erase_at l i) b.split
            ∙ ap (λ (j : ℕ). erase_at (b.before ++ (b.best ∷ b.after)) j) b.place
            ∙ erase_at_split b.before b.after b.best in
          inr (i, q, b, rw (taken, left) refl)

  at_split : {P : ℕ → Type 0} (before after : List ℕ) (x : ℕ) → Each P (before ++ (x ∷ after)) → P x
  at_split [] after x (p ▸ ps) = p
  at_split (y ∷ before) after x (p ▸ ps) = at_split before after x ps

  pub pop_best-NoneUnder :
      (list : List ℕ) → NoneUnder priority min list → pop_best priority list min ≡ (0, list)
  pop_best-NoneUnder list none_under = elim (pop_best-BestAt list) [
    | inl (h, e) ↦ e
    | inr (i, p, b, e) ↦
        let bound =
          at_split b.before b.after b.best
            (subst (Each (λ x. (x ≡ 0) ⊎ (min ≤ priority x))) b.split none_under) in
        absurd (ground (arith, bound, b.valid, b.worth, b.under))
  ]

  member : {P : ℕ → Type 0} (x : ℕ) (list : List ℕ) → Contains x list → Each P list → P x
  member x [] inside held = elim inside [ ]
  member {P} x (y ∷ ys) (Contains.here e) (p ▸ ps) = subst P (sym e) p
  member x (y ∷ ys) (Contains.there c) (p ▸ ps) = member x ys c ps

  pub pop_best-Contains :
      (list : List ℕ) (x : ℕ)
      → Contains x list
      → x ≢ 0
      → priority x < min
      → (pop_best priority list min).0 ≢ 0
  pop_best-Contains list x inside valid under z = elim (pop_best-BestAt list) [
    | inl (none_under, e) ↦ absurd (ground (arith, member x list inside none_under, valid, under))
    | inr (i, p, b, e) ↦ b.valid (sym (ap (λ (r : ℕ × List ℕ). r.0) e) ∙ z)
  ]
