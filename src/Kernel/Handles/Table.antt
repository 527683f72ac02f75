-- ===== src/Kernel/Handles/Table.antt =====
-- Searches in the table of handleManager.cpp.
use switch_emu_pub.Base.{
  ℕ, ◌≡◌, ◌≢◌, inl, inr, refl, sym, ◌∙◌, ap, ◌==◌, ==_iff, Bool-cases, List, [], ◌∷◌, ◌++◌, Each,
  nil, ◌▸◌, none, some, some_inj, subst, test_false,
}
use switch_emu_pub.Kernel.Handles.{KHandleEntry, find_entry, erase_entry}

-- What every entry has, the one that is found has.
pub find_entry-Each :
    {P : KHandleEntry → Type 0} (id : ℕ) (table : List KHandleEntry) (entry : KHandleEntry)
    → Each P table
    → find_entry id table ≡ some entry
    → P entry × (entry.handle_id ≡ id)
unfolding find_entry
find_entry-Each id [] entry nil e = cc
find_entry-Each {P = P} id (first ∷ rest) entry (p ▸ ps) e =
    elim (Bool-cases (first.handle_id == id)) [
      | inl t ↦
          let found = some_inj (rw t at e) in
          (subst P found p, ap (λ (x : KHandleEntry). x.handle_id) (sym found) ∙ (==_iff _ _).0 t)
      | inr t ↦ find_entry-Each id rest entry ps (rw t at e)
    ]

pub find_entry-append :
    (id : ℕ) (table : List KHandleEntry) (entry : KHandleEntry)
    → entry.handle_id ≢ id
    → find_entry id (table ++ (entry ∷ [])) ≡ find_entry id table
unfolding find_entry
find_entry-append id [] entry h = rw (test_false entry.handle_id id h) refl
find_entry-append id (first ∷ rest) entry h = rw (find_entry-append id rest entry h) refl

pub find_entry-append_new :
    (id : ℕ) (table : List KHandleEntry) (entry : KHandleEntry)
    → Each (λ old. old.handle_id ≢ id) table
    → entry.handle_id ≡ id
    → find_entry id (table ++ (entry ∷ [])) ≡ some entry
unfolding find_entry
find_entry-append_new id [] entry nil h = rw ((==_iff entry.handle_id id).1 h) refl
find_entry-append_new id (first ∷ rest) entry (p ▸ ps) h =
    rw (test_false first.handle_id id p, find_entry-append_new id rest entry ps h) refl

pub find_entry-erase_other :
    (id other : ℕ) (table : List KHandleEntry)
    → other ≢ id
    → find_entry id (erase_entry other table) ≡ find_entry id table
unfolding find_entry erase_entry
find_entry-erase_other id other [] h = refl
find_entry-erase_other id other (first ∷ rest) h = elim (Bool-cases (first.handle_id == other)) [
  | inl t ↦
      let apart = test_false first.handle_id id (λ e. h (sym ((==_iff _ _).0 t) ∙ e)) in
      rw (t, apart) refl
  | inr t ↦ rw (t, find_entry-erase_other id other rest h) refl
]

pub find_entry-missing :
    (id : ℕ) (table : List KHandleEntry)
    → Each (λ old. old.handle_id ≢ id) table
    → find_entry id table ≡ none
unfolding find_entry
find_entry-missing id [] nil = refl
find_entry-missing id (first ∷ rest) (p ▸ ps) =
    rw (test_false first.handle_id id p, find_entry-missing id rest ps) refl

pub erase_entry-Each :
    {P : KHandleEntry → Type 0} (id : ℕ) (table : List KHandleEntry)
    → Each P table
    → Each P (erase_entry id table)
unfolding erase_entry
erase_entry-Each id [] nil = nil
erase_entry-Each id (first ∷ rest) (p ▸ ps) = elim (Bool-cases (first.handle_id == id)) [
  | inl t ↦ rw t ps
  | inr t ↦ rw t (p ▸ erase_entry-Each id rest ps)
]

pub find_entry-append_found :
    (id : ℕ) (table : List KHandleEntry) (new found : KHandleEntry)
    → find_entry id table ≡ some found
    → find_entry id (table ++ (new ∷ [])) ≡ some found
unfolding find_entry
find_entry-append_found id [] new found h = cc
find_entry-append_found id (first ∷ rest) new found h = elim (Bool-cases (first.handle_id == id)) [
  | inl t ↦ rw t (rw t at h)
  | inr t ↦ rw t (find_entry-append_found id rest new found (rw t at h))
]
