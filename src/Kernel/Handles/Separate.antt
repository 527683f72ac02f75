-- ===== src/Kernel/Handles/Separate.antt =====
-- Tables of handleManager.cpp in which no identifier is met twice.
use switch_emu_pub.Base.{
  ℕ, ◌^◌, ◌<◌, ◌≤◌, ◌≡◌, ◌≢◌, inl, inr, refl, sym, ◌∙◌, ap, ◌==◌, ==_iff, test_false, Bool-cases,
  List, [], ◌∷◌, ◌++◌, Each, nil, ◌▸◌, Each-map, Each-append, test_apart, none, some, some_inj,
}
use switch_emu_pub.Kernel.Handles.{
  u16, KHandleEntry, HandleManager, find_entry, erase_entry, lookup_object,
}
use switch_emu_pub.Kernel.Handles.Table.{find_entry-Each, erase_entry-Each}

-- Neither the identifiers nor the compressed pointers of two entries agree.
abbrev pub Apart : KHandleEntry → KHandleEntry → Type 0
Apart e f =
    (f.handle_id ≢ e.handle_id) × (f.object_compressed_pointer ≢ e.object_compressed_pointer)

pub data Separate : List KHandleEntry → Type 0 where
  empty : Separate []
  add :
      {e : KHandleEntry} {es : List KHandleEntry}
      → Each (Apart e) es
      → Separate es
      → Separate (e ∷ es)

pub Separate-append :
    (table : List KHandleEntry) (entry : KHandleEntry)
    → Each (λ e. Apart e entry) table
    → Separate table
    → Separate (table ++ (entry ∷ []))
Separate-append [] entry nil empty = add nil empty
Separate-append (e ∷ es) entry (p ▸ ps) (add first rest) =
    add (Each-append es entry first p) (Separate-append es entry ps rest)

pub Separate-erase :
    (id : ℕ) (table : List KHandleEntry) → Separate table → Separate (erase_entry id table)
unfolding erase_entry
Separate-erase id [] empty = empty
Separate-erase id (e ∷ es) (add first rest) = elim (Bool-cases (e.handle_id == id)) [
  | inl t ↦ rw t rest
  | inr t ↦ rw t (add (erase_entry-Each id es first) (Separate-erase id es rest))
]

-- Once the entry of an identifier is erased, no entry has it.
pub erase_entry-gone :
    (id : ℕ) (table : List KHandleEntry)
    → Separate table
    → Each (λ e. e.handle_id ≢ id) (erase_entry id table)
unfolding erase_entry
erase_entry-gone id [] empty = nil
erase_entry-gone id (e ∷ es) (add first rest) = elim (Bool-cases (e.handle_id == id)) [
  | inl t ↦ rw t (Each-map (λ f apart z. apart.0 (z ∙ sym ((==_iff _ _).0 t))) first)
  | inr t ↦ rw t ((λ z. test_apart _ _ t z) ▸ erase_entry-gone id es rest)
]

-- The entry that is found is the only one with its compressed pointer.
pub found_alone :
    (id other : ℕ) (table : List KHandleEntry) (e f : KHandleEntry)
    → Separate table
    → find_entry id table ≡ some e
    → find_entry other table ≡ some f
    → other ≢ id
    → f.object_compressed_pointer ≢ e.object_compressed_pointer
unfolding find_entry
found_alone id other [] e f empty he hf h z = cc
found_alone id other (g ∷ gs) e f (add first rest) he hf h z =
    elim (Bool-cases (g.handle_id == id)) [
      | inl t ↦
          let is_g = some_inj (rw t at he) in
          let skipped = test_false g.handle_id other (λ y. h (sym y ∙ (==_iff _ _).0 t)) in
          (find_entry-Each other gs f first (rw skipped at hf)).0.1
            (z ∙ ap (λ (x : KHandleEntry). x.object_compressed_pointer) (sym is_g))
      | inr t ↦ elim (Bool-cases (g.handle_id == other)) [
        | inl u ↦
            let is_g = some_inj (rw u at hf) in
            (find_entry-Each id gs e first (rw t at he)).0.1
              (sym z ∙ ap (λ (x : KHandleEntry). x.object_compressed_pointer) (sym is_g))
        | inr u ↦ found_alone id other gs e f rest (rw t at he) (rw u at hf) h z
      ]
    ]

module _ {A : Type 0} where
  -- While handles are below 2 ^ 16.
  pub record IsConsistent (m : HandleManager A) : Type 0 where
    pub separate : Separate m.handle_table
    pub below :
        Each
          (λ e.
            (e.handle_id < m.handle_counter)
            × (e.object_compressed_pointer < m.compressed_pointer_counter))
          m.handle_table
    pub room : m.handle_counter ≤ 2 ^ 16
    pub behind : m.compressed_pointer_counter ≤ m.handle_counter

  pub lookup-some :
      (handle : ℕ) (m : HandleManager A) (e : KHandleEntry)
      → find_entry (u16 handle) m.handle_table ≡ some e
      → lookup_object handle m ≡ m.compressed_pointer_map e.object_compressed_pointer
  unfolding lookup_object
  lookup-some handle m e h = rw (lookup_object, h) refl

  pub lookup-none :
      (handle : ℕ) (m : HandleManager A)
      → find_entry (u16 handle) m.handle_table ≡ none
      → lookup_object handle m ≡ none
  unfolding lookup_object
  lookup-none handle m h = rw (lookup_object, h) refl
