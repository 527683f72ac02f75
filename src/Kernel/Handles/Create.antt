-- ===== src/Kernel/Handles/Create.antt =====
-- createHandle of handleManager.cpp, while its 16-bit identifiers last and after.
use switch_emu_pub.Base.{
  ℕ, ◌^◌, ◌<◌, ◌≡◌, ◌≢◌, inl, inr, refl, sym, ◌∙◌, ==_iff, test_false, Each-map, Each-append, some,
  Option-cases, arith,
}
use switch_emu_pub.Kernel.Handles.{
  u16, KHandleEntry, HandleManager, create_handle, find_entry, lookup_object,
}
use switch_emu_pub.Kernel.Handles.Table.{
  find_entry-Each, find_entry-append, find_entry-append_new, find_entry-append_found,
}
use switch_emu_pub.Kernel.Handles.Separate.{IsConsistent, Separate-append, lookup-some, lookup-none}

module _ {A : Type 0} where
  module _ (get_type : A → ℕ) (object : A) (m : HandleManager A) (ok : IsConsistent m)
      (more : m.handle_counter < 2 ^ 16) where
    small : u16 m.handle_counter ≡ m.handle_counter
    small = omega (arith, more)

    abbrev new : KHandleEntry
    new = record {
      handle_id = u16 m.handle_counter;
      object_compressed_pointer = m.compressed_pointer_counter;
      object_type = get_type object;
    }

    created-IsConsistent : IsConsistent (create_handle get_type object m).1
    unfolding create_handle
    created-IsConsistent = record {
      separate =
          Separate-append m.handle_table new
            (Each-map (λ e b. ((λ z. omega (arith, small, b.0, z)), (λ z. omega (arith, b.1, z))))
              ok.below)
            ok.separate;
      below =
          Each-append m.handle_table new
            (Each-map (λ e b. (omega (arith, b.0, more), omega (arith, b.1, ok.behind, more)))
              ok.below)
            (omega (arith, small, more), omega (arith, ok.behind, more));
      room = omega (arith, more);
      behind = omega (arith, more, ok.behind);
    }

    created_found : lookup_object m.handle_counter (create_handle get_type object m).1 ≡ some object
    unfolding create_handle
    created_found =
        lookup-some m.handle_counter _ new (
          find_entry-append_new (u16 m.handle_counter) m.handle_table new
            (Each-map (λ e b z. omega (arith, small, b.0, z)) ok.below) refl)
        ∙ rw ((==_iff m.compressed_pointer_counter m.compressed_pointer_counter).1 refl) refl

    created_others :
        (other : ℕ)
        → u16 other ≢ m.handle_counter
        → lookup_object other (create_handle get_type object m).1 ≡ lookup_object other m
    unfolding create_handle
    created_others other h =
        let kept = find_entry-append (u16 other) m.handle_table new (λ z. h (sym z ∙ small)) in
        elim (Option-cases (find_entry (u16 other) m.handle_table)) [
          | inl missing ↦ lookup-none other _ (kept ∙ missing) ∙ sym (lookup-none other m missing)
          | inr (e, found) ↦
              let fresh = (find_entry-Each (u16 other) m.handle_table e ok.below found).0.1 in
              let apart =
                test_false m.compressed_pointer_counter e.object_compressed_pointer
                  (λ z. omega (arith, fresh, z)) in
              lookup-some other _ e (kept ∙ found) ∙ rw apart (sym (lookup-some other m e found))
        ]

    -- In a consistent table whose counter is below 2 ^ 16, creating a handle keeps the table
    -- consistent, the new handle finds the new object, and every handle with another 16-bit
    -- identifier finds what it did.
    pub create_handle_adds :
        IsConsistent (create_handle get_type object m).1
        × (lookup_object (create_handle get_type object m).0 (create_handle get_type object m).1
            ≡ some object)
        × ((other : ℕ)
            → u16 other ≢ (create_handle get_type object m).0
            → lookup_object other (create_handle get_type object m).1 ≡ lookup_object other m)
    unfolding create_handle
    create_handle_adds = (created-IsConsistent, created_found, created_others)

  -- If an entry with the identifier of the counter is still in the table, and its compressed
  -- pointer is not the next one, then the handle that is returned for the new object finds what
  -- the counter found before.
  pub create_handle_aliases :
      (get_type : A → ℕ) (object : A) (m : HandleManager A) (old : KHandleEntry)
      → find_entry (u16 m.handle_counter) m.handle_table ≡ some old
      → old.object_compressed_pointer ≢ m.compressed_pointer_counter
      → lookup_object (create_handle get_type object m).0 (create_handle get_type object m).1
        ≡ lookup_object m.handle_counter m
  unfolding create_handle
  create_handle_aliases get_type object m old found apart =
      let fresh =
        test_false m.compressed_pointer_counter old.object_compressed_pointer
          (λ z. apart (sym z)) in
      lookup-some m.handle_counter _ old
        (find_entry-append_found (u16 m.handle_counter) _ _ old found)
      ∙ rw fresh (sym (lookup-some m.handle_counter m old found))
