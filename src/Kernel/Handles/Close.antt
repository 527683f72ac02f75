-- ===== src/Kernel/Handles/Close.antt =====
-- closeHandle of handleManager.cpp.
use switch_emu_pub.Base.{
  ℕ, ◌≡◌, ◌≢◌, inl, inr, refl, sym, ◌∙◌, test_false, true, none, some, Option-cases,
}
use switch_emu_pub.Kernel.Handles.{
  u16, KHandleEntry, HandleManager, set_key, find_entry, erase_entry, lookup_object, close_handle,
}
use switch_emu_pub.Kernel.Handles.Table.{
  find_entry-erase_other, find_entry-missing, erase_entry-Each,
}
use switch_emu_pub.Kernel.Handles.Separate.{
  IsConsistent, Separate-erase, erase_entry-gone, found_alone, lookup-some, lookup-none,
}

module _ {A : Type 0} where
  module _ (handle : ℕ) (m : HandleManager A) (ok : IsConsistent m) where
    abbrev erased : KHandleEntry → HandleManager A
    erased e = record m {
      compressed_pointer_map = set_key m.compressed_pointer_map e.object_compressed_pointer none;
      handle_table = erase_entry (u16 handle) m.handle_table;
    }

    closed_run :
        (e : KHandleEntry)
        → find_entry (u16 handle) m.handle_table ≡ some e
        → close_handle handle m ≡ (true, erased e)
    unfolding close_handle
    closed_run e found = rw (close_handle, found) refl

    erased-IsConsistent : (e : KHandleEntry) → IsConsistent (erased e)
    erased-IsConsistent e = record {
      separate = Separate-erase (u16 handle) m.handle_table ok.separate;
      below = erase_entry-Each (u16 handle) m.handle_table ok.below;
      room = ok.room;
      behind = ok.behind;
    }

    erased_others :
        (e : KHandleEntry) (other : ℕ)
        → find_entry (u16 handle) m.handle_table ≡ some e
        → u16 other ≢ u16 handle
        → lookup_object other (erased e) ≡ lookup_object other m
    erased_others e other found h =
        let kept =
          find_entry-erase_other (u16 other) (u16 handle) m.handle_table (λ z. h (sym z)) in
        elim (Option-cases (find_entry (u16 other) m.handle_table)) [
          | inl missing ↦ lookup-none other _ (kept ∙ missing) ∙ sym (lookup-none other m missing)
          | inr (f, other_found) ↦
              let apart = test_false e.object_compressed_pointer f.object_compressed_pointer (λ z.
                found_alone (u16 handle) (u16 other) m.handle_table e f ok.separate found
                  other_found h (sym z)) in
              lookup-some other _ f (kept ∙ other_found)
              ∙ rw apart (sym (lookup-some other m f other_found))
        ]

    -- In a consistent table, closing a handle whose entry is found returns true, keeps the table
    -- consistent, makes the handle find nothing, and every handle with another 16-bit identifier
    -- finds what it did.
    pub close_handle_removes :
        (e : KHandleEntry)
        → find_entry (u16 handle) m.handle_table ≡ some e
        → (m' : HandleManager A) × (close_handle handle m ≡ (true, m'))
          × IsConsistent m'
          × (lookup_object handle m' ≡ none)
          × ((other : ℕ) → u16 other ≢ u16 handle → lookup_object other m' ≡ lookup_object other m)
    close_handle_removes e found = (
      erased e,
      closed_run e found,
      erased-IsConsistent e,
      lookup-none handle _ (
          find_entry-missing (u16 handle) (erase_entry (u16 handle) m.handle_table)
            (erase_entry-gone (u16 handle) m.handle_table ok.separate)),
      λ other h. erased_others e other found h,
    )
