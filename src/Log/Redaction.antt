-- ===== src/Log/Redaction.antt =====
-- What is left of the data that the logger is given.
use ikarin_bank.Prelude.{◌≡◌, refl, ap, true, Bool-cases, inl, inr, arith}
use ikarin_bank.Log.{
  Value, undefined, null, boolean, number, text, array, object, Items, no_items, item, Entries,
  no_entries, entry, is_sensitive, redacted, sanitize, sanitize_items, sanitize_entries,
  sanitize_data, index_items,
}

-- At any depth, an entry with a sensitive key holds the text that stands for hidden data.
unfoldable mutual
  pub IsClean : Value → Type 0
  IsClean (array items) = AreClean items
  IsClean (object entries) = EntriesAreClean entries
  IsClean undefined = Unit
  IsClean null = Unit
  IsClean (boolean b) = Unit
  IsClean (number n) = Unit
  IsClean (text s) = Unit

  pub AreClean : Items → Type 0
  AreClean no_items = Unit
  AreClean (item v items) = IsClean v × AreClean items

  pub EntriesAreClean : Entries → Type 0
  EntriesAreClean no_entries = Unit
  EntriesAreClean (entry key v entries) =
      (is_sensitive key ≡ true → v ≡ redacted) × IsClean v × EntriesAreClean entries

mutual
  unfolding IsClean AreClean EntriesAreClean sanitize sanitize_items sanitize_entries

  sanitize-IsClean : (v : Value) → IsClean (sanitize v)
  sanitize-IsClean (array items) = sanitize_items-AreClean items
  sanitize-IsClean (object entries) = sanitize_entries-EntriesAreClean entries
  sanitize-IsClean undefined = tt
  sanitize-IsClean null = tt
  sanitize-IsClean (boolean b) = tt
  sanitize-IsClean (number n) = tt
  sanitize-IsClean (text s) = tt

  sanitize_items-AreClean : (items : Items) → AreClean (sanitize_items items)
  sanitize_items-AreClean no_items = tt
  sanitize_items-AreClean (item v items) = (sanitize-IsClean v, sanitize_items-AreClean items)

  sanitize_entries-EntriesAreClean :
      (entries : Entries) → EntriesAreClean (sanitize_entries entries)
  sanitize_entries-EntriesAreClean no_entries = tt
  sanitize_entries-EntriesAreClean (entry key v entries) = elim (Bool-cases (is_sensitive key)) [
    | inl s ↦ rw s ((λ h. refl), tt, sanitize_entries-EntriesAreClean entries)
    | inr s ↦
        rw s ((λ h. ground arith), sanitize-IsClean v, sanitize_entries-EntriesAreClean entries)
  ]

-- What sanitizeData returns hides the value of every entry with a sensitive key, in objects and
-- arrays at any depth.
pub sanitize_data-IsClean : (v : Value) → IsClean (sanitize_data v)
unfolding sanitize_data IsClean
sanitize_data-IsClean (array items) = sanitize-IsClean (object (index_items 0 items))
sanitize_data-IsClean (object entries) = sanitize-IsClean (object entries)
sanitize_data-IsClean undefined = tt
sanitize_data-IsClean null = tt
sanitize_data-IsClean (boolean b) = tt
sanitize_data-IsClean (number n) = tt
sanitize_data-IsClean (text s) = tt

-- Clean data stays as it is.
mutual
  unfolding IsClean AreClean EntriesAreClean sanitize sanitize_items sanitize_entries

  sanitize_clean : (v : Value) → IsClean v → sanitize v ≡ v
  sanitize_clean (array items) c = ap array (sanitize_items_clean items c)
  sanitize_clean (object entries) c = ap object (sanitize_entries_clean entries c)
  sanitize_clean undefined c = refl
  sanitize_clean null c = refl
  sanitize_clean (boolean b) c = refl
  sanitize_clean (number n) c = refl
  sanitize_clean (text s) c = refl

  sanitize_items_clean : (items : Items) → AreClean items → sanitize_items items ≡ items
  sanitize_items_clean no_items c = refl
  sanitize_items_clean (item v items) c =
      rw (sanitize_clean v c.0) (rw (sanitize_items_clean items c.1) refl)

  sanitize_entries_clean :
      (entries : Entries) → EntriesAreClean entries → sanitize_entries entries ≡ entries
  sanitize_entries_clean no_entries c = refl
  sanitize_entries_clean (entry key v entries) c = elim (Bool-cases (is_sensitive key)) [
    | inl s ↦ rw s (rw (c.0 s) (rw (sanitize_entries_clean entries c.2) refl))
    | inr s ↦ rw s (rw (sanitize_clean v c.1) (rw (sanitize_entries_clean entries c.2) refl))
  ]

sanitize_twice : (v : Value) → sanitize_data (sanitize_data v) ≡ sanitize_data v
unfolding sanitize_data sanitize
sanitize_twice (array items) =
    sanitize_clean (sanitize (object (index_items 0 items)))
      (sanitize-IsClean (object (index_items 0 items)))
sanitize_twice (object entries) =
    sanitize_clean (sanitize (object entries)) (sanitize-IsClean (object entries))
sanitize_twice undefined = refl
sanitize_twice null = refl
sanitize_twice (boolean b) = refl
sanitize_twice (number n) = refl
sanitize_twice (text s) = refl

-- Data without sensitive keys that hold anything comes back unchanged, unless it is an array, and
-- sanitizing twice is the same as sanitizing once.
sanitize_data_idem :
    (v : Value)
    → (sanitize_data (sanitize_data v) ≡ sanitize_data v)
      × ((entries : Entries)
          → IsClean (object entries)
          → sanitize_data (object entries) ≡ object entries)
unfolding sanitize_data
sanitize_data_idem v = (sanitize_twice v, λ entries c. sanitize_clean (object entries) c)
