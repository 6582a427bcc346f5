-- ===== src/Contacts/Overlap.antt =====
-- Deletions of contacts that overlap, and such that do not.
use ikarin_bank.Prelude.{
  ℕ, ◌≡◌, ◌≢◌, refl, ◌∙◌, ◌||◌, Bool, true, false, List, [], ◌∷◌, ◌==◌, filter, arith,
}
use ikarin_bank.Contacts.{Contact, Book, ok, begin_delete_contact, end_delete_contact, is_other}

-- Two deletions, one begun when the other has ended.
unfoldable pub one_by_one : ℕ → ℕ → Book → Book
one_by_one i j b =
    end_delete_contact 0 (ok tt)
      (begin_delete_contact true j (end_delete_contact 0 (ok tt) (begin_delete_contact true i b)))

-- Two deletions, both begun before the first of them ends.
unfoldable pub overlapping : ℕ → ℕ → Book → Book
overlapping i j b =
    end_delete_contact 0 (ok tt)
      (end_delete_contact 1 (ok tt) (begin_delete_contact true j (begin_delete_contact true i b)))

-- Whether a list has a contact of an id.
unfoldable pub has : ℕ → List Contact → Bool
has i [] = false
has i (c ∷ cs) = c.id == i || has i cs

pub has-filter_same : (i : ℕ) (cs : List Contact) → has i (filter (is_other i) cs) ≡ false
unfolding has filter
has-filter_same i [] = refl
has-filter_same i (c ∷ cs) = ground (arith, has-filter_same i cs)

pub has-filter_other :
    (i j : ℕ) (cs : List Contact) → i ≢ j → has i (filter (is_other j) cs) ≡ has i cs
unfolding has filter
has-filter_other i j [] h = refl
has-filter_other i j (c ∷ cs) h = ground (arith, has-filter_other i j cs h)

-- Two contacts are deleted and the server grants both. When the second deletion begins after
-- the first has ended, the list has neither of them. When both have begun before one ends, the
-- list has the first one again, if it had it.
pub overlapping_lem :
    (i j : ℕ) (b : Book)
    → i ≢ j
    → (has i (one_by_one i j b).contacts ≡ false)
      × (has j (one_by_one i j b).contacts ≡ false)
      × (has j (overlapping i j b).contacts ≡ false)
      × (has i (overlapping i j b).contacts ≡ has i b.contacts)
unfolding one_by_one overlapping begin_delete_contact end_delete_contact
overlapping_lem i j b h = (
  has-filter_other i j (filter (is_other i) b.contacts) h ∙ has-filter_same i b.contacts,
  has-filter_same j (filter (is_other i) b.contacts),
  has-filter_same j b.contacts,
  has-filter_other i j b.contacts h,
)
