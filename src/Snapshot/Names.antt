-- ===== src/Snapshot/Names.antt =====
-- The names of the files of a directory, when files are added and removed and names are sorted.
use counter_cruiser.Prelude.{
  ◌≡◌, refl, sym, ap, ◌∙◌, inl, inr, false, not, ◌||◌, List, [], ◌∷◌, map, keep_if, String, str_eq,
  eq_iff, eq_refl, str_le, str_le_total, str_le_trans, insert, contains, sorted_by,
  keep_if-sorted_by, insert_by, arith, Bool-cases,
}
use counter_cruiser.Snapshot.Defs.{remove}

-- No name stands twice.
abbrev pub Distinct : List String → Type 0
Distinct [] = Unit
Distinct (x ∷ xs) = (contains x xs ≡ false) × Distinct xs

abbrev pub names : {Content : Type 0} → List (String × Content) → List String
names files = map (λ f. f.0) files

module _ {Content : Type 0} where
  pub names-remove :
      (name : String) (files : List (String × Content))
      → names (remove name files) ≡ keep_if (λ x. not (str_eq name x)) (names files)
  names-remove name [] = refl
  names-remove name (f ∷ files) = ground (arith, names-remove name files)

  pub contains-insert :
      (k name : String) (v : Content) (files : List (String × Content))
      → contains k (names (insert name v files)) ≡ (str_eq name k || contains k (names files))
  contains-insert k name v [] = refl
  contains-insert k name v (f ∷ files) =
      ground (arith, eq_iff f.0 name, contains-insert k name v files)

  pub insert-Distinct :
      (name : String) (v : Content) (files : List (String × Content))
      → Distinct (names files)
      → Distinct (names (insert name v files))
  insert-Distinct name v [] h = (refl, tt)
  insert-Distinct name v (f ∷ files) h = elim (Bool-cases (str_eq f.0 name)) [
    | inl e ↦ rw e h
    | inr e ↦ rw e (
      ground (arith, contains-insert f.0 name v files, eq_iff name f.0, eq_iff f.0 name),
      insert-Distinct name v files h.1,
    )
  ]

contains-insert_by :
    (k x : String) (ys : List String)
    → contains k (insert_by str_le x ys) ≡ (str_eq x k || contains k ys)
contains-insert_by k x [] = refl
contains-insert_by k x (y ∷ ys) = ground (arith, contains-insert_by k x ys)

contains-sorted : (k : String) (xs : List String) → contains k (sorted_by str_le xs) ≡ contains k xs
contains-sorted k [] = refl
contains-sorted k (x ∷ xs) =
    contains-insert_by k x (sorted_by str_le xs) ∙ ap (λ b. str_eq x k || b) (contains-sorted k xs)

insert_by-Distinct :
    (x : String) (ys : List String)
    → contains x ys ≡ false
    → Distinct ys
    → Distinct (insert_by str_le x ys)
insert_by-Distinct x [] h d = (refl, tt)
insert_by-Distinct x (y ∷ ys) h d =
    ground (arith, contains-insert_by y x ys, insert_by-Distinct x ys, eq_iff x y, eq_iff y x)

pub sorted-Distinct : (xs : List String) → Distinct xs → Distinct (sorted_by str_le xs)
sorted-Distinct [] d = tt
sorted-Distinct (x ∷ xs) d =
    insert_by-Distinct x (sorted_by str_le xs) (contains-sorted x xs ∙ d.0) (sorted-Distinct xs d.1)

keep_others :
    (x : String) (ys : List String)
    → contains x ys ≡ false
    → keep_if (λ y. not (str_eq x y)) ys ≡ ys
keep_others x [] h = refl
keep_others x (y ∷ ys) h = ground (arith, keep_others x ys, eq_iff x y, eq_iff y x)

remove_first :
    (y : String) (ys : List String)
    → contains y ys ≡ false
    → keep_if (λ x. not (str_eq y x)) (y ∷ ys) ≡ ys
remove_first y ys h = ground (arith, keep_others y ys h, eq_refl y)

-- Removing the first image by name leaves the others, in order.
pub sorted-remove :
    {Image : Type 0} (y : String) (ys : List String) (files : List (String × Image))
    → sorted_by str_le (names files) ≡ y ∷ ys
    → contains y ys ≡ false
    → sorted_by str_le (names (remove y files)) ≡ ys
sorted-remove y ys files s free =
    ap (sorted_by str_le) (names-remove y files)
    ∙ sym (keep_if-sorted_by str_le str_le_total str_le_trans (λ x. not (str_eq y x)) (names files))
    ∙ ap (keep_if (λ x. not (str_eq y x))) s
    ∙ remove_first y ys free
