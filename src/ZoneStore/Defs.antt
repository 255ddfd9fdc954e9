-- ===== src/ZoneStore/Defs.antt =====
-- `ZoneStore` and its methods, with the exceptions in the order in which the code raises them.
use counter_cruiser.Prelude.{
  ℕ, zero, suc, ◌+◌, ◌==◌, Bool, true, false, not, Option, none, some, List, [], ◌∷◌, ◌++◌, any,
  String, str_eq, ℤ, if◌then◌else◌, Result, ok, err, version_conflict, zone_not_found, value_error,
  os_error, raise_if,
}
use counter_cruiser.Zone.{Zone, make_zone, zone_eq}

-- tomlkit over the text of a file. `set_wrapped` sets `zones` in the table `counter_cruiser` of a
-- document that has it, `set_top` at the top of the document.
pub record Toml : Type 1 where
  pub Text : Type 0
  pub Doc : Type 0
  pub is_empty : Text → Bool
  pub load : Text → Result Doc
  pub document : Doc
  pub has_wrapper : Doc → Bool
  pub set_wrapped : List Zone → Doc → Doc
  pub set_top : List Zone → Doc → Doc
  pub dumps : Doc → Text

-- How a write goes: making the temporary file fails, or writing or renaming it fails and its
-- removal succeeds or not, or the file is replaced and has a new modification time.
pub data Disk : Type 0 where
  no_temp : Disk
  write_fails : Bool → Disk
  replaced : ℕ → Disk

pub record ConfigFile (Text : Type 0) : Type 0 where
  pub content : Text
  pub mtime : ℕ

-- `settings.zones`, the file at `config_path` if there is one, and the temporary files beside it.
pub record Store (Text : Type 0) : Type 0 where
  pub zones : List Zone
  pub file : Option (ConfigFile Text)
  pub temp_files : ℕ

-- `list.index` and `list.remove`; an absent item is a `ValueError`.
abbrev pub index_from : ℕ → Zone → List Zone → Result ℕ
index_from i z [] = err value_error
index_from i z (y ∷ ys) = if zone_eq y z then ok i else index_from (suc i) z ys

abbrev pub set_at : List Zone → ℕ → Zone → List Zone
set_at [] i v = []
set_at (z ∷ zs) zero v = v ∷ zs
set_at (z ∷ zs) (suc i) v = z ∷ set_at zs i v

abbrev pub cons_ok : Zone → Result (List Zone) → Result (List Zone)
cons_ok z (ok zs) = ok (z ∷ zs)
cons_ok z (err e) = err e

abbrev pub remove : Zone → List Zone → Result (List Zone)
remove z [] = err value_error
remove z (y ∷ ys) = if zone_eq y z then ok ys else cons_ok y (remove z ys)

unfoldable pub find : String → List Zone → Result Zone
find zone_id [] = err zone_not_found
find zone_id (z ∷ zs) = if str_eq z.id zone_id then ok z else find zone_id zs

-- The value given, or the one that is there.
abbrev pub or_old {ℓ} : {A : Type ℓ} → Option A → A → A
or_old none old = old
or_old (some new) old = new

-- The version in a request is `none` if it is anything but a natural number.
abbrev pub same_version : Option ℕ → ℕ → Bool
same_version none current = false
same_version (some version) current = version == current

module _ (T : Toml) where
  open T use {Text, Doc, is_empty, load, document, has_wrapper, set_wrapped, set_top, dumps}

  -- A method returns or raises, and leaves the store as it is then.
  abbrev pub Method : Type 0 → Type 0
  Method A = Store Text → Result A × Store Text

  unfoldable pub current_version : Store Text → Result ℕ
  current_version s = elim s.file [ none ↦ err os_error | some f ↦ ok f.mtime ]

  abbrev with_version : List Zone → Result ℕ → Result (List Zone × ℕ)
  with_version zones (ok version) = ok (zones, version)
  with_version zones (err e) = err e

  unfoldable pub list_zones : Store Text → Result (List Zone × ℕ)
  unfolding current_version
  list_zones s = with_version s.zones (current_version s)

  abbrev checked : Option ℕ → Result ℕ → Result (Unit {0})
  checked version (ok current) = raise_if (not (same_version version current)) version_conflict
  checked version (err e) = err e

  unfoldable pub check_version : Option ℕ → Store Text → Result (Unit {0})
  unfolding current_version
  check_version version s = checked version (current_version s)

  unfoldable pub load_document : Option (ConfigFile Text) → Result Doc
  load_document none = ok document
  load_document (some f) = if is_empty f.content then ok document else load f.content

  unfoldable pub with_zones : List Zone → Doc → Doc
  with_zones zones doc = if has_wrapper doc then set_wrapped zones doc else set_top zones doc

  -- From `mkstemp` on. A failed write removes the temporary file and raises again.
  unfoldable pub replace_file : Disk → Text → Method (Unit {0})
  replace_file no_temp text s = (err os_error, s)
  replace_file (write_fails true) text s = (err os_error, s)
  replace_file (write_fails false) text s =
      (err os_error, record s { temp_files = s.temp_files + 1 })
  replace_file (replaced mtime) text s =
      (ok tt, record s { file = some (record { content = text; mtime = mtime }) })

  abbrev write_document : Disk → List Zone → Result Doc → Method (Unit {0})
  write_document disk zones (err e) s = (err e, s)
  write_document disk zones (ok doc) s = replace_file disk (dumps (with_zones zones doc)) s

  unfoldable pub write_toml : Disk → Method (Unit {0})
  unfolding load_document with_zones replace_file
  write_toml disk s = write_document disk s.zones (load_document s.file) s

  -- A step that may raise, before anything is changed.
  abbrev pub before : {A : Type 0} → Result A → (A → Method (Unit {0})) → Method (Unit {0})
  before (ok a) k s = k a s
  before (err e) k s = (err e, s)

  unfoldable pub create_zone : Disk → Zone → Option ℕ → Method (Unit {0})
  unfolding check_version write_toml
  create_zone disk zone version s =
      before (check_version version s)
        (λ _.
          before (raise_if (any (λ z. str_eq z.id zone.id) s.zones) value_error)
            (λ _ s'. write_toml disk (record s' { zones = s'.zones ++ zone ∷ [] })))
        s

  unfoldable pub edit_zone :
      Disk
      → String
      → Option ℕ
      → Option String
      → Option (List (ℤ × ℤ))
      → Option Bool
      → Method (Unit {0})
  unfolding check_version write_toml find make_zone
  edit_zone disk zone_id version name polygon enabled s =
      before (check_version version s)
        (λ _. before (find zone_id s.zones) (λ existing.
          before
            (make_zone existing.id (or_old name existing.name) (or_old enabled existing.enabled)
              (or_old polygon existing.polygon))
            (λ updated.
              before (index_from 0 existing s.zones)
                (λ idx s'. write_toml disk (record s' { zones = set_at s'.zones idx updated })))))
        s

  unfoldable pub delete_zone : Disk → String → Option ℕ → Method (Unit {0})
  unfolding check_version write_toml find
  delete_zone disk zone_id version s =
      before (check_version version s)
        (λ _. before (find zone_id s.zones) (λ existing.
          before (remove existing s.zones)
            (λ zones s'. write_toml disk (record s' { zones = zones }))))
        s
