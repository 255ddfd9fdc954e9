-- ===== src/Tests/Fixtures.antt =====
-- Concrete parameters and data: floats that are integers, polygons tested by the square from 0 to
-- 100, and a TOML document that is a list of zones with a flag for the wrapper table.
use counter_cruiser.Prelude.{
  refl, arith, Bool, true, false, ◌&&◌, none, some, List, [], ◌∷◌, ℤ, pos, negsuc, pos_part, leb_ℤ,
  ltb_ℤ, ◌*◌, Result, ok, Floats, if◌then◌else◌,
}
use counter_cruiser.Zone.{Zone, BoundingBox}
use counter_cruiser.Debounce.{FrameRecord}
use counter_cruiser.ZoneStore.Invariant.{WellFormed}
use counter_cruiser.ZoneStore.{Toml, Store}

abbrev pub floats : Floats
floats = record {
  Float = ℤ;
  of_int = λ n. n;
  div = λ x y. x;
  div_int = λ a b. a;
  mul = λ x y. pos (pos_part x * pos_part y);
  seconds = pos;
  lt = ltb_ℤ;
  le = leb_ℤ;
}

abbrev pub in_square : List (ℤ × ℤ) → ℤ × ℤ → ℤ
in_square polygon (x, y) =
    if (leb_ℤ (pos 0) x && leb_ℤ x (pos 100)) && (leb_ℤ (pos 0) y && leb_ℤ y (pos 100))
    then pos 1
    else negsuc 0

abbrev pub triangle : List (ℤ × ℤ)
triangle = (pos 0, pos 0) ∷ (pos 100, pos 0) ∷ (pos 100, pos 100) ∷ []

abbrev pub counter : Zone
counter = record { id = "counter"; name = "Counter"; enabled = true; polygon = triangle }

abbrev pub table : Zone
table = record { id = "table"; name = "Table"; enabled = false; polygon = triangle }

abbrev pub box : BoundingBox ℤ
box = record {
  x1 = pos 10;
  y1 = pos 20;
  x2 = pos 30;
  y2 = pos 90;
  confidence = pos 7;
  class_id = pos 16;
  class_name = "dog";
}

abbrev pub seen : ℤ → Bool → FrameRecord
seen frame_id is_elevated = record { frame_id = frame_id; is_elevated = is_elevated }

-- The flag says that the zones are in the wrapper table.
abbrev pub toml : Toml
toml = record {
  Text = Bool × List Zone;
  Doc = Bool × List Zone;
  is_empty = λ text. false;
  load = λ text. ok text;
  document = (false, []);
  has_wrapper = λ doc. doc.0;
  set_wrapped = λ zones doc. (true, zones);
  set_top = λ zones doc. (false, zones);
  dumps = λ doc. doc;
}

abbrev pub read_zones : Bool × List Zone → Result (List Zone)
read_zones text = ok text.1

abbrev pub store : Store (Bool × List Zone)
store = record {
  zones = counter ∷ table ∷ [];
  file = some (record { content = (true, counter ∷ table ∷ []); mtime = 5 });
  temp_files = 0;
}

pub store-WellFormed : WellFormed (counter ∷ table ∷ [])
store-WellFormed = record { valid = ground arith; unique = (refl, (refl, tt)) }

abbrev pub no_file : Store (Bool × List Zone)
no_file = record { zones = counter ∷ []; file = none; temp_files = 0 }
