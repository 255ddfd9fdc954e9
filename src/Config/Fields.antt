-- ===== src/Config/Fields.antt =====
-- The fields that the loader reads from a text in which zones were set.
use counter_cruiser.Prelude.{
  ◌≡◌, ap, ◌∙◌, sym, inl, inr, Bool, true, false, none, some, List, map, All, ok, ok_injective,
  Bool-cases, Result-cases, Floats, arith,
}
use counter_cruiser.Zone.{Zone, IsValid}
use counter_cruiser.Settings.{ZoneFields, ClientFields}
use counter_cruiser.ZoneStore.{Toml, ConfigFile, load_document, with_zones}
use counter_cruiser.Config.{Loading, fields_in, load_toml}

-- The fields that the table of a zone gives.
abbrev pub fields_of_zone : Zone → ZoneFields
fields_of_zone z = record {
  id = some z.id;
  name = some z.name;
  enabled = some z.enabled;
  polygon = some z.polygon;
}

module _ (T : Toml) (F : Floats) (L : Loading T.Text F.Float) where
  open T use {Text, Doc, is_empty, load, document, dumps, has_wrapper, set_wrapped, set_top}
  open F use {Float}
  open L use {Raw, parse, wrapper, client_fields}

  -- The document that tomlkit has for a text.
  abbrev pub Loads : Bool → Text → Doc → Type 0
  Loads true text d = document ≡ d
  Loads false text d = load text ≡ ok d

  -- What the loader's libraries do beside tomlkit. tomllib has for a text that tomlkit wrote with other zones
  -- the table it had before with these zones at the top, or in the wrapper table, and finds a wrapper table
  -- where tomlkit does; setting the zones at the top of a table adds no wrapper. Of a table whose fields
  -- pydantic accepts, the one with other valid zones has these zones and otherwise the same fields.
  pub record KeepsFields : Type 0 where
    pub at_top : List Zone → Raw → Raw
    pub in_wrapper : List Zone → Raw → Raw
    pub writes_top :
        (text : Text) (d : Doc) (raw : Raw) (zones : List Zone)
        → Loads (is_empty text) text d
        → parse text ≡ ok raw
        → has_wrapper d ≡ false
        → parse (dumps (set_top zones d)) ≡ ok (at_top zones raw)
    pub writes_wrapped :
        (text : Text) (d : Doc) (raw : Raw) (zones : List Zone)
        → Loads (is_empty text) text d
        → parse text ≡ ok raw
        → has_wrapper d ≡ true
        → parse (dumps (set_wrapped zones d)) ≡ ok (in_wrapper zones raw)
    pub plain :
        (text : Text) (d : Doc) (raw : Raw)
        → Loads (is_empty text) text d
        → parse text ≡ ok raw
        → has_wrapper d ≡ false
        → wrapper raw ≡ none
    pub with_wrapper :
        (text : Text) (d : Doc) (raw : Raw)
        → Loads (is_empty text) text d
        → parse text ≡ ok raw
        → has_wrapper d ≡ true
        → (table : Raw) × (wrapper raw ≡ some table)
    pub wrapper-at_top :
        (raw : Raw) (zones : List Zone) → wrapper raw ≡ none → wrapper (at_top zones raw) ≡ none
    pub wrapper-in_wrapper :
        (raw table : Raw) (zones : List Zone)
        → wrapper raw ≡ some table
        → wrapper (in_wrapper zones raw) ≡ some (at_top zones table)
    pub fields-at_top :
        (table : Raw) (f : ClientFields Float) (zones : List Zone)
        → client_fields table ≡ ok f
        → All IsValid zones
        → client_fields (at_top zones table)
          ≡ ok (record f { zones = some (map fields_of_zone zones) })

  load_document-Loads :
      (file : ConfigFile Text) (d : Doc)
      → load_document T (some file) ≡ ok d
      → Loads (is_empty file.content) file.content d
  unfolding load_document
  load_document-Loads file d h = elim (Bool-cases (is_empty file.content)) [
    | inl nothing ↦ rw nothing (ok_injective (rw nothing at h))
    | inr something ↦ rw something (rw something at h)
  ]

  -- The fields of a text without a wrapper table, and of one with.
  fields_in-plain :
      (text : Text) (raw : Raw)
      → parse text ≡ ok raw
      → wrapper raw ≡ none
      → fields_in F L (some text) ≡ client_fields raw
  unfolding fields_in load_toml
  fields_in-plain text raw h w =
      rw h (ap (λ o. client_fields (elim o [ none ↦ raw | some t ↦ t ])) w)

  fields_in-wrapped :
      (text : Text) (raw table : Raw)
      → parse text ≡ ok raw
      → wrapper raw ≡ some table
      → fields_in F L (some text) ≡ client_fields table
  unfolding fields_in load_toml
  fields_in-wrapped text raw table h w =
      rw h (ap (λ o. client_fields (elim o [ none ↦ raw | some t ↦ t ])) w)

  fields_in-parsed :
      (text : Text) (f : ClientFields Float)
      → fields_in F L (some text) ≡ ok f
      → (raw : Raw) × (parse text ≡ ok raw)
  unfolding fields_in load_toml
  fields_in-parsed text f h = elim (Result-cases (parse text)) [
    | inl (raw, good) ↦ (raw, good)
    | inr (e, bad) ↦ absurd (ground (arith, rw bad at h))
  ]

  pub fields-with_zones :
      KeepsFields
      → (file : ConfigFile Text) (d : Doc) (f : ClientFields Float) (zones : List Zone)
      → load_document T (some file) ≡ ok d
      → fields_in F L (some file.content) ≡ ok f
      → All IsValid zones
      → fields_in F L (some (dumps (with_zones T zones d)))
        ≡ ok (record f { zones = some (map fields_of_zone zones) })
  unfolding with_zones
  fields-with_zones law file d f zones h g v =
      let loads = load_document-Loads file d h in
      let (raw, read) = fields_in-parsed file.content f g in
      elim (Bool-cases (has_wrapper d)) [
        | inl has ↦
            let (table, wraps) = law.with_wrapper file.content d raw loads read has in
            let before = sym (fields_in-wrapped file.content raw table read wraps) ∙ g in
            rw has (
              fields_in-wrapped _ _ _ (law.writes_wrapped file.content d raw zones loads read has)
                (law.wrapper-in_wrapper raw table zones wraps)
              ∙ law.fields-at_top table f zones before v)
        | inr bare ↦
            let no_table = law.plain file.content d raw loads read bare in
            let before = sym (fields_in-plain file.content raw read no_table) ∙ g in
            rw bare (
              fields_in-plain _ _ (law.writes_top file.content d raw zones loads read bare)
                (law.wrapper-at_top raw zones no_table)
              ∙ law.fields-at_top raw f zones before v)
      ]
