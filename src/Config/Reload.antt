-- ===== src/Config/Reload.antt =====
-- A restart of the client after zones were edited.
use counter_cruiser.Prelude.{
  ◌≡◌, refl, ap, ◌∙◌, sym, inl, inr, false, Option, none, some, List, [], ◌∷◌, map, All, String,
  str_eq, eq_refl, if◌then◌else◌, ltb, length, ok, >>=-ok, Option-cases, ◌>>=◌, Floats, arith,
}
use counter_cruiser.Zone.{Zone, IsValid, make_zone}
use counter_cruiser.Settings.{
  ClientFields, ClientSettings, zone_of_fields, zones_of_fields, client_settings, merge_client,
}
use counter_cruiser.Settings.Built.{validate_client-Built, Built-validate_client}
use counter_cruiser.ZoneStore.{Toml, Disk, Store, ConfigFile, load_document, with_zones, write_toml}
use counter_cruiser.ZoneStore.Invariant.{WellFormed}
use counter_cruiser.ZoneStore.Requests.{Request, perform, perform-cases}
use counter_cruiser.ZoneStore.File.{write_toml-saved, no_config_file}
use counter_cruiser.Config.{
  Loading, resolve_path, resolve_client_config_path, fields_in, load_client_config, default_client,
}
use counter_cruiser.Config.Fields.{fields_of_zone, KeepsFields, fields-with_zones}

abbrev pub text_of : {Text : Type 0} → Option (ConfigFile Text) → Option Text
text_of none = none
text_of (some f) = some f.content

-- The files beside a store: that of the store at its path, the others as they are.
abbrev pub files_with :
    {Text : Type 0} → String → Store Text → (String → Option Text) → String → Option Text
files_with path s files p = if str_eq p path then text_of s.file else files p

zones_of_fields-fields_of_zone :
    (zs : List Zone) → All IsValid zs → zones_of_fields (map fields_of_zone zs) ≡ ok zs
unfolding zones_of_fields zone_of_fields make_zone
zones_of_fields-fields_of_zone [] v = refl
zones_of_fields-fields_of_zone (z ∷ zs) v =
    let enough : ltb (length z.polygon) 3 ≡ false = ground arith in
    rw (enough, zones_of_fields-fields_of_zone zs v.1)

module _ (T : Toml) (F : Floats) (L : Loading T.Text F.Float) where
  open T use {Text, Doc, is_empty, load, document, dumps, has_wrapper, set_wrapped, set_top}
  open F use {Float}
  open L use {Raw, parse, wrapper, client_fields}

  -- Other zones change no other setting.
  client_settings-zones :
      (env init : ClientFields Float) (s : ClientSettings Float) (zones : List Zone)
      → env.zones ≡ none
      → All IsValid zones
      → client_settings F env init ≡ ok s
      → client_settings F env (record init { zones = some (map fields_of_zone zones) })
        ≡ ok (record s { zones = zones })
  unfolding client_settings
  client_settings-zones env init s zones free v h =
      let b = validate_client-Built F (merge_client env init) s h in
      let init' = record init { zones = some (map fields_of_zone zones) } in
      Built-validate_client F (merge_client env init') (record s { zones = zones })
        (record {
          server_host = b.server_host;
          server_port = b.server_port;
          camera_index = b.camera_index;
          frame_width = b.frame_width;
          frame_height = b.frame_height;
          jpeg_quality = b.jpeg_quality;
          frame_skip = b.frame_skip;
          min_size_ratio = b.min_size_ratio;
          zones = rw free (zones_of_fields-fields_of_zone zones v);
          alerts = b.alerts;
          web_host = b.web_host;
          web_port = b.web_port;
          web_stream_fps = b.web_stream_fps;
        })

  load-saved :
      KeepsFields T F L
      → (file : ConfigFile Text) (d : Doc) (zones : List Zone) (env : ClientFields Float)
        (t : ClientSettings Float)
      → env.zones ≡ none
      → All IsValid zones
      → load_document T (some file) ≡ ok d
      → (fields_in F L (some file.content) >>= λ init. client_settings F env init) ≡ ok t
      → (fields_in F L (some (dumps (with_zones T zones d))) >>= λ init. client_settings F env init)
        ≡ ok (record t { zones = zones })
  load-saved law file d zones env t free v h before =
      let (init, g, built) = >>=-ok (fields_in F L (some file.content)) _ t before in
      rw (fields-with_zones T F L law file d init zones h g v)
        (client_settings-zones env init t zones free v built)

  -- The store is at the path that the loader resolves, the environment gives no zones, and tomlkit, tomllib
  -- and pydantic keep the other fields of a text in which zones are set. Then, from
  -- well-formed zones and after a request that succeeds, loading the configuration again, with the same
  -- argument and environment, succeeds and gives the same settings as before, but for the zones, which
  -- are those in memory.
  pub load-perform :
      KeepsFields T F L
      → (disk : Disk) (r : Request) (s : Store Text) (files : String → Option Text)
        (path env : Option String) (env_fields : ClientFields Float) {t : ClientSettings Float}
      → WellFormed s.zones
      → env_fields.zones ≡ none
      → let p = resolve_client_config_path path env in
        let s' = (perform T disk r s).1 in
        load_client_config F L (files_with p s files) path env env_fields ≡ ok t
        → (perform T disk r s).0 ≡ ok tt
        → load_client_config F L (files_with p s' files) path env env_fields
          ≡ ok (record t { zones = s'.zones })
  unfolding load_client_config resolve_client_config_path
  load-perform law disk r s files path env env_fields {t} w free before done =
      elim (perform-cases T disk r s) [
        | inl (e, refused) ↦ absurd (ground (arith, refused))
        | inr p ↦ elim (Option-cases s.file) [
          | inl missing ↦
              let failed = (no_config_file T disk r s missing).1 in absurd (ground (arith, failed))
          | inr (file, there) ↦
              let here = eq_refl (resolve_path path env default_client) in
              let wrote : (write_toml T disk (record s { zones = p.zones })).0 ≡ ok tt =
                ap (λ x. x.0) (sym p.does) ∙ done in
              let (time, doc, from, saves) =
                write_toml-saved T disk (record s { zones = p.zones }) wrote in
              rw (p.does, saves, here)
                (load-saved law file doc p.zones env_fields t free (p.keeps w).valid
                  (rw there at from) (rw (here, there) at before))
        ]
      ]
