-- ===== src/Config.antt =====
-- counter_cruiser/config/loader.py: which file is read, and what is taken from it. `tomllib`, pydantic's
-- conversion of a table to typed fields, and the files are parameters.
pub mod Fields
pub mod Reload
pub mod Missing
use counter_cruiser.Prelude.{
  Option, none, some, String, str_eq, if◌then◌else◌, Result, ok, err, ◌>>=◌, Floats,
}
use counter_cruiser.Settings.{
  ClientFields, ServerFields, ClientSettings, ServerSettings, client_settings, server_settings,
}

-- `wrapper` is the value of the key `counter_cruiser`. The two conversions raise `ValidationError` for a
-- value of a wrong type and for an unknown key.
pub record Loading (Text Float : Type 0) : Type 1 where
  pub Raw : Type 0
  pub empty : Raw
  pub parse : Text → Result Raw
  pub wrapper : Raw → Option Raw
  pub client_fields : Raw → Result (ClientFields Float)
  pub server_fields : Raw → Result (ServerFields Float)

abbrev pub default_client : String
default_client = "config/client.toml"

abbrev pub default_server : String
default_server = "config/server.toml"

-- An empty value of the environment variable counts as none.
unfoldable pub resolve_path : Option String → Option String → String → String
resolve_path (some explicit) env default = explicit
resolve_path none none default = default
resolve_path none (some path) default = if str_eq path "" then default else path

unfoldable pub resolve_client_config_path : Option String → Option String → String
unfolding resolve_path
resolve_client_config_path path env = resolve_path path env default_client

module _ (F : Floats) {Text : Type 0} (L : Loading Text F.Float) where
  open F use {Float}
  open L use {Raw, empty, parse, wrapper, client_fields, server_fields}

  -- `raw.get('counter_cruiser', raw)`
  abbrev pub unwrapped : Raw → Raw
  unwrapped raw = elim (wrapper raw) [ none ↦ raw | some table ↦ table ]

  unfoldable pub load_toml : Option Text → Result Raw
  load_toml none = ok empty
  load_toml (some text) = parse text >>= λ raw. ok (unwrapped raw)

  -- The fields that a file gives.
  unfoldable pub fields_in : Option Text → Result (ClientFields Float)
  unfolding load_toml
  fields_in text = load_toml text >>= client_fields

  -- The files are a function from paths to texts, none where there is no file. `env` is the value of the
  -- variable for the path, `env_fields` what the other variables of the environment give.
  unfoldable pub load_client_config :
      (String → Option Text)
      → Option String
      → Option String
      → ClientFields Float
      → Result (ClientSettings Float)
  unfolding resolve_path fields_in
  load_client_config files path env env_fields =
      fields_in (files (resolve_path path env default_client)) >>= λ init.
      client_settings F env_fields init

  unfoldable pub load_server_config :
      (String → Option Text)
      → Option String
      → Option String
      → ServerFields Float
      → Result (ServerSettings Float)
  unfolding resolve_path load_toml
  load_server_config files path env env_fields = do
    raw ← load_toml (files (resolve_path path env default_server))
    init ← server_fields raw
    server_settings F env_fields init
