-- ===== src/Sources/Scope.antt =====
-- sources.py: `source_matches` and `connection_scope`. `Environment` holds what the file system, `yaml`,
-- `hashlib`, `fnmatch` and the profile's values answer.
use dbtv.Common.{
  String, Bool, ◌==◌, List, [], ◌∷◌, Option, none, some, if◌then◌else◌, any_of, member, lookup,
}
use Prim.Native.String.{◌++◌}
use dbtv.Errors.{Result, ok, err, config_error, credential_error, ◌>>=◌}
use dbtv.Models.{SourceMapping}
use dbtv.Json.{Json, null, bool, number, text, array, object, Items, nil, cons, Fields, end, field}
use dbtv.Config.{SourceSettings}
use dbtv.Config.Whole.{DbtvConfig}

-- `_SCOPE_FIELDS`.
abbrev pub scope_fields : List String
scope_fields =
    "type" ∷ "account" ∷ "host" ∷ "port" ∷ "user" ∷ "role" ∷ "database" ∷ "schema" ∷ "warehouse"
    ∷ "authenticator" ∷ "path" ∷ "project" ∷ "location" ∷ "catalog" ∷ []

unfoldable pub source_matches : (String → String → Bool) → String → SourceMapping → Bool
source_matches fnmatchcase pattern mapping =
    let s = mapping.source in
    any_of (λ value. fnmatchcase value pattern)
      (s.unique_id
        ∷ ("source:" ++ s.source_name ++ "." ++ s.table_name)
        ∷ ("source:" ++ s.package_name ++ "." ++ s.source_name ++ "." ++ s.table_name)
        ∷ [])

-- What `connection_scope` hashes.
pub record ScopeIdentity : Type 0 where
  pub connection : String
  pub connector : String
  pub profile : String
  pub target : Option String
  pub public_values : List (String × Json)
  pub identity : List (String × String)
  pub plugin : Json

pub record Environment : Type 0 where
  -- `raw[profile]["outputs"][target]` of profiles.yml, or none where reading it raises.
  pub read_output : String → Option String → Option (List (String × Json))
  -- The name and the default of a complete `{{ env_var(...) }}` expression.
  pub match_env_var : String → Option (String × Option String)
  -- One of `{{`, `{%` and `{#` stands in the text.
  pub has_jinja : String → Bool
  pub variables : List (String × String)
  pub sha256_value : ScopeIdentity → String

-- Python's `or`, for which an empty text counts as none.
abbrev pub or_next : Option String → Option String → Option String
or_next none b = b
or_next (some a) b = if a == "" then b else some a

abbrev pub or_text : Option String → String → String
or_text none d = d
or_text (some a) d = if a == "" then d else a

-- credentials/dbt_profile.py: `_resolve_value`.
abbrev pub read_variable : Environment → String → Option String → Result Json
read_variable env name default = elim (lookup name env.variables) [
  | some v ↦ ok (text v)
  | none ↦ elim default [ some d ↦ ok (text d) | none ↦ err credential_error ]
]

abbrev pub resolve_text : Environment → String → Result Json
resolve_text env s = elim (env.match_env_var s) [
  | some m ↦ read_variable env m.0 m.1
  | none ↦ if env.has_jinja s then err credential_error else ok (text s)
]

unfoldable mutual
  pub resolve_value : Environment → Json → Result Json
  resolve_value env null = ok null
  resolve_value env (bool b) = ok (bool b)
  resolve_value env (number n) = ok (number n)
  resolve_value env (text s) = resolve_text env s
  resolve_value env (array xs) = resolve_items env xs >>= λ r. ok (array r)
  resolve_value env (object fs) = resolve_fields env fs >>= λ r. ok (object r)

  pub resolve_items : Environment → Items → Result Items
  resolve_items env nil = ok nil
  resolve_items env (cons x xs) =
      resolve_value env x >>= λ r. resolve_items env xs >>= λ rs. ok (cons r rs)

  pub resolve_fields : Environment → Fields → Result Fields
  resolve_fields env end = ok end
  resolve_fields env (field k v fs) =
      resolve_value env v >>= λ r. resolve_fields env fs >>= λ rs. ok (field k r rs)

unfoldable pub public_values : Environment → List (String × Json) → Result (List (String × Json))
public_values env [] = ok []
public_values env ((k, v) ∷ rest) =
    let later = public_values env rest in
    if member k scope_fields
    then (resolve_value env v >>= λ r. later >>= λ rs. ok ((k, r) ∷ rs))
    else later

abbrev pub read_public :
    Environment → String → String → Option String → Result (List (String × Json))
read_public env resolver profile target =
    if resolver == "dbt_profile"
    then (elim (env.read_output profile target) [
      | none ↦ err config_error
      | some output ↦ public_values env output
    ])
    else ok []

unfoldable pub connection_scope :
    Environment → String → SourceSettings → String → DbtvConfig → Result String
unfolding public_values resolve_value resolve_items resolve_fields
connection_scope env name settings project_profile config =
    let profile = or_text (or_next settings.profile config.project.profile) project_profile in
    let target = or_next settings.target config.project.production_target in
    read_public env settings.credential_resolver profile target >>= λ values. ok (
      env.sha256_value (record {
        connection = name;
        connector = settings.connector;
        profile = profile;
        target = target;
        public_values = values;
        identity = settings.identity;
        plugin = settings.plugin;
      }))
