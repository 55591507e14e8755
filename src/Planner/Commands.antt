-- ===== src/Planner/Commands.antt =====
-- project/planner.py: the arguments of dbt's `ls` and `parse`, and `_resolve_target`, which runs them.
-- The effects on the disk are a sequence of steps on it, given by the functions of `Workshop`.
use dbtv.Common.{
  String, Bool, not, ◌&&◌, ◌==◌, List, [], ◌∷◌, ◌++◌, Option, none, some, if◌then◌else◌,
}
use dbtv.Errors.{Result, ok, ◌>>=◌}
use dbtv.Models.{NormalizedManifest}

pub record DbtProject : Type 0 where
  pub root : String
  pub profile_name : String

-- `if variables: args.extend(["--vars", variables])`: an empty text counts as none.
abbrev pub variable_args : Option String → List String
variable_args none = []
variable_args (some v) = if v == "" then [] else "--vars" ∷ v ∷ []

abbrev pub listed_args : String → List String → List String
listed_args option [] = []
listed_args option (x ∷ xs) = option ∷ x ∷ xs

abbrev pub parse_args : Bool → List String
parse_args partial_parse = if not partial_parse then "--no-partial-parse" ∷ [] else []

-- The arguments that `_parse` builds.
unfoldable pub parse_command :
    DbtProject → String → String → String → Option String → Bool → List String
parse_command project profiles_dir target target_path variables partial_parse =
    ("parse" ∷ "--project-dir" ∷ project.root ∷ "--profile" ∷ project.profile_name
      ∷ "--profiles-dir" ∷ profiles_dir ∷ "--target" ∷ target ∷ "--target-path" ∷ target_path ∷ [])
    ++ variable_args variables
    ++ parse_args partial_parse

-- The arguments that `_list` builds.
unfoldable pub list_command :
    DbtProject
    → String
    → String
    → List String
    → List String
    → Option String
    → String
    → Bool
    → List String
list_command project profiles_dir target select exclude variables target_path partial_parse =
    ("ls" ∷ "--target-path" ∷ target_path ∷ "--project-dir" ∷ project.root ∷ "--profile"
      ∷ project.profile_name ∷ "--profiles-dir" ∷ profiles_dir ∷ "--target" ∷ target ∷ "--output"
      ∷ "json" ∷ "--output-keys" ∷ "unique_id" ∷ [])
    ++ listed_args "--select" select
    ++ listed_args "--exclude" exclude
    ++ variable_args variables
    ++ parse_args partial_parse

-- A disk with the operations that the planner uses, and dbt's executable: `run` gives the standard
-- output of a call and the disk after it. `parse_ls` is `parse_dbt_ls_json` of Selection/Ls with its
-- reader of JSON, and `load_manifest` reads and normalises manifest.json.
pub record Workshop (Disk : Type 0) : Type 0 where
  pub is_file : Disk → String → Bool
  pub read_text : Disk → String → String
  pub sha256_file : Disk → String → String
  pub make_directory : String → Disk → Disk
  pub copy : String → String → Disk → Disk
  pub write_text : String → String → Disk → Disk
  pub join : String → String → String
  pub run : List String → Disk → Result (String × Disk)
  pub parse_ls : String → Result (List String)
  pub load_manifest : Disk → String → Result NormalizedManifest

module _ {Disk : Type 0} (shop : Workshop Disk) where
  -- A partial parse is restored only if its checksum is the recorded one.
  unfoldable pub is_restorable : Bool → Bool → String → Disk → Bool
  is_restorable partial_parse cache_parsing cache_dir disk =
      let cached = shop.join cache_dir "partial_parse.msgpack" in
      let checksum = shop.join cache_dir "checksum" in
      partial_parse
      && cache_parsing
      && shop.is_file disk cached
      && shop.is_file disk checksum
      && shop.read_text disk checksum == shop.sha256_file disk cached

  abbrev pub restore : Bool → String → String → Disk → Disk
  restore restored cache_dir target_path disk =
      if restored
      then shop.copy (shop.join cache_dir "partial_parse.msgpack")
          (shop.join target_path "partial_parse.msgpack") disk
      else disk

  -- `_parse`, when `ls` left no manifest.
  abbrev pub ensure_manifest : List String → String → Disk → Result Disk
  ensure_manifest command manifest_path disk =
      if shop.is_file disk manifest_path
      then ok disk
      else (shop.run command disk >>= λ r. shop.load_manifest r.1 manifest_path >>= λ m. ok r.1)

  -- The parse state that dbt generated goes to the cache, with its checksum.
  abbrev pub save : Bool → Bool → String → String → Disk → Disk
  save partial_parse cache_parsing cache_dir target_path disk =
      let generated = shop.join target_path "partial_parse.msgpack" in
      let cached = shop.join cache_dir "partial_parse.msgpack" in
      if partial_parse && cache_parsing && shop.is_file disk generated
      then (let copied = shop.copy generated cached (shop.make_directory cache_dir disk) in
          shop.write_text (shop.join cache_dir "checksum") (shop.sha256_file copied cached) copied)
      else disk

  unfoldable pub resolve_target :
      DbtProject
      → String
      → String
      → String
      → String
      → List String
      → List String
      → Option String
      → Bool
      → Bool
      → Disk
      → Result ((NormalizedManifest × (List String × Bool)) × Disk)
  unfolding is_restorable parse_command list_command
  resolve_target project profiles_dir target target_path cache_dir select exclude variables
        partial_parse cache_parsing disk =
      let made = shop.make_directory target_path disk in
      let restored = is_restorable partial_parse cache_parsing cache_dir made in
      let manifest_path = shop.join target_path "manifest.json" in
      shop.run
        (list_command project profiles_dir target select exclude variables target_path
          partial_parse)
        (restore restored cache_dir target_path made)
      >>= λ listed. shop.parse_ls listed.0 >>= λ selected.
          ensure_manifest
            (parse_command project profiles_dir target target_path variables partial_parse)
            manifest_path listed.1
          >>= λ parsed. shop.load_manifest parsed manifest_path >>= λ manifest. ok (
            (manifest, (selected, restored)),
            save partial_parse cache_parsing cache_dir target_path parsed,
          )
