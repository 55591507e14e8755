-- ===== src/Sources/Routes.antt =====
-- How a validated configuration routes a source.
use dbtv.Common.{
  String, ◌≡◌, refl, ◌≤◌, ◌⊎◌, inl, inr, Bool, true, false, not, List, [], ◌∷◌, Option, none, some,
  keep, length, lookup, all_of, and-left, and-right, All, All-keep, arith,
}
use dbtv.Errors.{ok, err, config_error}
use dbtv.Models.{SourceMapping}
use dbtv.Config.{SourceRoute, SourceSettings}
use dbtv.Config.Whole.{DbtvConfig}
use dbtv.Config.Validate.{is_present, is_route, validate_references}
use dbtv.Sources.Scope.{source_matches}
use dbtv.Sources.Prepare.{Routed, or_no_columns, route_source}

present : {A : Type 0} → (o : Option A) → is_present o ≡ true → (a : A) × (o ≡ some a)
present none h = cc
present (some a) h = (a, refl)

-- The connection of the route is defined, and its projection stays as it is.
abbrev IsSound : DbtvConfig → SourceRoute → Type 0
IsSound config r =
    ((s : SourceSettings) × (lookup r.connection config.connections ≡ some s))
    × (or_no_columns r.projection ≡ r.projection)

has_columns :
    (p : Option (List String))
    → elim p [ none ↦ true | some columns ↦ elim columns [ [] ↦ false | c ∷ cs ↦ true ] ] ≡ true
    → or_no_columns p ≡ p
has_columns none h = refl
has_columns (some []) h = cc
has_columns (some (c ∷ cs)) h = refl

routes-IsSound :
    (config : DbtvConfig) (routes : List SourceRoute)
    → all_of (is_route config.connections) routes ≡ true
    → All (IsSound config) routes
routes-IsSound config [] h = tt
routes-IsSound config (r ∷ routes) h =
    let here = and-left (is_route config.connections r) _ h in
    let connected = is_present (lookup r.connection config.connections) in
    (
      (
        present _ (and-left connected _ here),
        has_columns r.projection (and-right connected _ here),
      ),
      routes-IsSound config routes (and-right (is_route config.connections r) _ h),
    )

-- The routes that match a source.
abbrev pub matching : (String → String → Bool) → DbtvConfig → SourceMapping → List SourceRoute
matching fnmatchcase config mapping =
    keep (λ r. source_matches fnmatchcase r.select mapping) config.routes

-- The source has the settings of the configuration without a route, and those of its connection with one.
abbrev pub IsRouted : DbtvConfig → List SourceRoute → Routed → Type 0
IsRouted config routes routed =
    ((routes ≡ [])
      × (routed ≡ record { name = "default"; settings = config.source; projection = none }))
    ⊎ ((r : SourceRoute) × (routes ≡ r ∷ [])
        × (routed.name ≡ r.connection)
        × (lookup r.connection config.connections ≡ some routed.settings)
        × (routed.projection ≡ r.projection))

-- In a validated configuration a source that two or more routes match raises ConfigError, and every other
-- source is routed: without a match it has the settings and the projection of the configuration itself, and
-- with one those of the connection, which is defined, and of the route. So no connection is missing.
pub route_source-routes :
    (is_blank : String → Bool) (fnmatchcase : String → String → Bool) (config : DbtvConfig)
    (mapping : SourceMapping)
    → validate_references is_blank config ≡ true
    → ((2 ≤ length (matching fnmatchcase config mapping))
        × (route_source fnmatchcase config mapping ≡ err config_error))
      ⊎ ((routed : Routed) × (route_source fnmatchcase config mapping ≡ ok routed)
          × IsRouted config (matching fnmatchcase config mapping) routed)
unfolding validate_references route_source
route_source-routes is_blank fnmatchcase config mapping h =
    by_match (matching fnmatchcase config mapping) refl (
      All-keep (IsSound config) (λ r. source_matches fnmatchcase r.select mapping) config.routes
        (routes-IsSound config config.routes (
          and-right (is_present (lookup config.default_data_profile config.data_profiles)) _
            (and-right (not (is_blank config.default_data_profile)) _ h))))
  where
    by_match :
        (found : List SourceRoute)
        → matching fnmatchcase config mapping ≡ found
        → All (IsSound config) found
        → ((2 ≤ length found) × (route_source fnmatchcase config mapping ≡ err config_error))
          ⊎ ((routed : Routed) × (route_source fnmatchcase config mapping ≡ ok routed)
              × IsRouted config found routed)
    by_match [] e s = inr (_, rw (route_source, e) refl, inl (refl, refl))
    by_match (r ∷ []) e (((settings, there), columns), _) =
        inr (_, rw (route_source, e, there) refl, inr (r, refl, refl, there, columns))
    by_match (r ∷ second ∷ more) e s = inl (omega arith, rw (route_source, e) refl)
