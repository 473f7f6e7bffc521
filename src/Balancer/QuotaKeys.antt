-- ===== src/Balancer/QuotaKeys.antt =====
-- The keys under which additional quotas are stored: app/modules/usage/additional_quota_keys.py, on the
-- definitions of the registry, whose keys and aliases are distinct as its loading demands.
use codex_octopus.Base.{
  ℕ, leb, Bool, true, false, ◌&&◌, ◌||◌, Option, none, some, List, [], ◌∷◌, ◌++◌, map, any,
  if◌then◌else◌,
}
use codex_octopus.Base.Text.{Text, text_eq, strip, lower}

-- The characters that `_NORMALIZE_PATTERN` keeps.
abbrev is_kept_character : ℕ → Bool
is_kept_character c = (leb 97 c && leb c 122) || (leb 48 c && leb c 57)

-- Every run of other characters becomes one underscore, except at the ends. The flags say whether a
-- character has been kept and whether a run has been passed since.
unfoldable pub underscored : Bool → Bool → Text → Text
underscored started passed [] = []
underscored started passed (c ∷ cs) =
    let kept = underscored true false cs in
    let skipped = underscored started true cs in
    if is_kept_character c then (if started && passed then 95 ∷ c ∷ kept else c ∷ kept) else skipped

abbrev pub nonempty : Text → Option Text
nonempty [] = none
nonempty (c ∷ cs) = some (c ∷ cs)

-- `_normalize_identifier`
unfoldable pub normalize_identifier : Option Text → Option Text
unfolding underscored strip lower
normalize_identifier none = none
normalize_identifier (some value) = nonempty (underscored false false (lower (strip value)))

-- The fields that are read here.
pub record AdditionalQuotaDefinition : Type 0 where
  pub quota_key : Text
  pub quota_key_aliases : List Text
  pub limit_name_aliases : List Text
  pub metered_feature_aliases : List Text
  pub raw_limit_name_aliases : List Text
  pub raw_metered_feature_aliases : List Text

abbrev pub is_in : Text → List Text → Bool
is_in value values = any (text_eq value) values

-- The first definition that passes a test, which is the only one for the keys and aliases below.
abbrev pub find_definition :
    (AdditionalQuotaDefinition → Bool)
    → List AdditionalQuotaDefinition
    → Option AdditionalQuotaDefinition
find_definition p [] = none
find_definition p (d ∷ definitions) = if p d then some d else find_definition p definitions

-- `quota_key_alias_to_quota_key`, `alias_to_quota_key`
abbrev pub has_key_alias : Text → AdditionalQuotaDefinition → Bool
has_key_alias key d = text_eq key d.quota_key || is_in key d.quota_key_aliases

abbrev pub has_alias : Text → AdditionalQuotaDefinition → Bool
has_alias alias d = is_in alias d.limit_name_aliases || is_in alias d.metered_feature_aliases

-- The key of the definition that a normalised identifier leads to.
abbrev pub key_found :
    (Text → AdditionalQuotaDefinition → Bool)
    → List AdditionalQuotaDefinition
    → Option Text
    → Option Text
key_found has definitions none = none
key_found has definitions (some identifier) = elim (find_definition (has identifier) definitions) [
  | none ↦ none
  | some d ↦ some d.quota_key
]

-- `x or y`, `x if x is not None else y`
abbrev pub first_given : Option Text → Option Text → Option Text
first_given none other = other
first_given (some value) other = some value

-- `canonicalize_additional_quota_key`, without a model or a metered feature.
unfoldable pub canonicalize_additional_quota_key :
    List AdditionalQuotaDefinition → Option Text → Option Text → Option Text
unfolding normalize_identifier
canonicalize_additional_quota_key definitions quota_key limit_name =
    let key = normalize_identifier quota_key in
    let name = normalize_identifier limit_name in
    first_given (key_found has_key_alias definitions key)
      (first_given (key_found has_alias definitions name) (first_given name key))

pub record AdditionalQuotaQueryScope : Type 0 where
  pub quota_key : Text
  pub quota_key_match_values : List Text
  pub limit_name_match_values : List Text
  pub metered_feature_match_values : List Text

-- `get_additional_quota_definition`
unfoldable pub get_additional_quota_definition :
    List AdditionalQuotaDefinition → Option Text → Option AdditionalQuotaDefinition
unfolding canonicalize_additional_quota_key
get_additional_quota_definition definitions quota_key =
    elim (canonicalize_additional_quota_key definitions quota_key none) [
      | none ↦ none
      | some key ↦ find_definition (λ d. text_eq key d.quota_key) definitions
    ]

abbrev pub scope_of : Text → Option AdditionalQuotaDefinition → AdditionalQuotaQueryScope
scope_of resolved none = record {
  quota_key = resolved;
  quota_key_match_values = resolved ∷ [];
  limit_name_match_values = [];
  metered_feature_match_values = [];
}
scope_of resolved (some d) = record {
  quota_key = resolved;
  quota_key_match_values = resolved ∷ d.quota_key_aliases;
  limit_name_match_values = map lower d.raw_limit_name_aliases ++ d.limit_name_aliases;
  metered_feature_match_values =
      map lower d.raw_metered_feature_aliases ++ d.metered_feature_aliases;
}

-- `get_additional_quota_query_scope` of a quota key.
unfoldable pub get_additional_quota_query_scope :
    List AdditionalQuotaDefinition → Text → Option AdditionalQuotaQueryScope
unfolding canonicalize_additional_quota_key get_additional_quota_definition
get_additional_quota_query_scope definitions quota_key =
    elim (canonicalize_additional_quota_key definitions (some quota_key) (some quota_key)) [
      | none ↦ none
      | some resolved ↦
          some (scope_of resolved (get_additional_quota_definition definitions (some resolved)))
    ]
