-- ===== src/Providers.antt =====
-- crabclaw/config/schema.py (`Config._match_provider` and what uses it), crabclaw/providers/registry.py
-- and crabclaw/providers/litellm_provider.py (the name under which a model is requested). `lower`
-- stands for `str.lower`. The fields of `ProvidersConfig` are a dictionary; a provider named in the
-- settings is one of them.
pub mod Registry
pub mod Matching
pub mod Names
use crabclaw.Prelude.{
  ℕ, Bool, true, false, not, ◌&&◌, ◌||◌, Option, none, some, List, [], ◌∷◌, ◌++◌, map,
  if◌then◌else◌, nat_eq, ◌==◌, any, elem, keep,
}
use crabclaw.Prelude.Dict
use crabclaw.Prelude.Dict.{Dict}
use crabclaw.Prelude.Text.{Text, codes, list_eq, starts_with, is_empty, occurs, dash_to_underscore}
use crabclaw.Providers.Registry.{ProviderSpec, providers}

pub record ProviderConfig : Type 0 where
  pub api_key : Text
  pub api_base : Option Text

pub record Config : Type 0 where
  -- `agents.defaults.provider`
  pub provider : Text
  pub providers : Dict Text ProviderConfig

-- `s.split("/", 1)`, if there is a slash
abbrev pub split_cons : ℕ → Option (Text × Text) → Option (Text × Text)
split_cons c none = none
split_cons c (some (before, rest)) = some (c ∷ before, rest)

unfoldable pub split_once : Text → Option (Text × Text)
split_once [] = none
split_once (c ∷ s) =
    let rest = split_once s in if c == b'/' then some ([], s) else split_cons c rest

abbrev pub first_of : Option (Text × Text) → Text
first_of none = []
first_of (some (before, rest)) = before

-- `s.split("/")[-1]`
unfoldable pub last_part : Text → Text
last_part [] = []
last_part (c ∷ s) = let rest = last_part s in if elem b'/' (c ∷ s) then rest else c ∷ s

-- `model_prefix` of a model in lower case
unfoldable pub model_prefix : Text → Text
unfolding split_once
model_prefix model = first_of (split_once model)

-- the model names the provider before its first slash
unfoldable pub is_named : Text → ProviderSpec → Bool
unfolding model_prefix
is_named model s =
    not (is_empty (model_prefix model)) && map dash_to_underscore (model_prefix model) == s.name

unfoldable pub has_keyword : Text → Text → Bool
unfolding occurs
has_keyword model kw =
    occurs kw model || occurs (map dash_to_underscore kw) (map dash_to_underscore model)

abbrev pub is_usable : ProviderSpec → ProviderConfig → Bool
is_usable s p = s.is_oauth || not (is_empty p.api_key)

abbrev pub accept : Bool → ProviderConfig → Text → Option (ProviderConfig × Text)
accept true p name = some (p, name)
accept false p name = none

abbrev pub accept_if :
    (ProviderSpec → ProviderConfig → Bool)
    → ProviderSpec
    → Option ProviderConfig
    → Option (ProviderConfig × Text)
accept_if test s none = none
accept_if test s (some p) = accept (test s p) p s.name

abbrev pub or_next {ℓ} : {A : Type ℓ} → Option A → Option A → Option A
or_next (some x) y = some x
or_next none y = y

-- a loop over the providers that returns at the first one that passes the test
unfoldable pub first_match :
    (ProviderSpec → ProviderConfig → Bool)
    → Dict Text ProviderConfig
    → List ProviderSpec
    → Option (ProviderConfig × Text)
unfolding Dict.get
first_match test ps [] = none
first_match test ps (s ∷ ss) =
    or_next (accept_if test s (Dict.get s.name ps)) (first_match test ps ss)

abbrev pub by_fallback : ProviderSpec → ProviderConfig → Bool
by_fallback s p = not s.is_oauth && not (is_empty p.api_key)

abbrev pub forced_match : Text → Option ProviderConfig → Option (ProviderConfig × Text)
forced_match name none = none
forced_match name (some p) = some (p, name)

-- `find_by_name`
abbrev pub first_named : Text → List ProviderSpec → Option ProviderSpec
first_named name [] = none
first_named name (s ∷ ss) = if s.name == name then some s else first_named name ss

abbrev pub find_by_name : Text → Option ProviderSpec
find_by_name name = first_named name providers

abbrev pub base_of : Option Text → Text
base_of none = []
base_of (some base) = base

abbrev pub default_base : Option ProviderSpec → Option Text
default_base none = none
default_base (some s) =
    if s.is_gateway && not (is_empty s.default_api_base) then some s.default_api_base else none

abbrev pub matched_base : Option (ProviderConfig × Text) → Option Text
matched_base none = none
matched_base (some (p, name)) =
    if not (is_empty (base_of p.api_base))
    then p.api_base
    else if is_empty name
    then none
    else default_base (find_by_name name)

abbrev pub first_spec : (ProviderSpec → Bool) → List ProviderSpec → Option ProviderSpec
first_spec test [] = none
first_spec test (s ∷ ss) = if test s then some s else first_spec test ss

abbrev pub gateway_named : Option ProviderSpec → Option ProviderSpec
gateway_named none = none
gateway_named (some s) = if s.is_gateway || s.is_local then some s else none

abbrev pub is_detected : Text → Text → ProviderSpec → Bool
is_detected api_key api_base s =
    (not (is_empty s.detect_by_key_prefix)
      && not (is_empty api_key)
      && starts_with s.detect_by_key_prefix api_key)
    || (not (is_empty s.detect_by_base_keyword)
        && not (is_empty api_base)
        && occurs s.detect_by_base_keyword api_base)

-- `find_gateway`, with the empty text for what is not given
unfoldable pub find_gateway : Text → Text → Text → Option ProviderSpec
unfolding occurs
find_gateway provider_name api_key api_base =
    or_next (if is_empty provider_name then none else gateway_named (find_by_name provider_name))
      (first_spec (is_detected api_key api_base) providers)

abbrev pub prefixed : ProviderSpec → Text → Text
prefixed s model =
    if any (λ p. starts_with p model) s.skip_prefixes
    then model
    else s.litellm_prefix ++ b'/' ∷ model

abbrev pub with_prefix : Text → Text → Text
with_prefix prefix model =
    if not (is_empty prefix) && not (starts_with (prefix ++ b'/' ∷ []) model)
    then prefix ++ b'/' ∷ model
    else model

abbrev pub has_caching : Option ProviderSpec → Bool
has_caching none = false
has_caching (some s) = s.supports_prompt_caching

module _ (lower : Text → Text) where
  abbrev pub by_prefix : Text → ProviderSpec → ProviderConfig → Bool
  by_prefix model s p = is_named (lower model) s && is_usable s p

  abbrev pub by_keyword : Text → ProviderSpec → ProviderConfig → Bool
  by_keyword model s p =
      any (λ kw. has_keyword (lower model) (lower kw)) s.keywords && is_usable s p

  -- `_match_provider`
  unfoldable pub match_provider : Config → Text → Option (ProviderConfig × Text)
  unfolding Dict.get first_match is_named has_keyword
  match_provider c model =
      if not (c.provider == codes "auto")
      then forced_match c.provider (Dict.get c.provider c.providers)
      else or_next (first_match (by_prefix model) c.providers providers) (
          or_next (first_match (by_keyword model) c.providers providers)
            (first_match by_fallback c.providers providers))

  -- `get_api_base`
  unfoldable pub get_api_base : Config → Text → Option Text
  unfolding match_provider
  get_api_base c model = matched_base (match_provider c model)

  -- `find_by_model`
  unfoldable pub find_by_model : Text → Option ProviderSpec
  unfolding is_named has_keyword
  find_by_model model =
      let std_specs = keep (λ s. not s.is_gateway && not s.is_local) providers in
      or_next (first_spec (is_named (lower model)) std_specs)
        (first_spec (λ s. any (has_keyword (lower model)) s.keywords) std_specs)

  -- `_canonicalize_explicit_prefix`
  abbrev pub canonicalize : Text → Text → Text → Option (Text × Text) → Text
  canonicalize model spec_name canonical_prefix none = model
  canonicalize model spec_name canonical_prefix (some (prefix, remainder)) =
      if map dash_to_underscore (lower prefix) == spec_name
      then canonical_prefix ++ b'/' ∷ remainder
      else model

  abbrev pub resolve_standard : Option ProviderSpec → Text → Text
  resolve_standard none model = model
  resolve_standard (some s) model =
      if is_empty s.litellm_prefix
      then model
      else prefixed s (canonicalize model s.name s.litellm_prefix (split_once model))

  abbrev pub resolve_for : Option ProviderSpec → Text → Text
  resolve_for none model = resolve_standard (find_by_model model) model
  resolve_for (some g) model =
      with_prefix g.litellm_prefix (if g.strip_model_prefix then last_part model else model)

  -- `_resolve_model`, with the gateway of the client
  unfoldable pub resolve_model : Option ProviderSpec → Text → Text
  unfolding find_by_model split_once last_part
  resolve_model gateway model = resolve_for gateway model

  -- `_supports_cache_control`
  unfoldable pub supports_cache_control : Option ProviderSpec → Text → Bool
  unfolding find_by_model
  supports_cache_control (some g) model = g.supports_prompt_caching
  supports_cache_control none model = has_caching (find_by_model model)
