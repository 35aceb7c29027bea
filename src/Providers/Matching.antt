-- ===== src/Providers/Matching.antt =====
-- Which provider `_match_provider` chooses.
use crabclaw.Prelude.{
  ◌≡◌, refl, sym, ap, ◌∙◌, Bool, true, false, Option, none, some, List, [], ◌∷◌, ◌++◌, All, ◌⊎◌,
  inl, inr, nat_eq, ◌==◌, arith,
}
use crabclaw.Prelude.Dict
use crabclaw.Prelude.Dict.{Dict}
use crabclaw.Prelude.Text.{Text, codes, list_eq}
use crabclaw.Providers.{
  ProviderConfig, Config, accept, accept_if, or_next, first_match, by_prefix, by_keyword,
  by_fallback, match_provider,
}
use crabclaw.Providers.Registry.{ProviderSpec, providers}

-- A test of a provider with its configuration.
abbrev Test : Type 0
Test = ProviderSpec → ProviderConfig → Bool

-- The provider is not configured, or fails the test.
abbrev pub IsRefused : Test → Dict Text ProviderConfig → ProviderSpec → Type 0
IsRefused test ps s = (p : ProviderConfig) → Dict.get s.name ps ≡ some p → test s p ≡ false

-- The configuration and the name are those of the first provider that is configured and passes.
pub record IsFirst (test : Test) (ps : Dict Text ProviderConfig) (specs : List ProviderSpec)
    (p : ProviderConfig) (name : Text) : Type 0 where
  pub spec : ProviderSpec
  pub before : List ProviderSpec
  pub after : List ProviderSpec
  pub place : before ++ spec ∷ after ≡ specs
  pub refused : All (IsRefused test ps) before
  pub passes : test spec p ≡ true
  pub configured : Dict.get spec.name ps ≡ some p
  pub named : spec.name ≡ name

-- What a loop over the providers may return.
abbrev pub IsFound :
    Test → Dict Text ProviderConfig → List ProviderSpec → Option (ProviderConfig × Text) → Type 0
IsFound test ps specs none = All (IsRefused test ps) specs
IsFound test ps specs (some (p, name)) = IsFirst test ps specs p name

later :
    (test : Test) (ps : Dict Text ProviderConfig) (s : ProviderSpec) (ss : List ProviderSpec)
    (r : Option (ProviderConfig × Text))
    → IsRefused test ps s
    → IsFound test ps ss r
    → IsFound test ps (s ∷ ss) r
later test ps s ss none f h = (f, h)
later test ps s ss (some (p, name)) f h = record {
  spec = h.spec;
  before = s ∷ h.before;
  after = h.after;
  place = ap (◌∷◌ s) h.place;
  refused = (f, h.refused);
  passes = h.passes;
  configured = h.configured;
  named = h.named;
}

some-same : {p q : ProviderConfig} → some p ≡ some q → p ≡ q
some-same e = cc

first_match-IsFound :
    (test : Test) (ps : Dict Text ProviderConfig) (specs : List ProviderSpec)
    → IsFound test ps specs (first_match test ps specs)
unfolding first_match
first_match-IsFound test ps [] = tt
first_match-IsFound test ps (s ∷ ss) = at (Dict.get s.name ps) refl (first_match-IsFound test ps ss)
  where
    rest : Option (ProviderConfig × Text)
    rest = first_match test ps ss

    by_test :
        (p : ProviderConfig)
        → Dict.get s.name ps ≡ some p
        → (b : Bool) → test s p ≡ b
        → IsFound test ps ss rest
        → IsFound test ps (s ∷ ss) (or_next (accept b p s.name) rest)
    by_test p e true t ih = record {
      spec = s;
      before = [];
      after = ss;
      place = refl;
      refused = tt;
      passes = t;
      configured = e;
      named = refl;
    }
    by_test p e false t ih =
        later test ps s ss rest (λ q w. ap (test s) (some-same (sym w ∙ e)) ∙ t) ih

    at :
        (o : Option ProviderConfig)
        → Dict.get s.name ps ≡ o
        → IsFound test ps ss rest
        → IsFound test ps (s ∷ ss) (or_next (accept_if test s o) rest)
    at none e ih =
        later test ps s ss rest (λ q w. let n : none ≡ some q = sym e ∙ w in absurd (ground arith))
          ih
    at (some p) e ih = by_test p e (test s p) refl ih

-- The choice among the three tests, in their order.
abbrev pub IsChoice :
    Test
    → Test
    → Test
    → Dict Text ProviderConfig
    → List ProviderSpec
    → Option (ProviderConfig × Text)
    → Type 0
IsChoice t1 t2 t3 ps specs none =
    All (IsRefused t1 ps) specs × All (IsRefused t2 ps) specs × All (IsRefused t3 ps) specs
IsChoice t1 t2 t3 ps specs (some (p, name)) =
    IsFirst t1 ps specs p name
    ⊎ ((All (IsRefused t1 ps) specs × IsFirst t2 ps specs p name)
        ⊎ (All (IsRefused t1 ps) specs × All (IsRefused t2 ps) specs × IsFirst t3 ps specs p name))

or_next-IsChoice :
    (t1 t2 t3 : Test) (ps : Dict Text ProviderConfig) (specs : List ProviderSpec)
    (r1 r2 r3 : Option (ProviderConfig × Text))
    → IsFound t1 ps specs r1
    → IsFound t2 ps specs r2
    → IsFound t3 ps specs r3
    → IsChoice t1 t2 t3 ps specs (or_next r1 (or_next r2 r3))
or_next-IsChoice t1 t2 t3 ps specs (some x) r2 r3 h1 h2 h3 = inl h1
or_next-IsChoice t1 t2 t3 ps specs none (some x) r3 h1 h2 h3 = inr (inl (h1, h2))
or_next-IsChoice t1 t2 t3 ps specs none none (some x) h1 h2 h3 = inr (inr (h1, h2, h3))
or_next-IsChoice t1 t2 t3 ps specs none none none h1 h2 h3 = (h1, h2, h3)

-- If no provider is forced, the choice is the first provider of the registry that is configured,
-- usable and named before the slash of the model; or, when there is none, the first that is usable
-- and has a keyword in the model; or, when there is none either, the first with a key and without
-- OAuth; and no provider is chosen only if every one fails all three tests.
pub match_provider-IsChoice :
    (lower : Text → Text) (c : Config) (model : Text)
    → (c.provider == codes "auto") ≡ true
    → IsChoice
        (by_prefix lower model)
        (by_keyword lower model)
        by_fallback
        c.providers
        providers
        (match_provider lower c model)
unfolding match_provider
match_provider-IsChoice lower c model h = rw h (
    or_next-IsChoice (by_prefix lower model) (by_keyword lower model) by_fallback c.providers
      providers (first_match (by_prefix lower model) c.providers providers)
      (first_match (by_keyword lower model) c.providers providers)
      (first_match by_fallback c.providers providers)
      (first_match-IsFound (by_prefix lower model) c.providers providers)
      (first_match-IsFound (by_keyword lower model) c.providers providers)
      (first_match-IsFound by_fallback c.providers providers))
