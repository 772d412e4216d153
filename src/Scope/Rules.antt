-- ===== src/Scope/Rules.antt =====
-- One more rule in a list of the scope: an exclude rule tightens it, an include rule widens it.
use nett.Prelude.{[], ◌∷◌, ◌++◌}
use nett.Text.{Bytes}
use nett.Net.{Cidr, cidr_contains}
use nett.Scope.Pattern.{Glob, match}
use nett.Scope.{Scope}
use nett.Scope.Order.{Tighter, Tighter-refl, any_front, domain_front, glob_front, key_front}

-- the rules that one call adds, each to its list
pub data Rule : Type 0 where
  domain : Bytes → Rule
  wild path : Glob → Rule
  key : Bytes → Rule
  network : Cidr → Rule

unfoldable pub exclude_rule : Rule → Scope → Scope
exclude_rule (Rule.domain d) s = record s { exclude_domains = s.exclude_domains ++ d ∷ [] }
exclude_rule (Rule.wild g) s = record s { exclude_wild = s.exclude_wild ++ g ∷ [] }
exclude_rule (Rule.path g) s = record s { exclude_paths = s.exclude_paths ++ g ∷ [] }
exclude_rule (Rule.key k) s = record s { exclude_ips = k ∷ s.exclude_ips }
exclude_rule (Rule.network n) s = record s { exclude_cidrs = s.exclude_cidrs ++ n ∷ [] }

pub exclude_rule-Tighter : (r : Rule) (s : Scope) → Tighter (exclude_rule r s) s
unfolding exclude_rule
exclude_rule-Tighter (Rule.domain d) s = record {
  excluded = λ h. domain_front h s.exclude_domains (d ∷ []) s.exclude_wild;
  included = λ h e. e;
  excluded_key = λ k e. e;
  excluded_net = λ ip e. e;
  key = λ k e. e;
  learned = λ k e. e;
  network = λ ip e. e;
  path = λ p e. e;
}
exclude_rule-Tighter (Rule.wild g) s = record {
  excluded = λ h. glob_front h s.exclude_domains s.exclude_wild (g ∷ []);
  included = λ h e. e;
  excluded_key = λ k e. e;
  excluded_net = λ ip e. e;
  key = λ k e. e;
  learned = λ k e. e;
  network = λ ip e. e;
  path = λ p e. e;
}
exclude_rule-Tighter (Rule.path g) s = record {
  excluded = λ h e. e;
  included = λ h e. e;
  excluded_key = λ k e. e;
  excluded_net = λ ip e. e;
  key = λ k e. e;
  learned = λ k e. e;
  network = λ ip e. e;
  path = λ p. any_front (λ re. match re p) s.exclude_paths (g ∷ []);
}
exclude_rule-Tighter (Rule.key j) s = record {
  excluded = λ h e. e;
  included = λ h e. e;
  excluded_key = λ k. key_front k j s.exclude_ips;
  excluded_net = λ ip e. e;
  key = λ k e. e;
  learned = λ k e. e;
  network = λ ip e. e;
  path = λ p e. e;
}
exclude_rule-Tighter (Rule.network n) s = record {
  excluded = λ h e. e;
  included = λ h e. e;
  excluded_key = λ k e. e;
  excluded_net = λ ip. any_front (λ m. cidr_contains m ip) s.exclude_cidrs (n ∷ []);
  key = λ k e. e;
  learned = λ k e. e;
  network = λ ip e. e;
  path = λ p e. e;
}

unfoldable pub include_rule : Rule → Scope → Scope
include_rule (Rule.domain d) s = record s { domains = s.domains ++ d ∷ [] }
include_rule (Rule.wild g) s = record s { wildcards = s.wildcards ++ g ∷ [] }
include_rule (Rule.path g) s = s
include_rule (Rule.key k) s = record s { ips = k ∷ s.ips }
include_rule (Rule.network n) s = record s { cidrs = s.cidrs ++ n ∷ [] }

pub include_rule-Tighter : (r : Rule) (s : Scope) → Tighter s (include_rule r s)
unfolding include_rule
include_rule-Tighter (Rule.domain d) s = record {
  excluded = λ h e. e;
  included = λ h. domain_front h s.domains (d ∷ []) s.wildcards;
  excluded_key = λ k e. e;
  excluded_net = λ ip e. e;
  key = λ k e. e;
  learned = λ k e. e;
  network = λ ip e. e;
  path = λ p e. e;
}
include_rule-Tighter (Rule.wild g) s = record {
  excluded = λ h e. e;
  included = λ h. glob_front h s.domains s.wildcards (g ∷ []);
  excluded_key = λ k e. e;
  excluded_net = λ ip e. e;
  key = λ k e. e;
  learned = λ k e. e;
  network = λ ip e. e;
  path = λ p e. e;
}
include_rule-Tighter (Rule.path g) s = Tighter-refl s
include_rule-Tighter (Rule.key j) s = record {
  excluded = λ h e. e;
  included = λ h e. e;
  excluded_key = λ k e. e;
  excluded_net = λ ip e. e;
  key = λ k. key_front k j s.ips;
  learned = λ k e. e;
  network = λ ip e. e;
  path = λ p e. e;
}
include_rule-Tighter (Rule.network n) s = record {
  excluded = λ h e. e;
  included = λ h e. e;
  excluded_key = λ k e. e;
  excluded_net = λ ip e. e;
  key = λ k e. e;
  learned = λ k e. e;
  network = λ ip. any_front (λ m. cidr_contains m ip) s.cidrs (n ∷ []);
  path = λ p e. e;
}
