-- ===== src/Go/DeepEqual.antt =====
-- `reflect.DeepEqual` on the values that the operator compares: an interface with one law, and
-- its instances.
use argo_rollouts_manager.Kube.Objects.{
  Subject, PolicyRule, IntOrString, NetworkPolicyPort, NetworkPolicyIngressRule, from_int,
  from_string,
}
use argo_rollouts_manager.Base.{
  ◌∷◌, [], true, false, Bool, String, List, ◌≡◌, ◌==◌, ◌&&◌, eq_iff, ◌↔◌, arith, refl, Option, ℕ,
  none, nat_eq, some,
}

pub record DeepEq {ℓ} (A : Type ℓ) : Type ℓ where
  pub deep_eq : A → A → Bool
  pub deep_eq_iff : (a b : A) → (deep_eq a b ≡ true) ↔ (a ≡ b)

abbrev pub deep_eq {ℓ} : {A : Type ℓ} ⦃e : DeepEq A⦄ → A → A → Bool
deep_eq ⦃e⦄ = e.deep_eq

pub deep_eq_refl {ℓ} : {A : Type ℓ} ⦃e : DeepEq A⦄ (a : A) → deep_eq a a ≡ true
deep_eq_refl ⦃e⦄ a = (e.deep_eq_iff a a).1 refl

instance abbrev pub string_deep_eq : DeepEq String
string_deep_eq = record { deep_eq = ◌==◌; deep_eq_iff = eq_iff }

module _ {A : Type 0} ⦃e : DeepEq A⦄ where
  abbrev pub lists_eq : List A → List A → Bool
  lists_eq [] [] = true
  lists_eq [] (_ ∷ _) = false
  lists_eq (_ ∷ _) [] = false
  lists_eq (x ∷ xs) (y ∷ ys) = e.deep_eq x y && lists_eq xs ys

  pub lists_eq_iff : (xs ys : List A) → (lists_eq xs ys ≡ true) ↔ (xs ≡ ys)
  lists_eq_iff [] [] = (λ _. refl, λ _. refl)
  lists_eq_iff [] (_ ∷ _) = (λ h. cc, λ h. cc)
  lists_eq_iff (_ ∷ _) [] = (λ h. cc, λ h. cc)
  lists_eq_iff (x ∷ xs) (y ∷ ys) = ground (arith, e.deep_eq_iff x y, lists_eq_iff xs ys)

instance abbrev pub list_deep_eq : {A : Type 0} ⦃e : DeepEq A⦄ → DeepEq (List A)
list_deep_eq = record { deep_eq = lists_eq; deep_eq_iff = lists_eq_iff }

abbrev pub rules_eq : PolicyRule → PolicyRule → Bool
rules_eq a b =
    deep_eq a.api_groups b.api_groups
    && deep_eq a.resources b.resources
    && deep_eq a.verbs b.verbs
    && (a.other == b.other)

pub rules_eq_iff : (a b : PolicyRule) → (rules_eq a b ≡ true) ↔ (a ≡ b)
rules_eq_iff a b = ground (
  arith,
  lists_eq_iff a.api_groups b.api_groups,
  lists_eq_iff a.resources b.resources,
  lists_eq_iff a.verbs b.verbs,
  eq_iff a.other b.other,
)

instance abbrev pub rule_deep_eq : DeepEq PolicyRule
rule_deep_eq = record { deep_eq = rules_eq; deep_eq_iff = rules_eq_iff }

abbrev pub subjects_eq : Subject → Subject → Bool
subjects_eq a b =
    (a.kind == b.kind)
    && (a.api_group == b.api_group)
    && (a.name == b.name)
    && (a.namespace == b.namespace)

pub subjects_eq_iff : (a b : Subject) → (subjects_eq a b ≡ true) ↔ (a ≡ b)
subjects_eq_iff a b = ground (
  arith,
  eq_iff a.kind b.kind,
  eq_iff a.api_group b.api_group,
  eq_iff a.name b.name,
  eq_iff a.namespace b.namespace,
)

instance abbrev pub subject_deep_eq : DeepEq Subject
subject_deep_eq = record { deep_eq = subjects_eq; deep_eq_iff = subjects_eq_iff }

pub nat_eq_iff : (a b : ℕ) → (nat_eq a b ≡ true) ↔ (a ≡ b)
nat_eq_iff a b = ground arith

instance abbrev pub nat_deep_eq : DeepEq ℕ
nat_deep_eq = record { deep_eq = nat_eq; deep_eq_iff = nat_eq_iff }

module _ {A : Type 0} ⦃e : DeepEq A⦄ where
  abbrev pub options_eq : Option A → Option A → Bool
  options_eq none none = true
  options_eq none (some _) = false
  options_eq (some _) none = false
  options_eq (some a) (some b) = e.deep_eq a b

  pub options_eq_iff : (a b : Option A) → (options_eq a b ≡ true) ↔ (a ≡ b)
  options_eq_iff none none = (λ _. refl, λ _. refl)
  options_eq_iff none (some _) = (λ h. cc, λ h. cc)
  options_eq_iff (some _) none = (λ h. cc, λ h. cc)
  options_eq_iff (some a) (some b) = ground (arith, e.deep_eq_iff a b)

instance abbrev pub option_deep_eq : {A : Type 0} ⦃e : DeepEq A⦄ → DeepEq (Option A)
option_deep_eq = record { deep_eq = options_eq; deep_eq_iff = options_eq_iff }

abbrev pub int_or_strings_eq : IntOrString → IntOrString → Bool
int_or_strings_eq (from_int a) (from_int b) = nat_eq a b
int_or_strings_eq (from_int _) (from_string _) = false
int_or_strings_eq (from_string _) (from_int _) = false
int_or_strings_eq (from_string a) (from_string b) = a == b

pub int_or_strings_eq_iff : (a b : IntOrString) → (int_or_strings_eq a b ≡ true) ↔ (a ≡ b)
int_or_strings_eq_iff (from_int a) (from_int b) = ground (arith, nat_eq_iff a b)
int_or_strings_eq_iff (from_int _) (from_string _) = (λ h. cc, λ h. cc)
int_or_strings_eq_iff (from_string _) (from_int _) = (λ h. cc, λ h. cc)
int_or_strings_eq_iff (from_string a) (from_string b) = ground (arith, eq_iff a b)

instance abbrev pub int_or_string_deep_eq : DeepEq IntOrString
int_or_string_deep_eq = record { deep_eq = int_or_strings_eq; deep_eq_iff = int_or_strings_eq_iff }

abbrev pub ports_eq : NetworkPolicyPort → NetworkPolicyPort → Bool
ports_eq a b =
    deep_eq a.protocol b.protocol && deep_eq a.port b.port && deep_eq a.end_port b.end_port

pub ports_eq_iff : (a b : NetworkPolicyPort) → (ports_eq a b ≡ true) ↔ (a ≡ b)
ports_eq_iff a b = ground (
  arith,
  options_eq_iff a.protocol b.protocol,
  options_eq_iff a.port b.port,
  options_eq_iff a.end_port b.end_port,
)

instance abbrev pub port_deep_eq : DeepEq NetworkPolicyPort
port_deep_eq = record { deep_eq = ports_eq; deep_eq_iff = ports_eq_iff }

abbrev pub ingress_rules_eq : NetworkPolicyIngressRule → NetworkPolicyIngressRule → Bool
ingress_rules_eq a b = deep_eq a.ports b.ports && deep_eq a.from b.from

pub ingress_rules_eq_iff :
    (a b : NetworkPolicyIngressRule) → (ingress_rules_eq a b ≡ true) ↔ (a ≡ b)
ingress_rules_eq_iff a b =
    ground (arith, lists_eq_iff a.ports b.ports, options_eq_iff a.from b.from)

instance abbrev pub ingress_rule_deep_eq : DeepEq NetworkPolicyIngressRule
ingress_rule_deep_eq = record { deep_eq = ingress_rules_eq; deep_eq_iff = ingress_rules_eq_iff }
