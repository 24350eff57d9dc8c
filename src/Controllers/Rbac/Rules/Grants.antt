-- ===== src/Controllers/Rbac/Rules/Grants.antt =====
-- controllers/resources.go: what the policy rules let their subjects do.
use argo_rollouts_manager.Kube.Objects.{PolicyRule}
use argo_rollouts_manager.Controllers.Rbac.Rules.{
  get_aggregate_to_view_policy_rules, get_policy_rules, get_aggregate_to_edit_policy_rules,
  get_aggregate_to_admin_policy_rules,
}
use argo_rollouts_manager.Base.{
  ◌≡◌, String, List, Bool, true, ◌∷◌, arith, any, all, [], refl, Bool-cases, text_cases, ◌&&◌, ◌==◌,
  inl, inr, ==-eq_false, not, ◌||◌, sym, ◌∙◌,
}

abbrev pub among : List String → String → Bool
among l s = any (λ x. x == s) l

-- As `among`, where a wildcard stands for everything.
abbrev matches : List String → String → Bool
matches l s = any (λ x. (x == s) || (x == "*")) l

-- A list of rules allows a verb on a resource of an API group, as the API server reads it: an
-- asterisk in any of the three lists stands for everything.
unfoldable pub grants : List PolicyRule → String → String → String → Bool
grants rules group resource verb =
    any (λ r. matches r.api_groups group && matches r.resources resource && matches r.verbs verb)
      rules

-- The same without wildcards.
unfoldable pub lists : List PolicyRule → String → String → String → Bool
lists rules group resource verb =
    any (λ r. among r.api_groups group && among r.resources resource && among r.verbs verb) rules

abbrev plain : List String → Bool
plain l = all (λ x. not (x == "*")) l

unfoldable pub has_no_wildcard : List PolicyRule → Bool
has_no_wildcard rules = all (λ r. plain r.api_groups && plain r.resources && plain r.verbs) rules

matches-among : (l : List String) (s : String) → plain l ≡ true → matches l s ≡ among l s
matches-among [] s h = refl
matches-among (x ∷ l) s h = ground (arith, h, matches-among l s (ground (arith, h)))

-- Without wildcards a rule allows what it lists.
grants-lists :
    (rules : List PolicyRule) (g x v : String)
    → has_no_wildcard rules ≡ true
    → grants rules g x v ≡ lists rules g x v
unfolding grants lists has_no_wildcard
grants-lists [] g x v h = refl
grants-lists (r ∷ rules) g x v h =
    rw
      (
        matches-among r.api_groups g (ground (arith, h)),
        matches-among r.resources x (ground (arith, h)),
        matches-among r.verbs v (ground (arith, h)),
        grants-lists rules g x v (ground (arith, h)),
      )
      refl

-- Every triple of the rules passes a test.
unfoldable pub all_grants : (String → String → String → Bool) → List PolicyRule → Bool
all_grants p rules =
    all (λ r. all (λ g. all (λ x. all (λ v. p g x v) r.verbs) r.resources) r.api_groups) rules

all-among :
    (p : String → Bool) (l : List String) (s : String)
    → all p l ≡ true
    → among l s ≡ true
    → p s ≡ true
all-among p [] s h m = ground arith
all-among p (x ∷ xs) s h m = elim (text_cases x s) [
  | inl e ↦ rw (← e) (ground (arith, h))
  | inr n ↦ all-among p xs s (ground (arith, h)) (ground (arith, ==-eq_false x s n, m))
]

-- A listed triple passes a test that all the triples of the rules pass.
lists-all :
    (p : String → String → String → Bool) (rules : List PolicyRule) (g x v : String)
    → all_grants p rules ≡ true
    → lists rules g x v ≡ true
    → p g x v ≡ true
unfolding all_grants lists
lists-all p [] g x v h m = ground arith
lists-all p (r ∷ rules) g x v h m =
    elim (Bool-cases (among r.api_groups g && among r.resources x && among r.verbs v)) [
      | inl e ↦
          all-among (λ v. p g x v) r.verbs v
            (all-among (λ x. all (λ v. p g x v) r.verbs) r.resources x
              (all-among (λ g. all (λ x. all (λ v. p g x v) r.verbs) r.resources) r.api_groups g
                (ground (arith, h, e, m)) (ground (arith, h, e, m)))
              (ground (arith, h, e, m)))
            (ground (arith, h, e, m))
      | inr e ↦ lists-all p rules g x v (ground (arith, h, e, m)) (ground (arith, h, e, m))
    ]

-- A granted triple passes a test that all the triples of rules without wildcards pass.
pub grants-all :
    (p : String → String → String → Bool) (rules : List PolicyRule) (g x v : String)
    → has_no_wildcard rules ≡ true
    → all_grants p rules ≡ true
    → grants rules g x v ≡ true
    → p g x v ≡ true
grants-all p rules g x v bare h m =
    lists-all p rules g x v h (sym (grants-lists rules g x v bare) ∙ m)

-- Whatever the aggregated view role allows, the edit role allows, and whatever the edit role
-- allows, the admin role allows.
pub aggregate_rules_nested :
    (g x v : String)
    → (grants get_aggregate_to_view_policy_rules g x v ≡ true
        → grants get_aggregate_to_edit_policy_rules g x v ≡ true)
      × (grants get_aggregate_to_edit_policy_rules g x v ≡ true
          → grants get_aggregate_to_admin_policy_rules g x v ≡ true)
unfolding get_aggregate_to_view_policy_rules get_aggregate_to_edit_policy_rules
    get_aggregate_to_admin_policy_rules all_grants grants has_no_wildcard
aggregate_rules_nested g x v = (
  grants-all (grants get_aggregate_to_edit_policy_rules) get_aggregate_to_view_policy_rules g x v
      refl refl,
  grants-all (grants get_aggregate_to_admin_policy_rules) get_aggregate_to_edit_policy_rules g x v
      refl refl,
)

-- A verb that only reads.
abbrev pub reading : List String
reading = "get" ∷ "list" ∷ "watch" ∷ []

-- The rules of the Rollouts controller allow no verb but get, list and watch on secrets and on
-- config maps, of any API group, and those of the aggregated view role allow no other verb on any
-- resource, where an asterisk in a rule stands for everything.
pub only_reading :
    (g x v : String)
    → (grants get_policy_rules g "secrets" v ≡ true → among reading v ≡ true)
      × (grants get_policy_rules g "configmaps" v ≡ true → among reading v ≡ true)
      × (grants get_aggregate_to_view_policy_rules g x v ≡ true → among reading v ≡ true)
unfolding get_policy_rules get_aggregate_to_view_policy_rules all_grants grants has_no_wildcard
only_reading g x v = (
  grants-all (λ g x v. not (x == "secrets") || among reading v) get_policy_rules g "secrets" v refl
      refl,
  grants-all (λ g x v. not (x == "configmaps") || among reading v) get_policy_rules g "configmaps" v
      refl refl,
  grants-all (λ g x v. among reading v) get_aggregate_to_view_policy_rules g x v refl refl,
)
