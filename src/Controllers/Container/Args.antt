-- ===== src/Controllers/Container/Args.antt =====
-- controllers/deployment.go: when the arguments of the controller are accepted, and what they are.
use argo_rollouts_manager.Controllers.Scope.{contains}
use argo_rollouts_manager.Go.Errors.{GoError, refusal, answer}
use argo_rollouts_manager.Api.{RolloutManager, ha_enabled}
use argo_rollouts_manager.Controllers.Container.{
  is_mergable, get_rollouts_command_args, default_args, is_flag,
}
use argo_rollouts_manager.Base.{
  ◌≡◌, List, String, Bool, is_some, true, any, ◌∷◌, Bool-cases, ◌&&◌, ◌⊎◌, inl, false, inr, [],
  ◌++◌, refl, Option-cases, sym, ◌∙◌, ap, if◌then◌else◌, text_cases, ◌==◌, arith, ◌||◌, subst,
  ==-eq_false,
}

-- The flags that the operator sets: --namespaced in namespace scope, --leader-elect with high
-- availability.
abbrev pub sets_flag : Bool → Bool → String → Bool
sets_flag namespaced ha arg =
    (namespaced && ("--namespaced" == arg)) || (ha && ("--leader-elect" == arg))

abbrev arguments : Bool → Bool → List String
arguments namespaced ha =
    (if namespaced then "--namespaced" ∷ [] else [])
    ++ (if ha then "--leader-elect" ∷ "true" ∷ [] else [])

namespaced_flag :
    (b h : Bool)
    → (is_flag "--namespaced" && contains (arguments b h) "--namespaced")
      ≡ sets_flag b h "--namespaced"
unfolding contains
namespaced_flag true true = refl
namespaced_flag true false = refl
namespaced_flag false true = refl
namespaced_flag false false = refl

leader_flag :
    (b h : Bool)
    → (is_flag "--leader-elect" && contains (arguments b h) "--leader-elect")
      ≡ sets_flag b h "--leader-elect"
unfolding contains
leader_flag true true = refl
leader_flag true false = refl
leader_flag false true = refl
leader_flag false false = refl

value_no_flag :
    (b h : Bool) → (is_flag "true" && contains (arguments b h) "true") ≡ sets_flag b h "true"
value_no_flag true true = refl
value_no_flag true false = refl
value_no_flag false true = refl
value_no_flag false false = refl

other_flag :
    (b h : Bool) (arg : String)
    → ("--namespaced" == arg) ≡ false
    → ("--leader-elect" == arg) ≡ false
    → ("true" == arg) ≡ false
    → (is_flag arg && contains (arguments b h) arg) ≡ sets_flag b h arg
unfolding contains
other_flag true true arg n l t = rw (n, l, t) (ground arith)
other_flag true false arg n l t = rw n (ground arith)
other_flag false true arg n l t = rw (l, t) (ground arith)
other_flag false false arg n l t = ground arith

sets_flag-contains :
    (b h : Bool) (arg : String) → (is_flag arg && contains (arguments b h) arg) ≡ sets_flag b h arg
sets_flag-contains b h arg = elim (text_cases "--namespaced" arg) [
  | inl e ↦
      subst (λ a. (is_flag a && contains (arguments b h) a) ≡ sets_flag b h a) e
        (namespaced_flag b h)
  | inr n ↦ elim (text_cases "--leader-elect" arg) [
    | inl e ↦
        subst (λ a. (is_flag a && contains (arguments b h) a) ≡ sets_flag b h a) e (leader_flag b h)
    | inr l ↦ elim (text_cases "true" arg) [
      | inl e ↦
          subst (λ a. (is_flag a && contains (arguments b h) a) ≡ sets_flag b h a) e
            (value_no_flag b h)
      | inr t ↦
          other_flag b h arg (==-eq_false "--namespaced" arg n) (==-eq_false "--leader-elect" arg l)
            (==-eq_false "true" arg t)
    ]
  ]
]

-- An extra argument is a flag that the operator sets.
abbrev pub repeats : RolloutManager → Bool
repeats cr =
    any (λ arg. sets_flag cr.spec.namespace_scoped (ha_enabled cr) arg) cr.spec.extra_command_args

is_mergable-any :
    (b h : Bool) (extra : List String)
    → is_some (is_mergable extra (arguments b h)) ≡ any (λ arg. sets_flag b h arg) extra
unfolding is_mergable
is_mergable-any b h [] = refl
is_mergable-any b h (arg ∷ extra) =
    elim (Bool-cases (is_flag arg && contains (arguments b h) arg)) [
      | inl e ↦ rw (e, sym (sets_flag-contains b h arg) ∙ e) refl
      | inr e ↦ rw (e, sym (sets_flag-contains b h arg) ∙ e) (is_mergable-any b h extra)
    ]

-- The arguments are refused when --namespaced is among the extra ones in namespace scope, or
-- --leader-elect with high availability, written just so; otherwise they are the operator's own,
-- --namespaced in namespace scope and --leader-elect true with high availability, followed by the
-- extra ones, in order.
pub get_rollouts_command_args-repeats :
    (cr : RolloutManager)
    → ((repeats cr ≡ true) × ((e : GoError) × (get_rollouts_command_args cr ≡ refusal e)))
      ⊎ ((repeats cr ≡ false)
          × (get_rollouts_command_args cr
              ≡ answer (
                  ((if cr.spec.namespace_scoped then "--namespaced" ∷ [] else [])
                    ++ (if ha_enabled cr then "--leader-elect" ∷ "true" ∷ [] else []))
                  ++ cr.spec.extra_command_args)))
unfolding get_rollouts_command_args
get_rollouts_command_args-repeats cr =
    let same =
      is_mergable-any cr.spec.namespace_scoped (ha_enabled cr) cr.spec.extra_command_args in
    elim (Option-cases (is_mergable cr.spec.extra_command_args (default_args cr))) [
      | inl e ↦ inr (sym same ∙ ap is_some e, rw (get_rollouts_command_args, e) refl)
      | inr (x, e) ↦ inl (sym same ∙ ap is_some e, (x, rw (get_rollouts_command_args, e) refl))
    ]
