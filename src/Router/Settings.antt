-- ===== src/Router/Settings.antt =====
-- src/adapt_ipc.c: the policy that `adapt_init` reads from the environment.
use adaptipc.Base.{
  ℕ, ◌≡◌, ◌≢◌, refl, sym, ◌∙◌, ap, ◌⊎◌, inl, inr, true, false, Bool, if◌then◌else◌, Option, none,
  some, List, arith,
}
use adaptipc.Base.Text.{same_text, same_text_sound}
use adaptipc.Cost.Types.{
  Policy, default, size_only, size_hysteresis, queue_aware, cost_aware, full_adaptive, rank,
}
use adaptipc.Cost.Names.{
  size_only_text, size_hysteresis_text, queue_aware_text, cost_aware_text, full_adaptive_text,
  policy_name,
}
use adaptipc.Router.Init.{named_policy, env_policy, or_else, resolve_policy}

named_policy-name : (p : Policy) → p ≢ default → named_policy (policy_name (rank p)) ≡ some p
unfolding named_policy
named_policy-name default n = absurd (n refl)
named_policy-name size_only n = refl
named_policy-name size_hysteresis n = refl
named_policy-name queue_aware n = refl
named_policy-name cost_aware n = refl
named_policy-name full_adaptive n = refl

-- One link of the chain.
link :
    (pv name : List ℕ) (q : Policy) (rest : Option Policy) (p : Policy)
    → name ≡ policy_name (rank q)
    → (rest ≡ some p → pv ≡ policy_name (rank p))
    → (if same_text pv name then some q else rest) ≡ some p
    → pv ≡ policy_name (rank p)
link pv name q rest p named later e = by_test (same_text pv name) refl e
  where
    by_test :
        (b : Bool)
        → same_text pv name ≡ b
        → (if b then some q else rest) ≡ some p
        → pv ≡ policy_name (rank p)
    by_test true y f =
        let same : q ≡ p = ground arith in
        same_text_sound pv name y ∙ named ∙ ap (λ x. policy_name (rank x)) same
    by_test false n f = later f

named_policy_sound :
    (pv : List ℕ) (p : Policy) → named_policy pv ≡ some p → pv ≡ policy_name (rank p)
unfolding named_policy
named_policy_sound pv p = link pv size_only_text size_only _ p refl (
    link pv size_hysteresis_text size_hysteresis _ p refl (
      link pv queue_aware_text queue_aware _ p refl (
        link pv cost_aware_text cost_aware _ p refl
          (link pv full_adaptive_text full_adaptive none p refl (λ e. absurd (ground arith))))))

named_policy-default : (pv : List ℕ) → named_policy pv ≢ some default
unfolding named_policy
named_policy-default pv = ground arith

unnamed :
    (pv : List ℕ) (p : Policy)
    → named_policy pv ≡ none
    → (p ≡ default) ⊎ (pv ≢ policy_name (rank p))
unnamed pv p e = by_policy p
  where
    refuted : (p : Policy) → p ≢ default → pv ≢ policy_name (rank p)
    refuted p n q =
        let read : none ≡ some p = sym e ∙ ap named_policy q ∙ named_policy-name p n in
        absurd (ground arith)

    by_policy : (p : Policy) → (p ≡ default) ⊎ (pv ≢ policy_name (rank p))
    by_policy default = inl refl
    by_policy size_only = inr (refuted size_only (ground arith))
    by_policy size_hysteresis = inr (refuted size_hysteresis (ground arith))
    by_policy queue_aware = inr (refuted queue_aware (ground arith))
    by_policy cost_aware = inr (refuted cost_aware (ground arith))
    by_policy full_adaptive = inr (refuted full_adaptive (ground arith))

-- The names that `adapt_policy_name` prints are the ones that `adapt_init` reads, and it reads no other
-- text: where the configuration leaves the policy open and the variable holds `pv`, either `pv` is the
-- name of a policy other than the default, and the policy is that one, or `pv` is no such name, and the
-- policy is size with hysteresis. A policy that the configuration names wins over any `pv`.
pub resolve_policy_lem :
    (pv : List ℕ) (explicit : Policy)
    → (((p : Policy) × (p ≢ default)
          × (pv ≡ policy_name (rank p))
          × (resolve_policy default (some pv) ≡ p))
        ⊎ (((p : Policy) → (p ≡ default) ⊎ (pv ≢ policy_name (rank p)))
            × (resolve_policy default (some pv) ≡ size_hysteresis)))
      × ((explicit ≡ default) ⊎ (resolve_policy explicit (some pv) ≡ explicit))
unfolding resolve_policy env_policy
resolve_policy_lem pv explicit = (by_name (named_policy pv) refl, by_config explicit)
  where
    by_name :
        (named : Option Policy)
        → named_policy pv ≡ named
        → ((p : Policy) × (p ≢ default)
            × (pv ≡ policy_name (rank p))
            × (or_else (named_policy pv) size_hysteresis ≡ p))
          ⊎ (((p : Policy) → (p ≡ default) ⊎ (pv ≢ policy_name (rank p)))
              × (or_else (named_policy pv) size_hysteresis ≡ size_hysteresis))
    by_name (some p) e =
        inl
          (p, (λ d. named_policy-default pv (e ∙ ap some d)), named_policy_sound pv p e, rw e refl)
    by_name none e = inr ((λ p. unnamed pv p e), rw e refl)

    by_config :
        (explicit : Policy) → (explicit ≡ default) ⊎ (resolve_policy explicit (some pv) ≡ explicit)
    by_config default = inl refl
    by_config size_only = inr refl
    by_config size_hysteresis = inr refl
    by_config queue_aware = inr refl
    by_config cost_aware = inr refl
    by_config full_adaptive = inr refl
