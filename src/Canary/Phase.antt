-- ===== src/Canary/Phase.antt =====
-- The phases of a worker recovery's canary, as src/qdev_runner/store.py tabulates them.
use qdev_runner_control_plan.Prelude.{
  ℕ, zero, suc, ◌≡◌, refl, sym, ◌∙◌, ap, Bool, true, false, List, [], ◌∷◌, String, nat_beq,
  nat_beq_iff, Eq, nat_eq, member, arith, ◌↔◌, not, ◌<◌,
}

pub data Phase : Type 0 where
  dispatch_intent dispatching dispatched run_observed labels_pending labels_applied job_observed
        completed :
      Phase
  cleanup_pending cleaned accepted ambiguous : Phase

-- The place of a phase in the sequence; `ambiguous` ends it from anywhere.
abbrev pub place : Phase → ℕ
place dispatch_intent = 0
place dispatching = 1
place dispatched = 2
place run_observed = 3
place labels_pending = 4
place labels_applied = 5
place job_observed = 6
place completed = 7
place cleanup_pending = 8
place cleaned = 9
place accepted = 10
place ambiguous = 11

-- _WORKER_RECOVERY_CANARY_PHASES, in their order
abbrev pub phases : List Phase
phases =
    dispatch_intent ∷ dispatching ∷ dispatched ∷ run_observed ∷ labels_pending ∷ labels_applied
    ∷ job_observed ∷ completed ∷ cleanup_pending ∷ cleaned ∷ accepted ∷ ambiguous ∷ []

nth : ℕ → List Phase → Phase
nth zero [] = ambiguous
nth zero (p ∷ ps) = p
nth (suc n) [] = ambiguous
nth (suc n) (p ∷ ps) = nth n ps

phase_at : ℕ → Phase
unfolding nth
phase_at n = nth n phases

phase_at-place : (p : Phase) → phase_at (place p) ≡ p
unfolding phase_at
phase_at-place dispatch_intent = refl
phase_at-place dispatching = refl
phase_at-place dispatched = refl
phase_at-place run_observed = refl
phase_at-place labels_pending = refl
phase_at-place labels_applied = refl
phase_at-place job_observed = refl
phase_at-place completed = refl
phase_at-place cleanup_pending = refl
phase_at-place cleaned = refl
phase_at-place accepted = refl
phase_at-place ambiguous = refl

place-injective : (p q : Phase) → place p ≡ place q → p ≡ q
place-injective p q e = sym (phase_at-place p) ∙ ap phase_at e ∙ phase_at-place q

abbrev pub phase_beq : Phase → Phase → Bool
phase_beq p q = nat_beq (place p) (place q)

pub phase_beq_iff : (p q : Phase) → (phase_beq p q ≡ true) ↔ (p ≡ q)
phase_beq_iff p q = (
  (λ h. place-injective p q ((nat_beq_iff (place p) (place q)).0 h)),
  (λ e. (nat_beq_iff (place p) (place q)).1 (ap place e)),
)

instance abbrev pub phase_eq : Eq Phase
phase_eq = record { beq = phase_beq; beq_iff = phase_beq_iff }

-- _WORKER_RECOVERY_CANARY_TRANSITIONS
abbrev pub transitions : Phase → List Phase
transitions dispatch_intent = dispatching ∷ ambiguous ∷ []
transitions dispatching = dispatched ∷ ambiguous ∷ []
transitions dispatched = run_observed ∷ ambiguous ∷ []
transitions run_observed = labels_pending ∷ ambiguous ∷ []
transitions labels_pending = labels_applied ∷ ambiguous ∷ []
transitions labels_applied = job_observed ∷ ambiguous ∷ []
transitions job_observed = completed ∷ ambiguous ∷ []
transitions completed = cleanup_pending ∷ ambiguous ∷ []
transitions cleanup_pending = cleaned ∷ ambiguous ∷ []
transitions cleaned = accepted ∷ ambiguous ∷ []
transitions accepted = []
transitions ambiguous = []

-- phase in _WORKER_RECOVERY_CANARY_TRANSITIONS.get(expected_phase, frozenset())
unfoldable pub follows : Phase → Phase → Bool
unfolding member
follows p q = member q (transitions p)

-- dispatched_phases
abbrev pub is_dispatched : Phase → Bool
is_dispatched dispatch_intent = false
is_dispatched dispatching = false
is_dispatched ambiguous = false
is_dispatched _ = true

-- run_phases
abbrev pub is_run : Phase → Bool
is_run dispatched = false
is_run p = is_dispatched p

-- job_phases
abbrev pub is_job : Phase → Bool
is_job job_observed = true
is_job completed = true
is_job cleanup_pending = true
is_job cleaned = true
is_job accepted = true
is_job _ = false

-- completed_phases
abbrev pub is_completed : Phase → Bool
is_completed job_observed = false
is_completed p = is_job p

-- phase in {"dispatched", "run_observed", "job_observed"}
abbrev pub is_observed : Phase → Bool
is_observed dispatched = true
is_observed run_observed = true
is_observed job_observed = true
is_observed _ = false

-- The keys of `unexpected_evidence`.
abbrev pub is_bare : Phase → Bool
is_bare completed = false
is_bare p = not (is_observed p)

-- _WORKER_RECOVERY_CANARY_STATUSES
abbrev pub statuses : List String
statuses = "queued" ∷ "in_progress" ∷ "waiting" ∷ "pending" ∷ "requested" ∷ "completed" ∷ []

-- _WORKER_RECOVERY_CANARY_CONCLUSIONS
abbrev pub conclusions : List String
conclusions =
    "success" ∷ "failure" ∷ "neutral" ∷ "cancelled" ∷ "skipped" ∷ "timed_out" ∷ "action_required"
    ∷ "stale" ∷ "startup_failure" ∷ []

-- A transition goes one place forward, or ends in `ambiguous`.
pub follows-place : (p q : Phase) → follows p q ≡ true → place p < place q
unfolding follows member
follows-place dispatch_intent q h = ground arith
follows-place dispatching q h = ground arith
follows-place dispatched q h = ground arith
follows-place run_observed q h = ground arith
follows-place labels_pending q h = ground arith
follows-place labels_applied q h = ground arith
follows-place job_observed q h = ground arith
follows-place completed q h = ground arith
follows-place cleanup_pending q h = ground arith
follows-place cleaned q h = ground arith
follows-place accepted q h = absurd (ground arith)
follows-place ambiguous q h = absurd (ground arith)
