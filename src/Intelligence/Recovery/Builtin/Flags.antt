-- ===== src/Intelligence/Recovery/Builtin/Flags.antt =====
-- What the default cascade does on a context of flags.
use chat_to_agent.Base.{
  if◌then◌else◌, Bool-cases, ℕ, ◌≤◌, String, ◌≡◌, refl, ap, ◌∙◌, inl, inr, Bool, true, false, some,
  List, [], ◌∷◌, map, arith,
}
use chat_to_agent.Base.Exec.{returned}
use chat_to_agent.Intelligence.Recovery.{
  RecoveryStep, RecoveryAction, RecoveryOutcome, RecoveryCascade, run, run_steps, selector_cache,
  a11y, graph, network, session, worker, provider, workflow, cost, is_confident, record_outcome,
  cascade_order,
}
use chat_to_agent.Intelligence.Recovery.Builtin.{
  Context, answer, outcome_of, selector_cache_recovery, a11y_recovery, graph_recovery,
  network_recovery, session_recovery, worker_recovery, provider_recovery, workflow_recovery, is_set,
  build_default_cascade,
}

-- The flag that the built-in handler of a step looks for.
abbrev pub flag_of : RecoveryStep → String
flag_of selector_cache = "selector_cache_hit"
flag_of a11y = "a11y_recovered"
flag_of graph = "graph_recovered"
flag_of network = "network_recovered"
flag_of session = "session_refreshed"
flag_of worker = "worker_replaced"
flag_of provider = "provider_switched"
flag_of workflow = "workflow_replanned"

-- The tests up to the first that holds.
abbrev pub until_first : List Bool → List Bool
until_first [] = []
until_first (b ∷ bs) = b ∷ (if b then [] else until_first bs)

-- The handler of this step answers with the flag, confidently if it is set.
abbrev IsFlagged : RecoveryCascade Context → Context → RecoveryStep → Type 0
IsFlagged c context s =
    (h : RecoveryAction Context) × (o : RecoveryOutcome) × (c.handlers s ≡ some h)
    × ((h context).0 ≡ returned o)
    × ((h context).1 ≡ context)
    × (o.success ≡ is_set (flag_of s) context)
    × (is_confident c.min_confidence o ≡ is_set (flag_of s) context)

cons_congr : {a b : Bool} {xs ys : List Bool} → a ≡ b → xs ≡ ys → (a ∷ xs) ≡ (b ∷ ys)
cons_congr e f = cc

run_steps-flags :
    (steps : List RecoveryStep) (c : RecoveryCascade Context) (context : Context)
    → ((s : RecoveryStep) → IsFlagged c context s)
    → (map (λ (o : RecoveryOutcome). o.success) (run_steps steps c context).0
        ≡ until_first (map (λ s. is_set (flag_of s) context) steps))
      × ((run_steps steps c context).2 ≡ context)
unfolding run_steps record_outcome
run_steps-flags [] c context h = (refl, refl)
run_steps-flags (s ∷ steps) c context h =
    let (handler, result, e, f, stays, g, i) = h s in
    let o = record result { cost = cost s } in
    let (os, last) = run_steps-flags steps (record_outcome o c) context h in
    rw (e, run_steps)
      (rw (f, run_steps)
        (elim (Bool-cases (is_set (flag_of s) context)) [
          | inl set ↦ rw (i ∙ set, run_steps) (rw set (ap (λ b. b ∷ []) (g ∙ set)), stays)
          | inr unset ↦
              rw (i ∙ unset, stays, run_steps) (rw unset (cons_congr (g ∙ unset) os), last)
        ]))

-- The answer of a built-in handler, by its flag.
answer-flag :
    (b : Bool) (s : RecoveryStep) (sure : ℕ) (hit miss : String) (context : Context)
    → 55 ≤ sure
    → (o : RecoveryOutcome) × ((if b
          then answer (outcome_of s true sure hit) context
          else answer (outcome_of s false 0 miss) context)
        ≡ (returned o, context))
      × (o.success ≡ b)
      × (is_confident 55 o ≡ b)
answer-flag true s sure hit miss context h = (outcome_of s true sure hit, refl, refl, ground arith)
answer-flag false s sure hit miss context h = (outcome_of s false 0 miss, refl, refl, refl)

default-IsFlagged :
    (context : Context) (s : RecoveryStep) → IsFlagged build_default_cascade context s
unfolding build_default_cascade
default-IsFlagged context selector_cache =
    let (o, f, g, i) =
      answer-flag (is_set (flag_of selector_cache) context) selector_cache 95 "cache_hit"
        "cache_miss" context (omega arith) in
    (selector_cache_recovery, o, refl, ap (λ p. p.0) f, ap (λ p. p.1) f, g, i)
default-IsFlagged context a11y =
    let (o, f, g, i) =
      answer-flag (is_set (flag_of a11y) context) a11y 80 "a11y_query_succeeded" "no_a11y_root"
        context (omega arith) in
    (a11y_recovery, o, refl, ap (λ p. p.0) f, ap (λ p. p.1) f, g, i)
default-IsFlagged context graph =
    let (o, f, g, i) =
      answer-flag (is_set (flag_of graph) context) graph 70 "graph_query_succeeded" "no_graph_match"
        context (omega arith) in
    (graph_recovery, o, refl, ap (λ p. p.0) f, ap (λ p. p.1) f, g, i)
default-IsFlagged context network =
    let (o, f, g, i) =
      answer-flag (is_set (flag_of network) context) network 65 "stream_recovered"
        "stream_still_stalled" context (omega arith) in
    (network_recovery, o, refl, ap (λ p. p.0) f, ap (λ p. p.1) f, g, i)
default-IsFlagged context session =
    let (o, f, g, i) =
      answer-flag (is_set (flag_of session) context) session 85 "session_refreshed"
        "session_refresh_failed" context (omega arith) in
    (session_recovery, o, refl, ap (λ p. p.0) f, ap (λ p. p.1) f, g, i)
default-IsFlagged context worker =
    let (o, f, g, i) =
      answer-flag (is_set (flag_of worker) context) worker 90 "worker_replaced" "no_spare_worker"
        context (omega arith) in
    (worker_recovery, o, refl, ap (λ p. p.0) f, ap (λ p. p.1) f, g, i)
default-IsFlagged context provider =
    let (o, f, g, i) =
      answer-flag (is_set (flag_of provider) context) provider 95 "provider_switched"
        "no_alternate_provider" context (omega arith) in
    (provider_recovery, o, refl, ap (λ p. p.0) f, ap (λ p. p.1) f, g, i)
default-IsFlagged context workflow =
    let (o, f, g, i) =
      answer-flag (is_set (flag_of workflow) context) workflow 99 "workflow_replanned"
        "replan_failed" context (omega arith) in
    (workflow_recovery, o, refl, ap (λ p. p.0) f, ap (λ p. p.1) f, g, i)

-- The default cascade tries its steps up to the first whose flag is set, and only that one succeeds;
-- if no flag is set it tries all eight and none succeeds. The context stays.
pub run-build_default_cascade :
    (context : Context)
    → (map (λ (o : RecoveryOutcome). o.success) (run build_default_cascade context).0
        ≡ until_first (map (λ s. is_set (flag_of s) context) cascade_order))
      × ((run build_default_cascade context).2 ≡ context)
unfolding run
run-build_default_cascade context =
    run_steps-flags cascade_order build_default_cascade context (default-IsFlagged context)
