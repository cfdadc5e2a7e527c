-- ===== src/Execution/Prepare/Faithful.antt =====
-- What a prepared submission keeps of its request, and what has been seen before it.
use securecrt_mcp.Prelude.{
  ◌≡◌, refl, sym, ◌∙◌, Bool, true, false, ◌&&◌, ◌||◌, [], arith, if◌then◌else◌, Bool-cases,
  Option-cases, inl, inr, Option, none, some, Result, ok, err, ◌>>=◌, ◌>>◌, ensure, context,
  is_some, unwrap_or, ◌⊎◌, subst,
}
use securecrt_mcp.Text.{Text, trim_end, eq_text}
use securecrt_mcp.Text.Equality.{eq_text→eq}
use securecrt_mcp.Assoc.{lookup, contains_key}
use securecrt_mcp.Config.{BridgeConfig, within}
use securecrt_mcp.Execution.Params.{ExecuteParams, is_posix}
use securecrt_mcp.Execution.Registry.{Registry}
use securecrt_mcp.Execution.Prepare.{
  RunParams, RunError, Screen, Plan, submits, replays, prepare, planned, existing, on_free,
  on_screen, expected, submission, shell_prompt_candidate, run_timeout,
}

-- The screen that was read shows the prompt that the submission expects, and nothing else on its
-- line; a prompt that the request does not name is one of a POSIX shell that waits for a command.
abbrev pub SawPrompt : RunParams → ExecuteParams → Screen → Type 0
SawPrompt p q s =
    (q.expected_prompt ≡ trim_end (unwrap_or s.current_line []))
    × (s.screen_token ≡ some q.screen_token)
    × ((is_some p.expected_prompt || (is_posix p.mode && shell_prompt_candidate q.expected_prompt))
        ≡ true)

-- Or, in the POSIX mode, no screen is read: the prompt of the request, if it names one, and an empty
-- token are handed to a bridge that has the fast path.
abbrev pub IsChecked : RunParams → Result Text Bool → Result Text Screen → ExecuteParams → Type 0
IsChecked p fast screen q =
    ((is_posix p.mode ≡ true)
      × (fast ≡ ok true)
      × (q.screen_token ≡ [])
      × (q.expected_prompt ≡ unwrap_or p.expected_prompt []))
    ⊎ ((s : Screen) × ((screen ≡ ok s) × SawPrompt p q s))

given_prompt :
    (w current prompt : Text)
    → ◌≡◌ {A = Result RunError Text}
        (if eq_text (trim_end w) current then ok (trim_end w) else err RunError.prompt_mismatch)
        (ok prompt)
    → prompt ≡ current
given_prompt w current prompt h = elim (Bool-cases (eq_text (trim_end w) current)) [
  | inl t ↦
      let same : trim_end w ≡ prompt = ground (arith, t) in
      sym same ∙ eq_text→eq (trim_end w) current t
  | inr t ↦ absurd (ground (arith, t))
]

guessed_prompt :
    (posix candidate : Bool) (current prompt : Text)
    → ◌≡◌ {A = Result RunError Text}
        (if posix && candidate then ok current else err RunError.context_required)
        (ok prompt)
    → (prompt ≡ current) × ((posix && candidate) ≡ true)
guessed_prompt posix candidate current prompt h = ground arith

expected_lem :
    (p : RunParams) (current prompt : Text)
    → expected p current ≡ ok prompt
    → (prompt ≡ current)
      × ((is_some p.expected_prompt || (is_posix p.mode && shell_prompt_candidate prompt)) ≡ true)
unfolding expected
expected_lem p current prompt h = elim (Option-cases p.expected_prompt) [
  | inl e ↦
      let (same, seen) =
        guessed_prompt (is_posix p.mode) (shell_prompt_candidate current) current prompt
          (rw e at h) in
      (same, rw (e, same) seen)
  | inr (w, e) ↦ (given_prompt w current prompt (rw e at h), rw e refl)
]

-- A submission of the request, with the token and the prompt that it has.
abbrev pub IsOf : BridgeConfig → RunParams → Text → ExecuteParams → Type 0
IsOf config p op q = q ≡ submission config p op q.screen_token q.expected_prompt

on_screen_lem :
    (config : BridgeConfig) (p : RunParams) (op : Text) (s : Screen) (q : ExecuteParams)
    → on_screen config p op s ≡ ok (submits q)
    → SawPrompt p q s × IsOf config p op q
unfolding on_screen submission
on_screen_lem config p op s q h =
    let current = trim_end (unwrap_or s.current_line []) in
    go (expected p current) s.screen_token (λ prompt. expected_lem p current prompt) refl h
  where
    go :
        (x : Result RunError Text) (token : Option Text)
        → ((prompt : Text)
            → x ≡ ok prompt
            → (prompt ≡ trim_end (unwrap_or s.current_line []))
              × ((is_some p.expected_prompt || (is_posix p.mode && shell_prompt_candidate prompt))
                  ≡ true))
        → s.screen_token ≡ token
        → (x >>= λ prompt. context token RunError.missing_token >>= λ t.
            ok (submits (submission config p op t prompt)))
          ≡ ok (submits q)
        → SawPrompt p q s × IsOf config p op q
    go (err e) token seen t k = absurd (cc k)
    go (ok prompt) none seen t k = absurd (cc k)
    go (ok prompt) (some token) seen t k =
        let same : submission config p op token prompt ≡ q = ground (arith, k) in
        let (shown, known) = seen prompt refl in
        subst (λ r. SawPrompt p r s × IsOf config p op r) same ((shown, t, known), refl)

abbrev pub IsPrepared :
    BridgeConfig → RunParams → Text → Result Text Bool → Result Text Screen → ExecuteParams → Type 0
IsPrepared config p op fast screen q = IsChecked p fast screen q × IsOf config p op q

screened :
    (config : BridgeConfig) (p : RunParams) (op : Text) (fast : Result Text Bool)
    (screen : Result Text Screen) (q : ExecuteParams)
    → ◌≡◌ {A = Result RunError Plan}
        (elim screen [ err e ↦ err RunError.preflight_failed | ok s ↦ on_screen config p op s ])
        (ok (submits q))
    → IsPrepared config p op fast screen q
screened config p op fast (err e) q h = absurd (cc h)
screened config p op fast (ok s) q h =
    let (saw, of) = on_screen_lem config p op s q h in (inr (s, (refl, saw)), of)

on_free_lem :
    (config : BridgeConfig) (p : RunParams) (op : Text) (fast : Result Text Bool)
    (screen : Result Text Screen) (q : ExecuteParams)
    → on_free config p op fast screen ≡ ok (submits q)
    → IsPrepared config p op fast screen q
unfolding on_free submission
on_free_lem config p op (err e) screen q h = elim (Bool-cases (is_posix p.mode)) [
  | inl m ↦ absurd (cc (rw m at h))
  | inr m ↦ screened config p op (err e) screen q (rw m at h)
]
on_free_lem config p op (ok false) screen q h = elim (Bool-cases (is_posix p.mode)) [
  | inl m ↦ screened config p op (ok false) screen q (rw m at h)
  | inr m ↦ screened config p op (ok false) screen q (rw m at h)
]
on_free_lem config p op (ok true) screen q h = elim (Bool-cases (is_posix p.mode)) [
  | inl m ↦ sent_fast m (rw m at h)
  | inr m ↦ screened config p op (ok true) screen q (rw m at h)
]
  where
    sent_fast :
        is_posix p.mode ≡ true
        → ◌≡◌ {A = Result RunError Plan}
            (ok (submits (submission config p op [] (unwrap_or p.expected_prompt []))))
            (ok (submits q))
        → IsPrepared config p op (ok true) screen q
    sent_fast m k =
        let same : submission config p op [] (unwrap_or p.expected_prompt []) ≡ q =
          ground (arith, k) in
        subst (IsPrepared config p op (ok true) screen) same (inl (m, refl, refl, refl), refl)

-- The parts of a chain that came to a result.
then_parts :
    {A : Type 0} (m : Result RunError (Unit {0})) (k : Result RunError A) (a : A)
    → (m >> k) ≡ ok a
    → (m ≡ ok tt) × (k ≡ ok a)
then_parts (ok tt) k a h = (refl, h)
then_parts (err e) k a h = absurd (cc h)

ensured : (b : Bool) (e : RunError) → ensure b e ≡ ok tt → b ≡ true
ensured true e h = refl
ensured false e h = absurd (cc h)

bound_parts :
    (x : Result RunError (Option Text)) (f : Option Text → Result RunError Plan) (q : ExecuteParams)
    → ((id : Text) → f (some id) ≡ ok (replays id))
    → (x >>= f) ≡ ok (submits q)
    → (x ≡ ok none) × (f none ≡ ok (submits q))
bound_parts (err e) f q k h = absurd (cc h)
bound_parts (ok none) f q k h = (refl, h)
bound_parts (ok (some id)) f q k h =
    let differs : ◌≡◌ {A = Result RunError Plan} (ok (replays id)) (ok (submits q)) =
      sym (k id) ∙ h in
    absurd (cc differs)

existing-none :
    (r : Registry) (session op fingerprint : Text)
    → existing r session op fingerprint ≡ ok none
    → (lookup op r.operations ≡ none) × (contains_key session r.busy ≡ false)
unfolding existing
existing-none r session op fingerprint h = ground arith

-- A submission that is prepared is that of the request, with the identifier that was given or drawn:
-- of the same session, command and mode. The identifier is new, the session is not held, no other
-- request is being prepared for it, and the time is within the bounds. Its prompt is that of the
-- current line of the screen that was read, whose token it has; and it is the prompt of the request,
-- or, where the request names none, the mode is POSIX and the line looks like one of a shell. Or the
-- mode is POSIX and the bridge has the fast path: then the token is empty, and the prompt is the one
-- that the request names, or empty where it names none.
pub prepare-IsPrepared :
    (config : BridgeConfig) (p : RunParams) (op fingerprint : Text) (gate_free : Bool)
    (r : Registry) (fast : Result Text Bool) (screen : Result Text Screen) (q : ExecuteParams)
    → prepare config p op fingerprint gate_free r fast screen ≡ ok (submits q)
    → (lookup op r.operations ≡ none)
      × (contains_key p.session r.busy ≡ false)
      × (gate_free ≡ true)
      × (within 1000 config.max_command_timeout_ms (run_timeout config p) ≡ true)
      × IsPrepared config p op fast screen q
unfolding prepare
prepare-IsPrepared config p op fingerprint gate_free r fast screen q h =
    let found = existing r p.session op fingerprint in
    let plan = planned config p op fast screen in
    let timed = within 1000 config.max_command_timeout_ms (run_timeout config p) in
    let (checks, rest) = then_parts _ (found >>= plan) (submits q) h in
    let (front, gate) = then_parts _ (ensure gate_free RunError.preparing) tt checks in
    let (sizes, time) = then_parts _ (ensure timed RunError.invalid_timeout) tt front in
    let (is_new, free) = bound_parts found plan q (λ id. unfold planned in refl) rest in
    let (unknown, idle) = existing-none r p.session op fingerprint is_new in
    (
      unknown,
      idle,
      ensured gate_free RunError.preparing gate,
      ensured timed RunError.invalid_timeout time,
      on_free_lem config p op fast screen q (unfold planned in free),
    )
