-- ===== src/Gateway/Dispatch/Recovery.antt =====
-- How a backend's health follows from its probes (`Health` of src/resgraph/gateway/dispatch.py).
use resgraph.Prelude.{
  ℕ, ◌+◌, ◌≡◌, refl, Bool, true, false, Option, none, some, List, [], ◌∷◌, leb, if◌then◌else◌,
  arith,
}
use resgraph.Gateway.Dispatch.{
  HealthState, healthy, down, ProbeResult, ok, slow, fail, Health, observe, passing, is_down,
  readmission_probes,
}

abbrev pub fresh : Health
fresh = record { state = healthy; streak = 0 }

-- The health after some probes, the latest first.
abbrev pub health_after : List ProbeResult → Health
health_after [] = fresh
health_after (r ∷ rs) = observe r (health_after rs)

abbrev one_more : Option ℕ → Option ℕ
one_more none = none
one_more (some n) = some (n + 1)

-- How many probes have passed since the last one that failed, if one has.
abbrev pub passes_since_fail : List ProbeResult → Option ℕ
passes_since_fail [] = none
passes_since_fail (fail ∷ rs) = some 0
passes_since_fail (ok ∷ rs) = one_more (passes_since_fail rs)
passes_since_fail (slow ∷ rs) = one_more (passes_since_fail rs)

-- What the state shows, by the passes since the last failure and the latest probe.
abbrev pub state_by : Option ℕ → ProbeResult → HealthState
state_by none r = passing r
state_by (some n) r = if leb readmission_probes n then passing r else down

-- The machine's own counter agrees with the history.
abbrev Tracks : Option ℕ → Health → Type 0
Tracks none h = is_down h.state ≡ false
Tracks (some n) h =
    if leb readmission_probes n then is_down h.state ≡ false else (h.state ≡ down) × (h.streak ≡ n)

abbrev is_fail : ProbeResult → Bool
is_fail fail = true
is_fail _ = false

-- One more passing probe.
abbrev Steps : Option ℕ → ProbeResult → Health → Type 0
Steps n r h = Tracks (one_more n) h × (h.state ≡ state_by (one_more n) r)

step :
    (n : Option ℕ) (r : ProbeResult) (h : Health)
    → Tracks n h
    → is_fail r ≡ false
    → Steps n r (observe r h)
unfolding observe
step none ok h t passed = ground arith
step none slow h t passed = ground arith
step (some n) ok h t passed = ground arith
step (some n) slow h t passed = ground arith
step n fail h t passed = cc

health_after-Tracks : (rs : List ProbeResult) → Tracks (passes_since_fail rs) (health_after rs)
unfolding observe
health_after-Tracks [] = refl
health_after-Tracks (fail ∷ rs) = ground arith
health_after-Tracks (ok ∷ rs) =
    (step (passes_since_fail rs) ok (health_after rs) (health_after-Tracks rs) refl).0
health_after-Tracks (slow ∷ rs) =
    (step (passes_since_fail rs) slow (health_after rs) (health_after-Tracks rs) refl).0

-- After one probe or more, a backend is down exactly while fewer than three have passed since the
-- last failure; otherwise the latest probe says whether it is healthy or degraded.
pub health_after-state_by :
    (r : ProbeResult) (rs : List ProbeResult)
    → (health_after (r ∷ rs)).state ≡ state_by (passes_since_fail (r ∷ rs)) r
unfolding observe
health_after-state_by fail rs = ground arith
health_after-state_by ok rs =
    (step (passes_since_fail rs) ok (health_after rs) (health_after-Tracks rs) refl).1
health_after-state_by slow rs =
    (step (passes_since_fail rs) slow (health_after rs) (health_after-Tracks rs) refl).1
