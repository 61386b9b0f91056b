-- ===== src/Gateway/Dispatch.antt =====
-- src/resgraph/gateway/dispatch.py: health, rolling windows, admission and the choice of a backend.
-- Times and measured values are milliseconds, as natural numbers, and ratios are compared by
-- multiplying out; `now` is always given, as the code's callers can.
pub mod Recovery
pub mod Windows
pub mod Choose
use resgraph.Prelude.{
  ℕ, zero, suc, ◌+◌, ◌-◌, ◌*◌, ◌/◌, max, String, Bool, true, false, not, ◌&&◌, ◌||◌, Option, none,
  some, List, [], ◌∷◌, ◌++◌, length, filter, map, ltb, leb, ◌==◌, if◌then◌else◌,
}

pub data HealthState : Type 0 where
  healthy degraded down : HealthState

pub data ProbeResult : Type 0 where
  ok slow fail : ProbeResult

abbrev pub readmission_probes : ℕ
readmission_probes = 3

abbrev pub soft_error_min_events : ℕ
soft_error_min_events = 3

-- One second, in milliseconds.
abbrev pub second : ℕ
second = 1000

pub record Health : Type 0 where
  pub state : HealthState
  pub streak : ℕ

abbrev pub passing : ProbeResult → HealthState
passing ok = healthy
passing _ = degraded

abbrev pub observe_down : ProbeResult → ℕ → Health
observe_down result streak =
    if leb readmission_probes streak
    then record { state = passing result; streak = 0 }
    else record { state = down; streak = streak }

abbrev pub observe_by : HealthState → ProbeResult → Health → Health
observe_by s fail h = record { state = down; streak = 0 }
observe_by down result h = observe_down result (h.streak + 1)
observe_by _ result h = record h { state = passing result }

-- `Health.observe`
unfoldable pub observe : ProbeResult → Health → Health
observe result h = observe_by h.state result h

abbrev pub Samples : Type 0
Samples = List (ℕ × ℕ)

pub record RollingWindow : Type 0 where
  pub window : ℕ
  pub samples : Samples

-- `_evict`: samples are dropped from the front while they are older than the window.
unfoldable pub evict_samples : ℕ → ℕ → Samples → Samples
evict_samples window now [] = []
evict_samples window now ((t, v) ∷ rest) =
    let later = evict_samples window now rest in
    if ltb (t + window) now then later else (t, v) ∷ rest

unfoldable pub evict : ℕ → RollingWindow → RollingWindow
unfolding evict_samples
evict now w = record w { samples = evict_samples w.window now w.samples }

-- `RollingWindow.observe`
unfoldable pub observe_sample : ℕ → ℕ → RollingWindow → RollingWindow
unfolding evict
observe_sample value now w = evict now (record w { samples = w.samples ++ (now, value) ∷ [] })

unfoldable pub insert_sorted : ℕ → List ℕ → List ℕ
insert_sorted v [] = v ∷ []
insert_sorted v (x ∷ xs) = if leb v x then v ∷ x ∷ xs else x ∷ insert_sorted v xs

-- Python's `sorted`, on numbers.
unfoldable pub sorted : List ℕ → List ℕ
unfolding insert_sorted
sorted [] = []
sorted (x ∷ xs) = insert_sorted x (sorted xs)

abbrev pub get_elem? : List ℕ → ℕ → Option ℕ
get_elem? [] i = none
get_elem? (x ∷ xs) zero = some x
get_elem? (x ∷ xs) (suc i) = get_elem? xs i

-- `ceil(a / b)`
abbrev pub ceil_div : ℕ → ℕ → ℕ
ceil_div a b = (a + b - 1) / b

abbrev pub values : Samples → List ℕ
values s = map (λ (x : ℕ × ℕ). x.1) s

-- `max(1, ceil(p / 100 * len(ordered)))`, where `ceiling p n` is the float expression `ceil(p / 100 * n)`.
abbrev pub rank_of : (ceiling : ℕ → ℕ → ℕ) → ℕ → ℕ → ℕ
rank_of ceiling p n = max 1 (ceiling p n)

-- Nearest rank, over the window's values; nothing over an empty window.
unfoldable pub nearest_rank : (ceiling : ℕ → ℕ → ℕ) → ℕ → List ℕ → Option ℕ
unfolding sorted
nearest_rank ceiling p vs = get_elem? (sorted vs) (rank_of ceiling p (length vs) - 1)

-- `RollingWindow.percentile`: the reading, and the window once the old samples are gone.
unfoldable pub percentile : (ceiling : ℕ → ℕ → ℕ) → ℕ → ℕ → RollingWindow → Option ℕ × RollingWindow
unfolding nearest_rank evict
percentile ceiling p now w =
    let w' = evict now w in (nearest_rank ceiling p (values w'.samples), w')

-- The ceiling of the 50th percentile: `50 / 100` is the float 0.5, and half of a length is exact.
abbrev pub ceil_half : ℕ → ℕ → ℕ
ceil_half p n = ceil_div n 2

abbrev pub Events : Type 0
Events = List (ℕ × Bool)

pub record ErrorWindow : Type 0 where
  pub window : ℕ
  pub events : Events

unfoldable pub evict_events : ℕ → ℕ → Events → Events
evict_events window now [] = []
evict_events window now ((t, good) ∷ rest) =
    let later = evict_events window now rest in
    if ltb (t + window) now then later else (t, good) ∷ rest

-- `ErrorWindow.observe`
unfoldable pub observe_outcome : Bool → ℕ → ErrorWindow → ErrorWindow
unfolding evict_events
observe_outcome good now w = record w {
  events = evict_events w.window now (w.events ++ (now, good) ∷ []);
}

-- At least half of the events, of which there are at least three, are failures.
abbrev pub failing_rate : Events → Bool
failing_rate events =
    leb soft_error_min_events (length events)
    && leb (length events) (2 * length (filter (λ (e : ℕ × Bool). not e.1) events))

-- `ErrorWindow.soft_deprioritized`
unfoldable pub soft_deprioritized : ℕ → ErrorWindow → Bool × ErrorWindow
unfolding evict_events
soft_deprioritized now w =
    let events = evict_events w.window now w.events in
    (failing_rate events, record w { events = events })

pub record Backend : Type 0 where
  pub name : String
  pub concurrency : ℕ
  pub queue_max : ℕ
  pub ttft : RollingWindow
  pub tps : RollingWindow
  pub errors : ErrorWindow
  pub health : Health
  pub in_flight : ℕ

-- Admission ends by the new state, or by `QueueFull` with the seconds to wait.
pub data Admission : Type 0 where
  admitted : Backend → Admission
  queue_full : (backend : String) (retry_after_s : ℕ) → Backend → Admission

-- `p50 or 1.0`: a reading of zero is falsy too.
abbrev pub or_second : Option ℕ → ℕ
or_second none = second
or_second (some zero) = second
or_second (some (suc n)) = suc n

-- `Backend.admit`
unfoldable pub admit : ℕ → Backend → Admission
unfolding percentile
admit now b =
    if leb b.queue_max b.in_flight
    then (let (p50, ttft) = percentile ceil_half 50 now b.ttft in
        queue_full b.name (max 1 (ceil_div (or_second p50 * b.in_flight) (second * b.concurrency)))
          (record b { ttft = ttft }))
    else admitted (record b { in_flight = b.in_flight + 1 })

-- `Backend.release`
unfoldable pub release : Backend → Backend
release b = record b { in_flight = b.in_flight - 1 }

-- The tuple that `sort_key` returns.
pub record SortKey : Type 0 where
  pub failing : Bool
  pub unhealthy : Bool
  pub measured : Bool
  pub p50 : ℕ

abbrev pub or_zero : Option ℕ → ℕ
or_zero none = 0
or_zero (some n) = n

abbrev pub is_measured : Option ℕ → Bool
is_measured none = false
is_measured (some n) = true

abbrev pub is_healthy : HealthState → Bool
is_healthy healthy = true
is_healthy _ = false

abbrev pub is_down : HealthState → Bool
is_down down = true
is_down _ = false

-- `Backend.sort_key`. What its readings evict, every later reading would evict too.
unfoldable pub sort_key : ℕ → Backend → SortKey
unfolding percentile soft_deprioritized
sort_key now b =
    let p50 = (percentile ceil_half 50 now b.ttft).0 in
    record {
      failing = (soft_deprioritized now b.errors).0;
      unhealthy = not (is_healthy b.health.state);
      measured = is_measured p50;
      p50 = or_zero p50;
    }

abbrev pub bool_lt : Bool → Bool → Bool
bool_lt a b = not a && b

abbrev pub bool_eq : Bool → Bool → Bool
bool_eq true b = b
bool_eq false b = not b

-- The order of the tuples.
unfoldable pub key_lt : SortKey → SortKey → Bool
key_lt j k =
    bool_lt j.failing k.failing
    || bool_eq j.failing k.failing
      && (bool_lt j.unhealthy k.unhealthy
          || bool_eq j.unhealthy k.unhealthy
            && (bool_lt j.measured k.measured || bool_eq j.measured k.measured && ltb j.p50 k.p50))

-- Python's `min(..., key=...)`: the first of the least.
unfoldable pub min_by_key : (Backend → SortKey) → Backend → List Backend → Backend
unfolding key_lt
min_by_key key best [] = best
min_by_key key best (b ∷ bs) = min_by_key key (if key_lt (key b) (key best) then b else best) bs

abbrev pub is_eligible : Backend → Bool
is_eligible b = not (is_down b.health.state)

abbrev pub first_least : (Backend → SortKey) → List Backend → Option Backend
first_least key [] = none
first_least key (b ∷ bs) = some (min_by_key key b bs)

-- `choose`
unfoldable pub choose : ℕ → List Backend → Option Backend
unfolding sort_key min_by_key
choose now backends = first_least (sort_key now) (filter is_eligible backends)
