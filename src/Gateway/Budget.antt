-- ===== src/Gateway/Budget.antt =====
-- src/resgraph/evals/breaker.py and src/resgraph/gateway/budget.py: what a day may cost, in
-- dollars, which are floats. A charge comes with the day on which it is made.
pub mod Warning
pub mod Judge
use resgraph.Prelude.{
  ℕ, zero, suc, ◌+◌, ◌*◌, ◌/◌, String, Bool, true, false, not, ◌&&◌, ◌||◌, Option, none, some, List,
  [], ◌∷◌, str_eq, if◌then◌else◌,
}
use resgraph.Floats.{Floats}

pub record Spend (Money : Type 0) : Type 0 where
  pub date : String
  pub spent : Money
  pub warned : Bool

abbrev pub fresh : (F : Floats) → String → Spend F.Float
fresh F today = record { date = today; spent = F.nought; warned = false }

abbrev reload : (F : Floats) → String → Option (Spend F.Float) → Spend F.Float
reload F today none = fresh F today
reload F today (some s) = if str_eq s.date today then s else fresh F today

-- `DailyLedger._load`: no file, or one that is no JSON, is `none`.
unfoldable pub load : (F : Floats) → String → Option (Spend F.Float) → Spend F.Float
load F today file = reload F today file

-- `DailyLedger.spent_today`
unfoldable pub spent_today : (F : Floats) → String → Option (Spend F.Float) → F.Float
unfolding load
spent_today F today file = let s = load F today file in s.spent

abbrev pub is_crossed : (F : Floats) → F.Float → F.Float → Spend F.Float → Bool
is_crossed F cost warn_at s = not s.warned && F.le warn_at (F.add s.spent cost)

-- `DailyLedger.add`: the flag that it returns, and the file that it writes.
unfoldable pub add :
    (F : Floats) → String → F.Float → F.Float → Option (Spend F.Float) → Bool × Spend F.Float
unfolding load
add F today cost warn_at file =
    let s = load F today file in
    let crossed = is_crossed F cost warn_at s in
    (crossed, record { date = s.date; spent = F.add s.spent cost; warned = s.warned || crossed })

-- `FallForwardBudget.allows`
unfoldable pub allows : (F : Floats) → F.Float → String → Option (Spend F.Float) → Bool
unfolding spent_today
allows F cap today file = F.lt (spent_today F today file) cap

-- `WARN_FRACTION * cap_usd`, whose fraction 0.9 is the float of 9 / 10.
abbrev pub warn_line : (F : Floats) → F.Float → F.Float
warn_line F cap = F.mul (F.div (F.of_int 9) (F.of_int 10)) cap

-- `FallForwardBudget.charge`, with whether it logs the warning.
unfoldable pub charge :
    (F : Floats) → F.Float → String → F.Float → Option (Spend F.Float) → Bool × Spend F.Float
unfolding add
charge F cap today cost file = add F today cost (warn_line F cap) file

-- A day's charges, one after the other: the warnings logged, and the file left.
unfoldable pub charge_all :
    (F : Floats)
    → F.Float
    → String
    → List F.Float
    → Option (Spend F.Float)
    → ℕ × Option (Spend F.Float)
unfolding charge
charge_all F cap today [] file = (0, file)
charge_all F cap today (cost ∷ costs) file =
    let (crossed, s) = charge F cap today cost file in
    let (n, last) = charge_all F cap today costs (some s) in (if crossed then suc n else n, last)

-- `JudgeSpendBreaker.check`: does it trip?
unfoldable pub trips : (F : Floats) → F.Float → String → Option (Spend F.Float) → Bool
unfolding spent_today
trips F cap today file = F.le cap (spent_today F today file)

-- A call's cost, of its tokens and of rates in dollars for a million tokens.
abbrev pub call_cost :
    (F : Floats) → (input_rate output_rate : F.Float) → (input_tokens output_tokens : ℕ) → F.Float
call_cost F input_rate output_rate i o =
    F.div (F.add (F.mul (F.of_int i) input_rate) (F.mul (F.of_int o) output_rate))
      (F.of_int 1000000)

-- The judge's calls of a day: each is checked first, and charged when it is done; the first that
-- trips ends the run. The calls made, and the file left.
unfoldable pub judge_all :
    (F : Floats) (cap input_rate output_rate : F.Float)
    → String
    → List (ℕ × ℕ)
    → Option (Spend F.Float)
    → ℕ × Option (Spend F.Float)
unfolding trips charge
judge_all F cap ri ro today [] file = (0, file)
judge_all F cap ri ro today ((i, o) ∷ rest) file =
    let (made, last) =
      judge_all F cap ri ro today rest (some (charge F cap today (call_cost F ri ro i o) file).1) in
    if trips F cap today file then (0, file) else (suc made, last)
