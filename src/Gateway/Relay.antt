-- ===== src/Gateway/Relay.antt =====
-- src/resgraph/gateway/relay.py, with the stream accounting of src/resgraph/gateway/accounting.py:
-- the events of a backend's stream in, the lines of the client's stream out. Times are milliseconds
-- of the injected clock.
pub mod Traces
pub mod Slots
use resgraph.Prelude.{
  ℕ, zero, suc, ◌+◌, ◌-◌, ◌*◌, max, String, Bool, true, false, not, Option, none, some, List, [],
  ◌∷◌, ◌++◌, leb, ltb, ◌==◌, if◌then◌else◌,
}
use Prim.Native.String.{◌++◌ as join}

pub record StreamAccount : Type 0 where
  pub backend : String
  pub started_at : ℕ
  pub first_token_at : Option ℕ
  pub ended_at : Option ℕ
  pub content_tokens : ℕ

pub record Reconciliation : Type 0 where
  pub counted : ℕ
  pub reported : ℕ
  pub within_tolerance : Bool

pub record StreamDeath : Type 0 where
  pub backend : String
  pub reason : String
  pub tokens_emitted : ℕ
  pub restartable : Bool

abbrev or_first : Option ℕ → ℕ → Option ℕ
or_first none t = some t
or_first (some f) t = some f

-- `StreamAccount.content`
unfoldable pub content : StreamAccount → ℕ → ℕ → StreamAccount
content a t tokens = record {
  backend = a.backend;
  started_at = a.started_at;
  first_token_at = or_first a.first_token_at t;
  ended_at = a.ended_at;
  content_tokens = a.content_tokens + tokens;
}

-- The clock never goes back, so that the difference is no loss on ℕ.
abbrev since : ℕ → Option ℕ → Option ℕ
since start none = none
since start (some f) = some (f - start)

unfoldable pub ttft : StreamAccount → Option ℕ
ttft a = since a.started_at a.first_token_at

abbrev rate : ℕ → Option ℕ → Option ℕ → Option (ℕ × ℕ)
rate tokens none ended = none
rate tokens (some f) none = none
rate tokens (some f) (some e) = if leb e f then none else some (tokens, e - f)

-- Tokens, and the window that they took.
unfoldable pub tokens_per_second : StreamAccount → Option (ℕ × ℕ)
tokens_per_second a = rate a.content_tokens a.first_token_at a.ended_at

unfoldable pub end_account : StreamAccount → ℕ → StreamAccount
end_account a t = record {
  backend = a.backend;
  started_at = a.started_at;
  first_token_at = a.first_token_at;
  ended_at = some t;
  content_tokens = a.content_tokens;
}

-- `abs(counted - reported) / max(reported, 1) <= 0.02`
unfoldable pub reconcile : ℕ → ℕ → Reconciliation
reconcile counted reported = record {
  counted = counted;
  reported = reported;
  within_tolerance = leb (50 * ((counted - reported) + (reported - counted))) (max reported 1);
}

-- `StreamAccount.finish`
unfoldable pub finish : StreamAccount → ℕ → ℕ → StreamAccount × Reconciliation
finish a t reported = (end_account a t, reconcile a.content_tokens reported)

-- `StreamAccount.died`
unfoldable pub died : StreamAccount → String → StreamDeath
died a reason = record {
  backend = a.backend;
  reason = reason;
  tokens_emitted = a.content_tokens;
  restartable = a.content_tokens == 0;
}

pub data StreamEvent : Type 0 where
  content_event : String → StreamEvent
  usage_event : ℕ → ℕ → StreamEvent

-- How a stream stops: its iterator is exhausted or raises, or the client hangs up.
pub data Ending : Type 0 where
  exhausted : Ending
  raised : String → Ending
  hung_up : Ending

-- An opened stream: the events with the times at which they are relayed, and what ends them.
pub record Stream : Type 0 where
  pub alias : String
  pub backend : String
  pub started_at : ℕ
  pub events : List (ℕ × StreamEvent)
  pub ending : Ending
  pub stops_at : ℕ

pub record End : Type 0 where
  pub model : String
  pub source : String
  pub backend : String
  pub fallback_chain : List String
  pub usage : ℕ × ℕ
  pub ttft : Option ℕ
  pub tokens_per_s : Option (ℕ × ℕ)
  pub reconciliation_ok : Bool

-- The payloads of the lines; the last is observed alone, and sent to nobody.
pub data Payload : Type 0 where
  content_line : String → Payload
  end_line : End → Payload
  error_line : StreamDeath → List String → Payload
  disconnect : String → Payload

-- What the relay does, in order; a slot is opened by `reopen`.
pub data Effect : Type 0 where
  emit observe : Payload → Effect
  opened released : String → Effect
  succeeded : String → Effect
  saw_ttft : String → ℕ → Effect
  saw_tps : String → ℕ × ℕ → Effect

-- The loop over one stream's events.
unfoldable pub consume :
    StreamAccount → ℕ × ℕ → List (ℕ × StreamEvent) → StreamAccount × (ℕ × ℕ) × List Effect
unfolding content
consume a usage [] = (a, usage, [])
consume a usage ((t, content_event text) ∷ rest) =
    let (b, u, out) = consume (content a t 1) usage rest in (b, u, emit (content_line text) ∷ out)
consume a usage ((t, usage_event i o) ∷ rest) = consume a (i, o) rest

abbrev saw_rate : String → Option (ℕ × ℕ) → List Effect
saw_rate b none = []
saw_rate b (some r) = saw_tps b r ∷ []

abbrev saw_times : String → Option ℕ → Option (ℕ × ℕ) → List Effect
saw_times b none r = []
saw_times b (some t) r = saw_ttft b t ∷ saw_rate b r

-- The end of a stream that completed.
unfoldable pub complete : Stream → String → List String → StreamAccount → ℕ × ℕ → List Effect
unfolding finish end_account reconcile ttft tokens_per_second
complete s source chain a usage =
    let (b, reconciliation) = finish a s.stops_at usage.1 in
    let payload : End = record {
      model = s.alias;
      source = source;
      backend = s.backend;
      fallback_chain = chain;
      usage = usage;
      ttft = ttft b;
      tokens_per_s = tokens_per_second b;
      reconciliation_ok = reconciliation.within_tolerance;
    } in
    (succeeded s.backend ∷ saw_times s.backend (ttft b) (tokens_per_second b))
    ++ (released s.backend ∷ observe (end_line payload) ∷ emit (end_line payload) ∷ [])

-- The end of a stream whose death reaches the client.
abbrev pub surface : StreamDeath → List String → List Effect
surface death chain = observe (error_line death chain) ∷ emit (error_line death chain) ∷ []

-- `reopen`, which appends the hops that it tries to the chain.
abbrev pub Reopen : Type 0
Reopen = List String → List String × Option Stream

abbrev hop : Stream → String
hop s = join s.backend (join ":" s.alias)

abbrev on_trace : (List Effect → List Effect) → Option (List Effect) → Option (List Effect)
on_trace f none = none
on_trace f (some t) = some (f t)

-- After a death that no token preceded.
abbrev reopened :
    (List String → Stream → Option (List Effect))
    → StreamDeath
    → List String × Option Stream
    → Option (List Effect)
reopened next death (chain, none) = some (surface death chain)
reopened next death (chain, some s) = on_trace (λ t. opened s.backend ∷ t) (next chain s)

abbrev after_death :
    (List String → Stream → Option (List Effect))
    → Reopen
    → Stream
    → List String
    → StreamDeath
    → Option (List Effect)
after_death next reopen s chain death =
    if death.restartable
    then reopened next death (reopen (chain ++ (hop s ∷ [])))
    else some (surface death chain)

unfoldable stop :
    (List String → Stream → Option (List Effect))
    → Reopen
    → String
    → Stream
    → List String
    → StreamAccount × (ℕ × ℕ) × List Effect
    → Ending
    → Option (List Effect)
unfolding complete died
stop next reopen source s chain (a, u, out) exhausted = some (out ++ complete s source chain a u)
stop next reopen source s chain (a, u, out) hung_up =
    some (out ++ (released s.backend ∷ observe (disconnect s.backend) ∷ []))
stop next reopen source s chain (a, u, out) (raised reason) =
    on_trace (λ t. out ++ (released s.backend ∷ t))
      (after_death next reopen s chain (died a reason))

abbrev account_of : Stream → StreamAccount
account_of s = record {
  backend = s.backend;
  started_at = s.started_at;
  first_token_at = none;
  ended_at = none;
  content_tokens = 0;
}

-- `relay`, on fuel for the restarts: a stream that dies before any token is replaced in silence.
unfoldable pub relay : ℕ → Reopen → String → Stream → List String → Option (List Effect)
unfolding stop consume
relay zero reopen source s chain = none
relay (suc n) reopen source s chain =
    stop (λ chain' s'. relay n reopen source s' chain') reopen source s chain
      (consume (account_of s) (0, 0) s.events) s.ending
