-- ===== src/Gateway/Relay/Traces.antt =====
-- What a trace of the relay of src/resgraph/gateway/relay.py says of its slots, its report and the
-- client, and which stream replaces which.
use resgraph.Prelude.{ℕ, suc, ◌≡◌, String, some, List, [], ◌∷◌, ◌++◌}
use resgraph.Gateway.Relay.{
  StreamEvent, content_event, usage_event, raised, Stream, content_line, end_line, error_line,
  disconnect, Effect, emit, observe, opened, released, succeeded, saw_ttft, saw_tps, Reopen, hop,
}

-- The texts of a stream's events.
abbrev pub texts : List (ℕ × StreamEvent) → List String
texts [] = []
texts ((t, content_event text) ∷ rest) = text ∷ texts rest
texts ((t, usage_event i o) ∷ rest) = texts rest

-- The texts that reach the client.
abbrev pub sent : List Effect → List String
sent [] = []
sent (emit (content_line text) ∷ rest) = text ∷ sent rest
sent (emit (end_line p) ∷ rest) = sent rest
sent (emit (error_line d c) ∷ rest) = sent rest
sent (emit (disconnect b) ∷ rest) = sent rest
sent (observe p ∷ rest) = sent rest
sent (opened b ∷ rest) = sent rest
sent (released b ∷ rest) = sent rest
sent (succeeded b ∷ rest) = sent rest
sent (saw_ttft b n ∷ rest) = sent rest
sent (saw_tps b r ∷ rest) = sent rest

-- What an effect does to the slots, and to the outcomes observed.
abbrev pub slots_opened : List Effect → List String
slots_opened [] = []
slots_opened (opened b ∷ rest) = b ∷ slots_opened rest
slots_opened (released b ∷ rest) = slots_opened rest
slots_opened (emit p ∷ rest) = slots_opened rest
slots_opened (observe p ∷ rest) = slots_opened rest
slots_opened (succeeded b ∷ rest) = slots_opened rest
slots_opened (saw_ttft b n ∷ rest) = slots_opened rest
slots_opened (saw_tps b r ∷ rest) = slots_opened rest

abbrev pub slots_released : List Effect → List String
slots_released [] = []
slots_released (released b ∷ rest) = b ∷ slots_released rest
slots_released (opened b ∷ rest) = slots_released rest
slots_released (emit p ∷ rest) = slots_released rest
slots_released (observe p ∷ rest) = slots_released rest
slots_released (succeeded b ∷ rest) = slots_released rest
slots_released (saw_ttft b n ∷ rest) = slots_released rest
slots_released (saw_tps b r ∷ rest) = slots_released rest

abbrev pub outcomes : List Effect → ℕ
outcomes [] = 0
outcomes (observe p ∷ rest) = suc (outcomes rest)
outcomes (opened b ∷ rest) = outcomes rest
outcomes (released b ∷ rest) = outcomes rest
outcomes (emit p ∷ rest) = outcomes rest
outcomes (succeeded b ∷ rest) = outcomes rest
outcomes (saw_ttft b n ∷ rest) = outcomes rest
outcomes (saw_tps b r ∷ rest) = outcomes rest

-- Which stream a relay of `s` ends with: `s` itself, or, where `s` raised and had sent no token, the
-- one that a relay ends with of the stream that `reopen` gave in its place.
pub data Replaces (reopen : Reopen) : List String → Stream → Stream → Type 0 where
  itself : (chain : List String) (s : Stream) → Replaces reopen chain s s
  replaced :
      (chain : List String) (s s' last : Stream) (reason : String)
      → s.ending ≡ raised reason
      → texts s.events ≡ []
      → (reopen (chain ++ (hop s ∷ []))).1 ≡ some s'
      → Replaces reopen (reopen (chain ++ (hop s ∷ []))).0 s' last
      → Replaces reopen chain s last

-- The trace of a relay of `s`: the slots released are those opened, each once and in order; one
-- outcome is observed; and the client has the tokens of one stream, `s` or one that took its place.
pub record IsRelayed (reopen : Reopen) (chain : List String) (s : Stream) (trace : List Effect)
    : Type 0 where
  pub slots : slots_released trace ≡ s.backend ∷ slots_opened trace
  pub outcome : outcomes trace ≡ 1
  pub unspliced : (last : Stream) × Replaces reopen chain s last × (sent trace ≡ texts last.events)
