-- ===== src/Gateway/Relay/Slots.antt =====
-- Whatever its streams do, `relay` of src/resgraph/gateway/relay.py keeps its slots, its report and
-- the client's tokens in order.
use resgraph.Prelude.{
  ℕ, zero, suc, ◌+◌, ◌≤◌, ◌≡◌, refl, sym, ap, ◌∙◌, String, true, Option, none, some, List, [], ◌∷◌,
  ◌++◌, length, length-append, append-nil, arith, Bool-cases, ◌==◌, subst, inl, inr,
}
use resgraph.Gateway.Relay.{
  StreamAccount, StreamDeath, StreamEvent, content_event, usage_event, Ending, exhausted, raised,
  hung_up, Stream, content_line, Effect, emit, opened, released, content, consume, complete, Reopen,
  relay, hop, on_trace, saw_times, stop, after_death, reopened, account_of, died, ttft,
  tokens_per_second, finish,
}
use resgraph.Gateway.Relay.Traces.{
  texts, sent, slots_opened, slots_released, outcomes, itself, replaced, IsRelayed,
}

abbrev lines : List String → List Effect
lines [] = []
lines (x ∷ xs) = emit (content_line x) ∷ lines xs

consume-lines :
    (a : StreamAccount) (u : ℕ × ℕ) (es : List (ℕ × StreamEvent))
    → (consume a u es).2 ≡ lines (texts es)
unfolding consume content
consume-lines a u [] = refl
consume-lines a u ((t, content_event x) ∷ es) =
    ap (λ out. emit (content_line x) ∷ out) (consume-lines (content a t 1) u es)
consume-lines a u ((t, usage_event i o) ∷ es) = consume-lines a (i, o) es

consume-count :
    (a : StreamAccount) (u : ℕ × ℕ) (es : List (ℕ × StreamEvent))
    → (consume a u es).0.content_tokens ≡ a.content_tokens + length (texts es)
unfolding consume content
consume-count a u [] = omega arith
consume-count a u ((t, content_event x) ∷ es) =
    let rest = consume-count (content a t 1) u es in omega (arith, rest)
consume-count a u ((t, usage_event i o) ∷ es) = consume-count a (i, o) es

-- The account of a whole stream counts its tokens.
consume_all-count :
    (s : Stream)
    → (consume (account_of s) (0, 0) s.events).0.content_tokens ≡ length (texts s.events)
consume_all-count s =
    let counted = consume-count (account_of s) (0, 0) s.events in omega (arith, counted)

module _ (rest : List Effect) where
  sent-lines : (xs : List String) → sent (lines xs ++ rest) ≡ xs ++ sent rest
  sent-lines [] = refl
  sent-lines (x ∷ xs) = ap (λ ys. x ∷ ys) (sent-lines xs)

  opened-lines : (xs : List String) → slots_opened (lines xs ++ rest) ≡ slots_opened rest
  opened-lines [] = refl
  opened-lines (x ∷ xs) = opened-lines xs

  released-lines : (xs : List String) → slots_released (lines xs ++ rest) ≡ slots_released rest
  released-lines [] = refl
  released-lines (x ∷ xs) = released-lines xs

  outcomes-lines : (xs : List String) → outcomes (lines xs ++ rest) ≡ outcomes rest
  outcomes-lines [] = refl
  outcomes-lines (x ∷ xs) = outcomes-lines xs

-- The tokens of one stream, and then effects that send none.
lines-IsRelayed :
    (reopen : Reopen) (chain : List String) (s : Stream) (rest : List Effect)
    → slots_released rest ≡ s.backend ∷ slots_opened rest
    → outcomes rest ≡ 1
    → sent rest ≡ []
    → IsRelayed reopen chain s (lines (texts s.events) ++ rest)
lines-IsRelayed reopen chain s rest slots outcome silent =
    let xs = texts s.events in
    record {
      slots =
          released-lines rest xs ∙ (slots ∙ ap (λ bs. s.backend ∷ bs) (sym (opened-lines rest xs)));
      outcome = outcomes-lines rest xs ∙ outcome;
      unspliced =
          (s, itself chain s, sent-lines rest xs ∙ (ap (λ ys. xs ++ ys) silent ∙ append-nil xs));
    }

-- What a completed stream adds to the windows leaves the slots and the client alone.
saw_times-silent :
    (b : String) (t : Option ℕ) (r : Option (ℕ × ℕ)) (rest : List Effect)
    → (slots_released (saw_times b t r ++ rest) ≡ slots_released rest)
      × (slots_opened (saw_times b t r ++ rest) ≡ slots_opened rest)
      × (outcomes (saw_times b t r ++ rest) ≡ outcomes rest)
      × (sent (saw_times b t r ++ rest) ≡ sent rest)
saw_times-silent b none r rest = (refl, refl, refl, refl)
saw_times-silent b (some t) none rest = (refl, refl, refl, refl)
saw_times-silent b (some t) (some r) rest = (refl, refl, refl, refl)

complete-silent :
    (s : Stream) (source : String) (chain : List String) (a : StreamAccount) (u : ℕ × ℕ)
    → (slots_released (complete s source chain a u)
        ≡ s.backend ∷ slots_opened (complete s source chain a u))
      × (outcomes (complete s source chain a u) ≡ 1)
      × (sent (complete s source chain a u) ≡ [])
unfolding complete
complete-silent s source chain a u =
    let b = (finish a s.stops_at u.1).0 in
    let (r, o, c, t) = saw_times-silent s.backend (ttft b) (tokens_per_second b) _ in
    (r ∙ ap (λ bs. s.backend ∷ bs) (sym o), c, t)

-- How a run of the relay ends up: with a trace.
abbrev pub Relays : Reopen → List String → Stream → Option (List Effect) → Type 0
Relays reopen chain s out =
    (trace : List Effect) × (out ≡ some trace) × IsRelayed reopen chain s trace

no_texts : (xs : List String) → (length xs == 0) ≡ true → xs ≡ []
no_texts [] e = refl
no_texts (x ∷ xs) e = ground arith

-- A stream with no token, and then those that took its place.
module _ (reopen : Reopen) (chain : List String) (s next : Stream) where
  reopened-IsRelayed :
      (reason : String) (t : List Effect)
      → s.ending ≡ raised reason
      → (reopen (chain ++ (hop s ∷ []))).1 ≡ some next
      → IsRelayed reopen (reopen (chain ++ (hop s ∷ []))).0 next t
      → texts s.events ≡ []
      → IsRelayed reopen chain s
          (lines (texts s.events) ++ (released s.backend ∷ opened next.backend ∷ t))
  reopened-IsRelayed reason t died_by found h none_sent = record {
    slots = rw (none_sent) (ap (λ bs. s.backend ∷ bs) h.slots);
    outcome = rw (none_sent) h.outcome;
    unspliced =
        let (last, later, same) = h.unspliced in
        (
          last,
          replaced chain s next last reason died_by none_sent found later,
          rw (none_sent) same,
        );
  }

-- The walk only adds hops, and gives up once the chain has `bound` of them.
abbrev pub WalkEnds : Reopen → ℕ → Type 0
WalkEnds reopen bound =
    ((chain : List String) → length chain ≤ length (reopen chain).0)
    × ((chain : List String) → bound ≤ length chain → (reopen chain).1 ≡ none)

module _ (next : List String → Stream → Option (List Effect)) (s : Stream) where
  reopened-Relays :
      (reopen : Reopen) (chain : List String) (reason : String) (death : StreamDeath)
      (r : List String × Option Stream)
      → s.ending ≡ raised reason
      → reopen (chain ++ (hop s ∷ [])) ≡ r
      → ((s' : Stream) → r.1 ≡ some s' → Relays reopen r.0 s' (next r.0 s'))
      → texts s.events ≡ []
      → Relays reopen chain s (
          on_trace
            (λ t. lines (texts s.events) ++ (released s.backend ∷ t))
            (reopened next death r))
  reopened-Relays reopen chain reason death (c, none) died_by at h none_sent =
      (_, refl, lines-IsRelayed reopen chain s _ refl refl refl)
  reopened-Relays reopen chain reason death (c, some s') died_by at h none_sent =
      let (t, e, i) = h s' refl in
      (
        _,
        rw e refl,
        reopened-IsRelayed reopen chain s s' reason t died_by (ap (λ r. r.1) at)
            (subst (λ (r : List String × Option Stream). IsRelayed reopen r.0 s' t) (sym at) i)
            none_sent,
      )

  after_death-Relays :
      (reopen : Reopen) (chain : List String) (a : StreamAccount) (reason : String)
      → s.ending ≡ raised reason
      → a.content_tokens ≡ length (texts s.events)
      → ((s' : Stream)
          → (reopen (chain ++ (hop s ∷ []))).1 ≡ some s'
          → Relays reopen
              (reopen (chain ++ (hop s ∷ []))).0
              s'
              (next (reopen (chain ++ (hop s ∷ []))).0 s'))
      → Relays reopen chain s (
          on_trace
            (λ t. lines (texts s.events) ++ (released s.backend ∷ t))
            (after_death next reopen s chain (died a reason)))
  unfolding died
  after_death-Relays reopen chain a reason died_by counted h =
      elim (Bool-cases (a.content_tokens == 0)) [
        | inl e ↦ rw e (
            reopened-Relays reopen chain reason _ (reopen (chain ++ (hop s ∷ []))) died_by refl h
              (no_texts (texts s.events) (subst (λ n. (n == 0) ≡ true) counted e)))
        | inr e ↦ rw e (_, refl, lines-IsRelayed reopen chain s _ refl refl refl)
      ]

  stop-Relays :
      (reopen : Reopen) (source : String) (chain : List String)
      (x : StreamAccount × (ℕ × ℕ) × List Effect) (ending : Ending)
      → s.ending ≡ ending
      → x.2 ≡ lines (texts s.events)
      → x.0.content_tokens ≡ length (texts s.events)
      → ((s' : Stream)
          → (reopen (chain ++ (hop s ∷ []))).1 ≡ some s'
          → Relays reopen
              (reopen (chain ++ (hop s ∷ []))).0
              s'
              (next (reopen (chain ++ (hop s ∷ []))).0 s'))
      → Relays reopen chain s (stop next reopen source s chain x ending)
  unfolding stop
  stop-Relays reopen source chain (a, u, out) exhausted ends e counted h =
      let (slots, outcome, silent) = complete-silent s source chain a u in
      rw e (_, refl, lines-IsRelayed reopen chain s _ slots outcome silent)
  stop-Relays reopen source chain (a, u, out) hung_up ends e counted h =
      rw e (_, refl, lines-IsRelayed reopen chain s _ refl refl refl)
  stop-Relays reopen source chain (a, u, out) (raised reason) ends e counted h =
      rw e (after_death-Relays reopen chain a reason ends counted h)

length-snoc : (xs : List String) (x : String) → length (xs ++ (x ∷ [])) ≡ length xs + 1
length-snoc xs x = length-append xs (x ∷ [])

one_more :
    (reopen : Reopen) (bound n : ℕ) (chain : List String) (x : String) (s' : Stream)
    → WalkEnds reopen bound
    → bound ≤ n + length chain
    → (reopen (chain ++ (x ∷ []))).1 ≡ some s'
    → (m : ℕ) × (n ≡ suc m) × (bound ≤ m + length (reopen (chain ++ (x ∷ []))).0)
one_more reopen bound zero chain x s' ends left e =
    let longer = length-snoc chain x in
    let stopped = ends.1 (chain ++ (x ∷ [])) (omega (arith, left, longer)) in cc
one_more reopen bound (suc n) chain x s' ends left e =
    let longer = length-snoc chain x in
    let grows = ends.0 (chain ++ (x ∷ [])) in (n, refl, omega (arith, left, longer, grows))

-- Where the walk behind `reopen` only adds hops and gives up at some number of them, a relay with
-- fuel for the hops that are left comes to an end, whatever its streams do: it releases the slot of
-- its stream and each that it reopens exactly once and in order, observes one outcome, and sends the
-- client the tokens of one stream only: of its own, or of the last that was reopened, where every one
-- before that raised without having sent a token.
pub relay-Relays :
    (reopen : Reopen) (bound fuel : ℕ) (source : String) (s : Stream) (chain : List String)
    → WalkEnds reopen bound
    → bound ≤ fuel + length chain
    → Relays reopen chain s (relay (suc fuel) reopen source s chain)
unfolding relay
relay-Relays reopen bound zero source s chain ends enough =
    stop-Relays (λ c s'. relay zero reopen source s' c) s reopen source chain
      (consume (account_of s) (0, 0) s.events) s.ending refl
      (consume-lines (account_of s) (0, 0) s.events) (consume_all-count s)
      (λ s' e.
        let (m, none_left, h) = one_more reopen bound zero chain (hop s) s' ends enough e in cc)
relay-Relays reopen bound (suc n) source s chain ends enough =
    stop-Relays (λ c s'. relay (suc n) reopen source s' c) s reopen source chain
      (consume (account_of s) (0, 0) s.events) s.ending refl
      (consume-lines (account_of s) (0, 0) s.events) (consume_all-count s)
      (λ s' e.
        let (m, f, h) = one_more reopen bound (suc n) chain (hop s) s' ends enough e in
        relay-Relays reopen bound n source s' (reopen (chain ++ (hop s ∷ []))).0 ends
          (omega (arith, f, h)))
