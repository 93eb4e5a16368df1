-- ===== src/Intelligence/Events.antt =====
-- EventBus of ai_orchestrator/browser_intelligence/events/__init__.py. A handler is known by its
-- identity; the handlers that are called are listed in their order, and what they raise is caught. A
-- handler that itself calls the bus is outside the model. Payloads are of any type.
pub mod Deliveries
pub mod Retained
use chat_to_agent.Base.{
  if◌then◌else◌, any, last_n, keep, ℕ, zero, suc, ◌+◌, String, Bool, not, Option, none, some, List,
  [], ◌∷◌, ◌++◌, map, str_eq,
}

pub data EventType : Type 0 where
  auth_success auth_failure prompt_sent generation_started generation_progress generation_completed
        response_captured rate_limit_detected shadow_ban_detected recovery_started
        recovery_completed worker_degraded drift_detected generic :
      EventType

pub record IntelligenceEvent (P : Type 0) : Type 0 where
  pub type : EventType
  pub payload : P
  pub timestamp : ℕ
  pub event_id : String
  pub source : String

-- A subscription: the handler, and whether it is asynchronous.
pub record Subscription : Type 0 where
  pub handler : String
  pub is_async : Bool

pub record EventBus (P : Type 0) : Type 0 where
  pub subscribers : List Subscription
  pub history : List (IntelligenceEvent P)
  pub history_limit : ℕ
  pub emitted : ℕ
  pub dropped : ℕ

-- `append` of a deque with a greatest length.
abbrev pub append_bounded : {A : Type 0} → ℕ → List A → A → List A
append_bounded limit xs x = last_n limit (xs ++ (x ∷ []))

-- The subscribers of `dispatch_async`, each once.
unfoldable pub queue : List String → List Subscription → List String
queue seen [] = []
queue seen (s ∷ ss) =
    let later = queue seen ss in
    let with_it = queue (s.handler ∷ seen) ss in
    if not s.is_async
    then later
    else if any (str_eq s.handler) seen
    then later
    else s.handler ∷ with_it

module _ {P : Type 0} where
  abbrev pub new_bus : ℕ → EventBus P
  new_bus limit = record {
    subscribers = [];
    history = [];
    history_limit = limit;
    emitted = 0;
    dropped = 0;
  }

  unfoldable pub subscribe : String → Bool → EventBus P → EventBus P
  subscribe h asynchronous b = record b {
    subscribers = b.subscribers ++ (record { handler = h; is_async = asynchronous } ∷ []);
  }

  unfoldable pub unsubscribe : String → EventBus P → EventBus P
  unfolding keep
  unsubscribe h b = record b {
    subscribers = keep (λ (s : Subscription). not (str_eq s.handler h)) b.subscribers;
  }

  -- The handlers that `publish` calls, and the bus after it.
  unfoldable pub publish : IntelligenceEvent P → EventBus P → List String × EventBus P
  unfolding keep
  publish evt b = (
    map (λ (s : Subscription). s.handler)
        (keep (λ (s : Subscription). not s.is_async) b.subscribers),
    record b { emitted = b.emitted + 1; history = append_bounded b.history_limit b.history evt },
  )

  -- The handlers that `dispatch_async` calls.
  unfoldable pub dispatch_async : EventBus P → List String
  unfolding queue
  dispatch_async b = queue [] b.subscribers

  -- `items[-n:]`, which is the whole list for 0.
  unfoldable pub recent : Option ℕ → EventBus P → List (IntelligenceEvent P)
  recent none b = b.history
  recent (some zero) b = b.history
  recent (some (suc n)) b = last_n (suc n) b.history

  unfoldable pub clear : EventBus P → EventBus P
  clear b = record b { history = []; dropped = 0; emitted = 0 }
