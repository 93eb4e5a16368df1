-- ===== src/Intelligence/Events/Deliveries.antt =====
-- Who is called for an event.
use chat_to_agent.Base.{
  to_ℕ, any, String, ◌≡◌, Bool, not, ◌&&◌, List, [], ◌∷◌, arith, str_eq, eq_iff,
}
use chat_to_agent.Base.Members.{times}
use chat_to_agent.Intelligence.Events.{Subscription, EventBus, queue, dispatch_async}

abbrev pub awaits : String → Subscription → Bool
awaits h s = s.is_async && str_eq s.handler h

-- A handler that has been seen is not queued again.
times-queue :
    (h : String) (seen : List String) (ss : List Subscription)
    → times h (queue seen ss) ≡ to_ℕ (not (any (str_eq h) seen) && any (awaits h) ss)
unfolding queue
times-queue h seen [] = ground arith
times-queue h seen (s ∷ ss) = ground (
  arith,
  times-queue h seen ss,
  times-queue h (s.handler ∷ seen) ss,
  eq_iff s.handler h,
  eq_iff h s.handler,
)

module _ {P : Type 0} where
  -- An event that is dispatched reaches every asynchronous handler once, however often it has
  -- subscribed, and no others.
  pub dispatch_async-once :
      (h : String) (b : EventBus P)
      → times h (dispatch_async b) ≡ to_ℕ (any (awaits h) b.subscribers)
  unfolding dispatch_async
  dispatch_async-once h b = times-queue h [] b.subscribers
