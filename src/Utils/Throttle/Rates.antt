-- ===== src/Utils/Throttle/Rates.antt =====
-- How many tokens a bucket can give in a time.
use chat_to_agent.Base.{
  if◌then◌else◌, ℕ, ◌+◌, ◌-◌, ◌*◌, ◌≤◌, ◌≡◌, refl, ap, ◌∙◌, List, [], ◌∷◌, arith,
}
use chat_to_agent.Base.{
  if◌then◌else◌, ℕ, ◌+◌, ◌-◌, ◌*◌, ◌≤◌, ◌≡◌, refl, ap, ◌∙◌, List, [], ◌∷◌, arith,
}
use native.Mathlib.Nat.{mul-add, mul_comm}
use chat_to_agent.Utils.Throttle.{TokenBucket, try_acquire}

-- Requests, each at its time and for so many millionths of a token.
abbrev pub Requests : Type 0
Requests = List (ℕ × ℕ)

-- What was granted to the requests, and the bucket after them.
unfoldable pub serve : TokenBucket → Requests → ℕ × TokenBucket
unfolding try_acquire
serve b [] = (0, b)
serve b ((now, wanted) ∷ rs) =
    let (ok, c) = try_acquire now wanted b in
    let (granted, d) = serve c rs in (if ok then wanted + granted else granted, d)

-- The clock never goes back.
abbrev pub IsOrdered : ℕ → Requests → Type 0
IsOrdered t [] = Unit
IsOrdered t ((now, wanted) ∷ rs) = (t ≤ now) × IsOrdered now rs

-- The time of the last request.
abbrev pub last_time : ℕ → Requests → ℕ
last_time t [] = t
last_time t ((now, wanted) ∷ rs) = last_time now rs

split : (t now : ℕ) → t ≤ now → now ≡ t + (now - t)
split t now h = omega arith

earned : (rate t now : ℕ) → t ≤ now → rate * now ≡ rate * t + (now - t) * rate
earned rate t now h =
    ap (λ n. rate * n) (split t now h)
    ∙ mul-add rate t (now - t)
    ∙ ap (λ n. rate * t + n) (mul_comm rate (now - t))

-- What a request takes is paid for by the tokens that there were and what came in since.
try_acquire-paid :
    (now wanted r : ℕ) (b : TokenBucket)
    → b.last_refill ≤ now
    → b.tokens ≤ b.burst
    → b.rate ≡ r
    → let (ok, c) = try_acquire now wanted b in
      ((if ok then wanted else 0) + c.tokens + r * b.last_refill ≤ b.tokens + r * c.last_refill)
      × (c.tokens ≤ c.burst)
      × (c.rate ≡ r)
      × (c.burst ≡ b.burst)
      × (c.last_refill ≤ now)
unfolding try_acquire
try_acquire-paid now wanted r b t h e =
    ground (arith, earned r b.last_refill now t, ap (λ k. (now - b.last_refill) * k) e)

serve-paid :
    (b : TokenBucket) (t r : ℕ) (rs : Requests)
    → b.last_refill ≤ t
    → b.tokens ≤ b.burst
    → b.rate ≡ r
    → IsOrdered t rs
    → let (granted, d) = serve b rs in
      (granted + d.tokens + r * b.last_refill ≤ b.tokens + r * d.last_refill)
      × (d.tokens ≤ b.burst)
      × (d.last_refill ≤ last_time t rs)
      × (t ≤ last_time t rs)
unfolding serve
serve-paid b t r [] lr h e o = (omega arith, h, lr, omega arith)
serve-paid b t r ((now, wanted) ∷ rs) lr h e o =
    let (paid, le, rate_same, burst_same, lr') =
      try_acquire-paid now wanted r b (omega arith) h e in
    let (ok, c) = try_acquire now wanted b in
    let (paid', le', last', after) = serve-paid c now r rs lr' le rate_same o.1 in
    (ground (arith, paid, paid'), omega arith, last', omega arith)

-- From a bucket that is not over its burst, requests in the order of time are granted in all at most
-- the tokens that it has and what its rate brings in from its last refill to the last request, and it
-- is not over its burst afterwards.
pub serve-le :
    (b : TokenBucket) (t : ℕ) (rs : Requests)
    → b.last_refill ≤ t
    → b.tokens ≤ b.burst
    → IsOrdered t rs
    → ((serve b rs).0 ≤ b.tokens + (last_time t rs - b.last_refill) * b.rate)
      × ((serve b rs).1.tokens ≤ b.burst)
serve-le b t rs lr h o =
    let (paid, le, last, after) = serve-paid b t b.rate rs lr h refl o in
    let end = last_time t rs in
    (
      omega (
        arith,
        paid,
        earned b.rate (serve b rs).1.last_refill end last,
        earned b.rate b.last_refill end (omega arith),
      ),
      le,
    )
