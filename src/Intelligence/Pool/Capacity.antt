-- ===== src/Intelligence/Pool/Capacity.antt =====
-- How many engines a pool keeps.
use chat_to_agent.Base.{
  ltb, leb, leb→le, ◌==◌, Bool-cases, Option-cases, length, keep, ℕ, ◌+◌, ◌-◌, ◌≤◌, String, ◌≡◌,
  refl, ◌∙◌, inl, inr, Bool, List, [], ◌∷◌, take, arith,
}
use chat_to_agent.Base.Dict.{get, put}
use chat_to_agent.Intelligence.Pool.{
  Page, PoolEntry, EnginePool, new_pool, touch, evict_locked, sort_by_use, enforce_capacity_locked,
  create, get_or_create, release_page, evict_each, release_all, gc, keys_of,
}
use chat_to_agent.Base.Members.{times}
use chat_to_agent.Intelligence.Pool.Keys.{
  times-take, length-take, times-sort, length-sort, length-put, length-keys_of, HasKeys,
  remove-HasKeys, put-HasKeys, length-pop_all, length-remove,
}

enforce-bounded :
    (p : EnginePool)
    → HasKeys p.entries
    → (length (enforce_capacity_locked p).entries ≤ p.max_size)
      × HasKeys (enforce_capacity_locked p).entries
unfolding enforce_capacity_locked
enforce-bounded p h = elim (Bool-cases (leb (length p.entries) p.max_size)) [
  | inl e ↦ rw e (leb→le (length p.entries) p.max_size e, h)
  | inr e ↦
      let n = length p.entries - p.max_size in
      let ks = keys_of (sort_by_use p.entries) in
      let (l, h') =
        length-pop_all (take n ks) p.entries h
          (λ k. omega (arith, times-take k n ks, times-sort k p.entries)) in
      let taken =
        length-take n ks (omega (arith, length-sort p.entries, length-keys_of p.entries)) in
      rw e (omega (arith, l, taken), h')
]

evict_locked-kept :
    (key : String) (p : EnginePool)
    → HasKeys p.entries
    → HasKeys (evict_locked key p).entries
      × (length (evict_locked key p).entries ≤ length p.entries)
      × ((evict_locked key p).max_size ≡ p.max_size)
unfolding evict_locked
evict_locked-kept key p h = elim (Option-cases (get key p.entries)) [
  | inl e ↦ rw (e, evict_locked) (h, omega arith, refl)
  | inr (x, e) ↦
      rw (e, evict_locked)
        (remove-HasKeys key p.entries h, omega (arith, length-remove key p.entries), refl)
]

abbrev pub IsBounded : ℕ → EnginePool → Type 0
IsBounded n p = (p.max_size ≡ n) × HasKeys p.entries × (length p.entries ≤ n)

evict_locked-IsBounded :
    (n : ℕ) (key : String) (p : EnginePool) → IsBounded n p → IsBounded n (evict_locked key p)
evict_locked-IsBounded n key p h =
    let (k, l, m) = evict_locked-kept key p h.1 in (m ∙ h.0, k, omega (arith, l, h.2))

evict_each-IsBounded :
    (n : ℕ) (ks : List String) (p : EnginePool) → IsBounded n p → IsBounded n (evict_each ks p)
unfolding evict_each
evict_each-IsBounded n [] p h = h
evict_each-IsBounded n (k ∷ ks) p h =
    evict_each-IsBounded n ks (evict_locked k p) (evict_locked-IsBounded n k p h)

enforce-max_size : (p : EnginePool) → (enforce_capacity_locked p).max_size ≡ p.max_size
unfolding enforce_capacity_locked
enforce-max_size p = elim (Bool-cases (leb (length p.entries) p.max_size)) [
  | inl e ↦ rw e refl
  | inr e ↦ rw e refl
]

create-IsBounded :
    (n now : ℕ) (page : Page) (provider : String) (engine : ℕ) (a : Bool) (p : EnginePool)
    → IsBounded n p
    → IsBounded n (create now page provider engine a p)
unfolding create
create-IsBounded n now page provider engine a p h =
    let e : PoolEntry = record {
      engine = engine;
      page = page;
      provider_id = provider;
      created_at = now;
      last_used_at = now;
      uses = 0;
      attached = a;
    } in
    let q : EnginePool = record p {
      misses = p.misses + 1;
      entries = put page.address e p.entries;
    } in
    let (l, k) = enforce-bounded q (put-HasKeys page.address e p.entries h.1) in
    (enforce-max_size q ∙ h.0, k, omega (arith, l, h.0))

get_or_create-IsBounded :
    (n now : ℕ) (page : Page) (provider : String) (engine : ℕ) (a : Bool) (p : EnginePool)
    → IsBounded n p
    → IsBounded n (get_or_create now page provider engine a p).1
unfolding get_or_create
get_or_create-IsBounded n now page provider engine a p h =
    elim (Option-cases (get page.address p.entries)) [
      | inl e ↦ rw (e, get_or_create) (create-IsBounded n now page provider engine a p h)
      | inr (x, e) ↦ elim (Bool-cases (x.page.object == page.object)) [
        | inl same ↦
            rw (e, same, get_or_create)
              (
                h.0,
                put-HasKeys page.address (touch now x) p.entries h.1,
                omega (arith, length-put page.address x (touch now x) p.entries e, h.2),
              )
        | inr other ↦
            rw (e, other, get_or_create)
              (create-IsBounded n now page provider engine a (evict_locked page.address p)
                (evict_locked-IsBounded n page.address p h))
      ]
    ]

-- A call of the pool, with its time, the engine that would be new, and whether it could be attached.
pub data Call : Type 0 where
  gets : ℕ → Page → String → ℕ → Bool → Call
  releases : Page → Call
  releases_all : Call
  collects : ℕ → Call

unfoldable pub step : EnginePool → Call → EnginePool
step p (gets now page provider engine a) = (get_or_create now page provider engine a p).1
step p (releases page) = release_page page p
step p releases_all = release_all p
step p (collects now) = (gc now p).1

unfoldable pub run : EnginePool → List Call → EnginePool
unfolding step
run p [] = p
run p (c ∷ cs) = run (step p c) cs

step-IsBounded : (n : ℕ) (p : EnginePool) (c : Call) → IsBounded n p → IsBounded n (step p c)
unfolding step release_page release_all gc
step-IsBounded n p (gets now page provider engine a) h =
    get_or_create-IsBounded n now page provider engine a p h
step-IsBounded n p (releases page) h = evict_locked-IsBounded n page.address p h
step-IsBounded n p releases_all h = evict_each-IsBounded n (keys_of p.entries) p h
step-IsBounded n p (collects now) h =
    evict_each-IsBounded n
      (keys_of
        (keep (λ (x : String × PoolEntry). ltb p.idle_ttl (now - (x.1).last_used_at)) p.entries))
      p h

run-IsBounded : (n : ℕ) (p : EnginePool) (cs : List Call) → IsBounded n p → IsBounded n (run p cs)
unfolding run
run-IsBounded n p [] h = h
run-IsBounded n p (c ∷ cs) h = run-IsBounded n (step p c) cs (step-IsBounded n p c h)

-- After any calls of a new pool it keeps at most as many engines as its size, and one for a page
-- address at most.
pub run-size-le :
    (n ttl : ℕ) (cs : List Call) (address : String)
    → let p = run (new_pool n ttl) cs in
      (length p.entries ≤ n) × (times address (keys_of p.entries) ≤ 1)
run-size-le n ttl cs address =
    let (m, k, l) = run-IsBounded n (new_pool n ttl) cs (refl, (λ j. omega arith), omega arith) in
    (l, k address)
