-- ===== src/Intelligence/Pool.antt =====
-- EnginePool of ai_orchestrator/browser_intelligence/pool.py. A page is known by its `id` and by which
-- object it is; an engine by a number, and the engines that are detached are listed in their order. A
-- new engine and whether it could be attached are arguments. The lock makes a method one step.
pub mod Keys
pub mod Capacity
use chat_to_agent.Base.{
  ltb, leb, ◌==◌, if◌then◌else◌, length, keep, ℕ, ◌+◌, ◌-◌, String, Bool, none, some, List, [], ◌∷◌,
  ◌++◌, map, take,
}
use chat_to_agent.Base.Dict.{Dict, get, put, remove}

pub record Page : Type 0 where
  pub address : String
  pub object : ℕ

pub record PoolEntry : Type 0 where
  pub engine : ℕ
  pub page : Page
  pub provider_id : String
  pub created_at : ℕ
  pub last_used_at : ℕ
  pub uses : ℕ
  pub attached : Bool

pub record EnginePool : Type 0 where
  pub max_size : ℕ
  pub idle_ttl : ℕ
  pub entries : Dict PoolEntry
  pub evictions : ℕ
  pub hits : ℕ
  pub misses : ℕ
  pub detached : List ℕ

abbrev pub new_pool : ℕ → ℕ → EnginePool
new_pool max_pool_size idle_ttl_seconds = record {
  max_size = max_pool_size;
  idle_ttl = idle_ttl_seconds;
  entries = [];
  evictions = 0;
  hits = 0;
  misses = 0;
  detached = [];
}

unfoldable pub touch : ℕ → PoolEntry → PoolEntry
touch now e = record e { last_used_at = now; uses = e.uses + 1 }

-- entry.engine.detach(), of an entry that is attached
abbrev detach_all : PoolEntry → List ℕ → List ℕ
detach_all e engines = if e.attached then engines ++ (e.engine ∷ []) else engines

unfoldable pub evict_locked : String → EnginePool → EnginePool
unfolding get remove
evict_locked key p = elim (get key p.entries) [
  | none ↦ p
  | some e ↦ record p {
    entries = remove key p.entries;
    evictions = p.evictions + 1;
    detached = detach_all e p.detached;
  }
]

-- `sorted` by the time of the last use.
unfoldable pub insert_by_use :
    String × PoolEntry → List (String × PoolEntry) → List (String × PoolEntry)
insert_by_use x [] = x ∷ []
insert_by_use x (y ∷ ys) =
    if ltb (y.1).last_used_at (x.1).last_used_at then y ∷ insert_by_use x ys else x ∷ y ∷ ys

unfoldable pub sort_by_use : List (String × PoolEntry) → List (String × PoolEntry)
unfolding insert_by_use
sort_by_use [] = []
sort_by_use (x ∷ xs) = insert_by_use x (sort_by_use xs)

unfoldable pub pop_all : List String → Dict PoolEntry → Dict PoolEntry
unfolding remove
pop_all [] d = d
pop_all (k ∷ ks) d = pop_all ks (remove k d)

unfoldable pub enforce_capacity_locked : EnginePool → EnginePool
unfolding sort_by_use pop_all
enforce_capacity_locked p =
    let excess = length p.entries - p.max_size in
    let oldest = take excess (map (λ (x : String × PoolEntry). x.0) (sort_by_use p.entries)) in
    if leb (length p.entries) p.max_size
    then p
    else record p { entries = pop_all oldest p.entries; evictions = p.evictions + excess }

-- The end of `get_or_create`, with a new engine.
unfoldable pub create : ℕ → Page → String → ℕ → Bool → EnginePool → EnginePool
unfolding put enforce_capacity_locked
create now page provider engine is_attached p =
    let e : PoolEntry = record {
      engine = engine;
      page = page;
      provider_id = provider;
      created_at = now;
      last_used_at = now;
      uses = 0;
      attached = is_attached;
    } in
    enforce_capacity_locked
      (record p { misses = p.misses + 1; entries = put page.address e p.entries })

unfoldable pub get_or_create : ℕ → Page → String → ℕ → Bool → EnginePool → ℕ × EnginePool
unfolding get put touch evict_locked create
get_or_create now page provider engine is_attached p = elim (get page.address p.entries) [
  | none ↦ (engine, create now page provider engine is_attached p)
  | some e ↦
      if e.page.object == page.object
      then (
        e.engine,
        record p { entries = put page.address (touch now e) p.entries; hits = p.hits + 1 },
      )
      else (engine, create now page provider engine is_attached (evict_locked page.address p))
]

unfoldable pub release_page : Page → EnginePool → EnginePool
unfolding evict_locked
release_page page p = evict_locked page.address p

unfoldable pub evict_each : List String → EnginePool → EnginePool
unfolding evict_locked
evict_each [] p = p
evict_each (k ∷ ks) p = evict_each ks (evict_locked k p)

abbrev pub keys_of : Dict PoolEntry → List String
keys_of d = map (λ (x : String × PoolEntry). x.0) d

unfoldable pub release_all : EnginePool → EnginePool
unfolding evict_each
release_all p = evict_each (keys_of p.entries) p

-- The number of entries evicted, and the pool.
unfoldable pub gc : ℕ → EnginePool → ℕ × EnginePool
unfolding keep evict_each
gc now p =
    let stale =
      keys_of
        (keep (λ (x : String × PoolEntry). ltb p.idle_ttl (now - (x.1).last_used_at)) p.entries) in
    (length stale, evict_each stale p)
