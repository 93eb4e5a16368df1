-- ===== src/Storage/Memory/Abstract.antt =====
-- What the store promises: a value that is read until its time, a queue, and a log. It is told by
-- functions, and says nothing of dictionaries or of when a value is thrown away.
use chat_to_agent.Base.{
  take, if◌then◌else◌, is_some, length, ℕ, ◌+◌, ◌/◌, String, Bool, Option, none, some, List, [],
  ◌∷◌, ◌++◌, str_eq,
}
use chat_to_agent.Storage.Memory.{EntryId, expiry_of, expired, split_head}

-- A change of a function at one key.
abbrev pub update {ℓ} : {B : Type ℓ} → (String → B) → String → B → String → B
update f k b j = if str_eq k j then b else f j

pub record Promise (A : Type 0) : Type 0 where
  -- The value that the key has at a time.
  pub value_at : String → ℕ → Option String
  pub queue : String → List String
  pub log : String → List A
  pub pushed : ℕ

abbrev pub nothing : {A : Type 0} → Promise A
nothing = record { value_at = λ k t. none; queue = λ k. []; log = λ k. []; pushed = 0 }

-- The calls, each at its time.
pub data Call (A : Type 0) : Type 0 where
  sets : ℕ → String → String → Option ℕ → Call A
  gets deletes : ℕ → String → Call A
  logs : ℕ → String → A → Call A
  reads : ℕ → String → ℕ → Call A
  pushes : ℕ → String → String → Call A
  pops measures : ℕ → String → Call A

pub data Reply (A : Type 0) : Type 0 where
  done : Reply A
  text : Option String → Reply A
  flag : Bool → Reply A
  id : EntryId → Reply A
  entries : List A → Reply A
  amount : ℕ → Reply A

abbrev pub time : {A : Type 0} → Call A → ℕ
time (sets now k v ttl) = now
time (gets now k) = now
time (deletes now k) = now
time (logs now k e) = now
time (reads now k n) = now
time (pushes now k v) = now
time (pops now k) = now
time (measures now k) = now

-- A value is read up to its expiry, and not after it.
abbrev pub lasting : String → Option ℕ → ℕ → Option String
lasting v expiry t = if expired t expiry then none else some v

module _ {A : Type 0} where
  -- The reply that a call is owed, and what is promised after it.
  unfoldable pub serve : Promise A → Call A → Reply A × Promise A
  serve p (sets now k v ttl) =
      (done, record p { value_at = update p.value_at k (lasting v (expiry_of now ttl)) })
  serve p (gets now k) = (text (p.value_at k now), p)
  serve p (deletes now k) =
      (flag (is_some (p.value_at k now)), record p { value_at = update p.value_at k (λ t. none) })
  serve p (logs now k e) =
      let n = p.pushed + 1 in
      (
        id (record { millis = now / 1000; counter = n }),
        record p { log = update p.log k (p.log k ++ (e ∷ [])); pushed = n },
      )
  serve p (reads now k n) = (entries (take n (p.log k)), p)
  serve p (pushes now k v) = (done, record p { queue = update p.queue k (p.queue k ++ (v ∷ [])) })
  serve p (pops now k) =
      let (x, rest) = split_head (p.queue k) in (text x, record p { queue = update p.queue k rest })
  serve p (measures now k) = (amount (length (p.queue k)), p)

  unfoldable pub replies : Promise A → List (Call A) → List (Reply A)
  unfolding serve
  replies p [] = []
  replies p (c ∷ cs) = let (r, q) = serve p c in r ∷ replies q cs
