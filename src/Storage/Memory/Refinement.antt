-- ===== src/Storage/Memory/Refinement.antt =====
-- The store does what is promised of it.
use chat_to_agent.Base.{truthy, ℕ, ◌≤◌, String, ◌≡◌, Option, none, some, List, [], ◌∷◌, map}
use chat_to_agent.Base.Dict.{get}
use chat_to_agent.Storage.Memory.{
  Store, Stored, EntryId, set_key, get_key, delete_key, push_to_stream, read_stream, push_to_list,
  pop_from_list, get_list_length,
}
use chat_to_agent.Storage.Memory.Abstract.{
  Promise, Call, Reply, time, lasting, serve, sets, gets, deletes, logs, reads, pushes, pops,
  measures, done, text, flag, id, entries, amount,
}

-- What an entry of the dictionary says of its key at a time.
abbrev read_at : Option Stored → ℕ → Option String
read_at none t = none
read_at (some e) t = lasting e.text e.expiry t

module _ {A : Type 0} where
  unfoldable pub step : Store A → Call A → Reply A × Store A
  unfolding set_key get_key delete_key push_to_stream read_stream push_to_list pop_from_list
      get_list_length
  step s (sets now k v ttl) = (done, set_key now k v ttl s)
  step s (gets now k) = let (v, s') = get_key now k s in (text v, s')
  step s (deletes now k) = let (b, s') = delete_key now k s in (flag b, s')
  step s (logs now k e) = let (i, s') = push_to_stream now k e s in (id i, s')
  step s (reads now k n) = (entries (read_stream k n s), s)
  step s (pushes now k v) = (done, push_to_list k v s)
  step s (pops now k) = let (v, s') = pop_from_list k s in (text v, s')
  step s (measures now k) = (amount (get_list_length k s), s)

  unfoldable pub answers : Store A → List (Call A) → List (Reply A)
  unfolding step
  answers s [] = []
  answers s (c ∷ cs) = let (r, s') = step s c in r ∷ answers s' cs

  -- The clock never goes back.
  abbrev pub IsOrdered : ℕ → List (Call A) → Type 0
  IsOrdered t [] = Unit
  IsOrdered t (c ∷ cs) = (t ≤ time c) × IsOrdered (time c) cs

  -- From this time on the store reads as promised.
  record Keeps (now : ℕ) (s : Store A) (p : Promise A) : Type 0 where
    values : (k : String) (t : ℕ) → now ≤ t → read_at (get k s.keys) t ≡ p.value_at k t
    queues : (k : String) → truthy (get k s.lists) [] ≡ p.queue k
    logged : (k : String) → map (λ (e : EntryId × A). e.1) (truthy (get k s.streams) []) ≡ p.log k
    counted : s.counter ≡ p.pushed

  -- One call: the reply that is owed, and the promise kept after it.
  Serves : ℕ → Store A → Promise A → Call A → Type 0
  Serves now s p c = ((step s c).0 ≡ (serve p c).0) × Keeps now (step s c).1 (serve p c).1
