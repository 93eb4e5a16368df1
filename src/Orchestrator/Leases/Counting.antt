-- ===== src/Orchestrator/Leases/Counting.antt =====
-- How many active leases an account has, and whether it is marked as in use.
use chat_to_agent.Base.{
  ℕ, ◌+◌, ◌≤◌, ◌≡◌, Option, none, some, String, [], ◌∷◌, arith, str_eq, eq_iff, to_ℕ, if◌then◌else◌,
}
use chat_to_agent.Base.Dict.{Dict, get, put, update_all, get-put}
use chat_to_agent.Models.Account.{Account, AccountState, active}
use chat_to_agent.Models.Lease.{Lease, expire}
use chat_to_agent.Orchestrator.Leases.{holds, expire_if}

abbrev pub active_on : String → Dict Lease → ℕ
active_on a [] = 0
active_on a ((k, l) ∷ ls) = to_ℕ (holds a l) + active_on a ls

abbrev pub counted : String → Option Lease → ℕ
counted a none = 0
counted a (some l) = to_ℕ (holds a l)

abbrev pub is_busy : AccountState → ℕ
is_busy active = 1
is_busy _ = 0

abbrev pub used : Option Account → ℕ
used none = 0
used (some x) = is_busy x.state

-- 1 if the account is registered and ACTIVE, and 0 otherwise.
abbrev pub in_use : String → Dict Account → ℕ
in_use a accounts = used (get a accounts)

pub active_on-put :
    (a k : String) (l : Lease) (ls : Dict Lease)
    → active_on a (put k l ls) + counted a (get k ls) ≡ active_on a ls + to_ℕ (holds a l)
unfolding get put
active_on-put a k l [] = omega arith
active_on-put a k l ((j, m) ∷ ls) = ground (arith, active_on-put a k l ls)

pub active_on-expire_if :
    (a b : String) (ls : Dict Lease)
    → active_on b (update_all (expire_if a) ls) ≡ (if str_eq a b then 0 else active_on b ls)
unfolding update_all expire
active_on-expire_if a b [] = ground arith
active_on-expire_if a b ((k, l) ∷ ls) =
    ground
      (arith, active_on-expire_if a b ls, eq_iff l.account_id a, eq_iff l.account_id b, eq_iff a b)

pub in_use-put :
    (a b : String) (x : Account) (accounts : Dict Account)
    → in_use b (put a x accounts) ≡ (if str_eq a b then is_busy x.state else in_use b accounts)
in_use-put a b x accounts = rw get-put (ground arith)

pub in_use-le-one : (a : String) (accounts : Dict Account) → in_use a accounts ≤ 1
in_use-le-one a accounts = ground arith
