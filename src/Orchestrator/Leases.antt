-- ===== src/Orchestrator/Leases.antt =====
-- ai_orchestrator/orchestrator/lease_manager.py. The lock makes every method atomic, so a method
-- is a function of the manager's state; the clock is an argument, in microseconds. The objects in
-- the two dictionaries are not shared between keys, so a change of an object is a change of its
-- entry. The registered callbacks are not modelled: a method that emits an event returns it.
pub mod Counting
pub mod Exclusion
pub mod Granting
pub mod Histories
pub mod Withdrawing
pub mod Reclaiming
use mathlib.Core.Logic.{ite}
use chat_to_agent.Base.{
  ℕ, suc, ◌+◌, Bool, true, false, ◌&&◌, Option, none, some, String, List, [], ◌∷◌, map, ltb, str_eq,
  is_some, max_by, keep, if◌then◌else◌,
}
use chat_to_agent.Base.Dict.{Dict, get, put, values, update_all}
use chat_to_agent.Models.Account.{
  Account, AccountState, is_available, enter_cooldown, mark_idle, mark_active,
}
use chat_to_agent.Models.Lease.{
  Lease, is_active, activate, heartbeat, release, check_expired, expire, is_alive,
}
use chat_to_agent.Models.Lease

pub AccountState-discrete : Discrete AccountState
AccountState-discrete = hlevel

pub record Manager : Type 0 where
  pub accounts : Dict Account
  pub leases : Dict Lease

abbrev pub empty : Manager
empty = record { accounts = []; leases = [] }

pub record AccountEvent : Type 0 where
  pub account_id : String
  pub provider : String
  pub old_state : AccountState
  pub new_state : AccountState
  pub lease_id : Option String

unfoldable pub register_account : Account → Manager → Manager
register_account a m = record m { accounts = put a.id a m.accounts }

unfoldable pub register_accounts : List Account → Manager → Manager
unfolding register_account
register_accounts [] m = m
register_accounts (a ∷ as') m = register_accounts as' (register_account a m)

unfoldable pub get_account : String → Manager → Option Account
get_account i m = get i m.accounts

abbrev of_provider : Option String → Account → Bool
of_provider none a = true
of_provider (some p) a = str_eq a.provider p

abbrev of_state : Option AccountState → Account → Bool
of_state none a = true
of_state (some s) a = ite (AccountState-discrete a.state s) true false

unfoldable pub list_accounts : Option String → Option AccountState → Manager → List Account
unfolding keep
list_accounts provider state m =
    keep (of_state state) (keep (of_provider provider) (values m.accounts))

-- The accounts that `request_lease` chooses from.
abbrev pub or_all : List Account → List Account → List Account
or_all [] all = all
or_all (a ∷ preferred) all = a ∷ preferred

unfoldable pub candidates : ℕ → Option String → Manager → List Account
unfolding keep
candidates now none m = keep (is_available now) (values m.accounts)
candidates now (some p) m =
    let all = keep (is_available now) (values m.accounts) in
    or_all (keep (λ a. str_eq a.provider p) all) all

-- `none` is the exception NoAvailableAccount. `lease_id` is what `uuid4` gave.
unfoldable pub request_lease :
    ℕ → String → String → String → Option String → Manager → Option Lease × Manager
unfolding candidates
request_lease now lease_id task_id agent_id preferred m =
    elim (max_by (λ a. a.health_score) (candidates now preferred m)) [
      | none ↦ (none, m)
      | some best ↦
          (let lease = activate now (Lease.new lease_id best.id task_id agent_id) in
            (
              some lease,
              record {
                accounts = put best.id (mark_active best) m.accounts;
                leases = put lease_id lease m.leases;
              },
            ))
    ]

-- The account that a released lease gives back, if it is still registered.
return_account : String → Option Account → Manager → Option Account × Manager
return_account account_id none m = (none, m)
return_account account_id (some a) m =
    (some (mark_idle a), record m { accounts = put account_id (mark_idle a) m.accounts })

unfoldable pub release_lease : String → Manager → Option Account × Manager
unfolding return_account
release_lease lease_id m = elim (get lease_id m.leases) [
  | none ↦ (none, m)
  | some l ↦
      return_account l.account_id (get l.account_id m.accounts)
        (record m { leases = put lease_id (release l) m.leases })
]

unfoldable pub heartbeat_lease : ℕ → String → Manager → Bool × Manager
heartbeat_lease now lease_id m = elim (get lease_id m.leases) [
  | none ↦ (false, m)
  | some l ↦
      if is_alive now l
      then (true, record m { leases = put lease_id (heartbeat now l) m.leases })
      else (false, m)
]

-- `account._enter_cooldown(timedelta(minutes=5))`, if the account is registered.
unfoldable pub cool_account : ℕ → String → Dict Account → Dict Account
cool_account now account_id accounts = elim (get account_id accounts) [
  | none ↦ accounts
  | some a ↦ put account_id (enter_cooldown now 300_000_000 a) accounts
]

pub record Reclaimed : Type 0 where
  pub ids : List String
  pub left : Dict Lease
  pub pool : Dict Account

-- One lease of the loop of `reclaim_expired`, before the loop goes on.
abbrev pub due : ℕ → Lease → Bool
due now l = if is_active l.state then (check_expired now l).0 else false

abbrev pub checked : ℕ → Lease → Lease
checked now l = if is_active l.state then (check_expired now l).1 else l

unfoldable pub reclaim_loop : ℕ → Dict Lease → Dict Account → Reclaimed
reclaim_loop now [] accounts = record { ids = []; left = []; pool = accounts }
reclaim_loop now ((k, l) ∷ leases) accounts =
    let rest =
      reclaim_loop now leases
        (if due now l then cool_account now l.account_id accounts else accounts) in
    record {
      ids = if due now l then l.id ∷ rest.ids else rest.ids;
      left = (k, checked now l) ∷ rest.left;
      pool = rest.pool;
    }

unfoldable pub reclaim_expired : ℕ → Manager → List String × Manager
unfolding reclaim_loop
reclaim_expired now m =
    let r = reclaim_loop now m.leases m.accounts in
    (r.ids, record { accounts = r.pool; leases = r.left })

unfoldable pub get_lease : String → Manager → Option Lease
get_lease i m = get i m.leases

unfoldable pub get_active_leases : Manager → List Lease
unfolding keep
get_active_leases m = keep (λ l. is_active l.state) (values m.leases)

-- lease.account_id == account_id and lease.state == LeaseState.ACTIVE
abbrev pub holds : String → Lease → Bool
holds account_id l = str_eq l.account_id account_id && is_active l.state

abbrev pub expire_if : String → Lease → Lease
expire_if account_id l = if holds account_id l then expire l else l

unfoldable pub force_expire_leases_for_account : String → Manager → List String × Manager
unfolding keep
force_expire_leases_for_account account_id m = (
  map (λ l. l.id) (keep (holds account_id) (values m.leases)),
  record m { leases = update_all (expire_if account_id) m.leases },
)

unfoldable pub account_jailed : String → Manager → List String × Manager
unfolding force_expire_leases_for_account
account_jailed account_id m = force_expire_leases_for_account account_id m

abbrev first : List String → Option String
first [] = none
first (x ∷ xs) = some x

-- The event that the method emits, outside the lock, is its result.
unfoldable pub mark_account_unavailable :
    String → AccountState → Manager → Option AccountEvent × Manager
unfolding keep
mark_account_unavailable account_id new m = elim (get account_id m.accounts) [
  | none ↦ (none, m)
  | some a ↦ (
    ite (AccountState-discrete a.state new) none (
        some (record {
          account_id = account_id;
          provider = a.provider;
          old_state = a.state;
          new_state = new;
          lease_id = first (map (λ l. l.id) (keep (holds account_id) (values m.leases)));
        })),
    record {
      accounts = put account_id (record a { state = new }) m.accounts;
      leases = update_all (expire_if account_id) m.leases;
    },
  )
]
