-- ===== src/Orchestrator/Leases/Reclaiming.antt =====
-- `reclaim_expired`: what its loop does to the leases and to the accounts.
use chat_to_agent.Orchestrator.Leases.Exclusion.{Inv}
use mathlib.Core.Option
use mathlib.Core.Path.{fun_ext}
use chat_to_agent.Base.{
  ◌∙◌, some, ◌⊎◌, ℕ, ◌+◌, ◌≤◌, ◌≡◌, refl, ap, ◌&&◌, inl, inr, Bool, true, false, String, [], ◌∷◌,
  map, keep, any, arith, str_eq, eq_iff, to_ℕ, if◌then◌else◌, Option-cases, Bool-cases,
}
use chat_to_agent.Base.Dict.{get-update_all, Dict, get, values, update_all, get-put}
use chat_to_agent.Base.Members.{update_all-IsKeyed, IsKeyed, put-IsKeyed, key-get}
use chat_to_agent.Models.Account.{Account, enter_cooldown}
use chat_to_agent.Models.Lease.{is_alive, Lease, past, expired, is_active, check_expired}
use chat_to_agent.Orchestrator.Leases.{
  get_account, get_lease, reclaim_expired, Manager, cool_account, due, checked, reclaim_loop, holds,
}
use chat_to_agent.Orchestrator.Leases.Counting.{active_on, in_use, in_use-le-one}

abbrev pub cooled : ℕ → Account → Account
cooled now = enter_cooldown now 300_000_000

get-cool_account :
    (now : ℕ) (a b : String) (accounts : Dict Account)
    → get b (cool_account now a accounts)
      ≡ (if str_eq a b then Option.map (cooled now) (get b accounts) else get b accounts)
unfolding cool_account
get-cool_account now a b accounts = elim (Option-cases (get a accounts)) [
  | inl e ↦ rw (e, cool_account) (ground (arith, e, eq_iff a b))
  | inr (x, e) ↦ rw (e, cool_account, get-put) (ground (arith, e, eq_iff a b))
]

cool_account-IsKeyed :
    (now : ℕ) (a : String) (accounts : Dict Account)
    → IsKeyed (λ x. x.id) accounts
    → IsKeyed (λ x. x.id) (cool_account now a accounts)
unfolding cool_account enter_cooldown
cool_account-IsKeyed now a accounts h = elim (Option-cases (get a accounts)) [
  | inl e ↦ rw (e, cool_account) h
  | inr (x, e) ↦
      rw (e, cool_account)
        (put-IsKeyed (λ (y : Account). y.id) a (cooled now x) accounts h
          (key-get (λ (y : Account). y.id) a x accounts h e))
]

in_use-cool_account :
    (now : ℕ) (a b : String) (accounts : Dict Account)
    → in_use b (cool_account now a accounts) ≡ (if str_eq a b then 0 else in_use b accounts)
unfolding enter_cooldown
in_use-cool_account now a b accounts = rw get-cool_account (ground arith)

due-cases :
    (now : ℕ) (l : Lease)
    → ((due now l ≡ true) × (is_active l.state ≡ true) × (is_active (checked now l).state ≡ false))
      ⊎ ((due now l ≡ false) × (checked now l ≡ l))
unfolding check_expired
due-cases now l = ground arith

dead_holds : (b : String) (l : Lease) → is_active l.state ≡ false → to_ℕ (holds b l) ≡ 0
dead_holds b l dead = ground arith

-- The accounts that are still counted as held, after the loop; `n` counts the active leases that
-- the loop has passed.
room-reclaim_loop :
    (now : ℕ) (n : String → ℕ) (leases : Dict Lease) (accounts : Dict Account)
    → ((b : String) → n b + active_on b leases ≤ in_use b accounts)
    → (b : String)
    → n b + active_on b (reclaim_loop now leases accounts).left
      ≤ in_use b (reclaim_loop now leases accounts).pool
unfolding reclaim_loop
room-reclaim_loop now n [] accounts h b = h b
room-reclaim_loop now n ((k, l) ∷ ls) accounts h b = elim (due-cases now l) [
  | inl (e, live, dead) ↦ rw e (
      omega (
        arith,
        room-reclaim_loop now n ls (cool_account now l.account_id accounts)
            (λ b'. ground (
              arith,
              h b',
              in_use-le-one b' accounts,
              in_use-cool_account now l.account_id b' accounts,
            ))
            b,
        dead_holds b (checked now l) dead,
      ))
  | inr (e, same) ↦
      rw (e, same)
        (omega (
          arith,
          room-reclaim_loop now (λ b'. n b' + to_ℕ (holds b' l)) ls accounts
              (λ b'. omega (arith, h b')) b,
        ))
]

IsKeyed-reclaim_loop :
    (now : ℕ) (leases : Dict Lease) (accounts : Dict Account)
    → IsKeyed (λ a. a.id) accounts
    → IsKeyed (λ a. a.id) (reclaim_loop now leases accounts).pool
unfolding reclaim_loop
IsKeyed-reclaim_loop now [] accounts h = h
IsKeyed-reclaim_loop now ((k, l) ∷ ls) accounts h = elim (Bool-cases (due now l)) [
  | inl e ↦ rw e (
      IsKeyed-reclaim_loop now ls (cool_account now l.account_id accounts)
        (cool_account-IsKeyed now l.account_id accounts h))
  | inr e ↦ rw e (IsKeyed-reclaim_loop now ls accounts h)
]

-- The leases that the loop leaves are those that it was given, each checked.
left-reclaim_loop :
    (now : ℕ) (leases : Dict Lease) (accounts : Dict Account)
    → (reclaim_loop now leases accounts).left ≡ update_all (checked now) leases
unfolding reclaim_loop update_all
left-reclaim_loop now [] accounts = refl
left-reclaim_loop now ((k, l) ∷ ls) accounts =
    ap (◌∷◌ (k, checked now l)) (left-reclaim_loop now ls _)

ids-reclaim_loop :
    (now : ℕ) (leases : Dict Lease) (accounts : Dict Account)
    → (reclaim_loop now leases accounts).ids ≡ map (λ l. l.id) (keep (due now) (values leases))
unfolding reclaim_loop keep
ids-reclaim_loop now [] accounts = refl
ids-reclaim_loop now ((k, l) ∷ ls) accounts = ground (
  arith,
  ids-reclaim_loop now ls (if due now l then cool_account now l.account_id accounts else accounts),
)

-- Some lease that has run out is on the account.
abbrev pub ran_out_on : ℕ → String → Dict Lease → Bool
ran_out_on now a leases = any (λ l. due now l && str_eq l.account_id a) (values leases)

pool-reclaim_loop :
    (now : ℕ) (b : String) (leases : Dict Lease) (accounts : Dict Account)
    → get b (reclaim_loop now leases accounts).pool ≡ (
        if ran_out_on now b leases
        then Option.map (cooled now) (get b accounts)
        else get b accounts)
unfolding reclaim_loop enter_cooldown
pool-reclaim_loop now b [] accounts = refl
pool-reclaim_loop now b ((k, l) ∷ ls) accounts = elim (Bool-cases (due now l)) [
  | inl e ↦ rw e (
      rw (pool-reclaim_loop now b ls (cool_account now l.account_id accounts), get-cool_account)
        (ground (arith, eq_iff l.account_id b)))
  | inr e ↦ rw e (pool-reclaim_loop now b ls accounts)
]

pub reclaim_expired-Inv : (now : ℕ) (m : Manager) → Inv m → Inv (reclaim_expired now m).1
unfolding reclaim_expired check_expired
reclaim_expired-Inv now m h = record {
  accounts_keyed = IsKeyed-reclaim_loop now m.leases m.accounts h.accounts_keyed;
  leases_keyed = rw (left-reclaim_loop now m.leases m.accounts) (
      update_all-IsKeyed (λ (x : Lease). x.id) (checked now) m.leases (λ l. ground arith)
        h.leases_keyed);
  room = λ b. omega (
    arith,
    room-reclaim_loop now (λ b'. 0) m.leases m.accounts (λ b'. omega (arith, h.room b')) b,
  );
}

-- ACTIVE, with a deadline that has passed.
abbrev pub is_overdue : ℕ → Lease → Bool
is_overdue now l = is_active l.state && past now l.expires_at

abbrev pub settled : ℕ → Lease → Lease
settled now l = if is_overdue now l then record l { state = expired } else l

due_lem : (now : ℕ) (l : Lease) → due now l ≡ is_overdue now l
unfolding check_expired
due_lem now l = ground arith

checked_lem : (now : ℕ) (l : Lease) → checked now l ≡ settled now l
unfolding check_expired
checked_lem now l = ground arith

-- `reclaim_expired` returns the identifiers of the ACTIVE leases past their deadline, in order;
-- exactly those become EXPIRED, and the accounts that they are on, and no others, go to COOLDOWN
-- for five minutes.
pub reclaim_expired-exact :
    (now : ℕ) (m : Manager)
    → ((reclaim_expired now m).0 ≡ map (λ l. l.id) (keep (is_overdue now) (values m.leases)))
      × ((k : String)
          → get_lease k (reclaim_expired now m).1 ≡ Option.map (settled now) (get_lease k m))
      × ((a : String)
          → get_account a (reclaim_expired now m).1 ≡ (
              if any (λ l. is_overdue now l && str_eq l.account_id a) (values m.leases)
              then Option.map (enter_cooldown now 300_000_000) (get_account a m)
              else get_account a m))
unfolding reclaim_expired get_lease get_account
reclaim_expired-exact now m = (
  rw (ids-reclaim_loop now m.leases m.accounts, fun_ext (due_lem now)),
  λ k. rw (
    left-reclaim_loop now m.leases m.accounts,
    get-update_all (checked now) k m.leases,
    fun_ext (checked_lem now),
  ),
  λ a.
      pool-reclaim_loop now a m.leases m.accounts
      ∙ ap
          (λ (d : Lease → Bool).
            if any (λ l. d l && str_eq l.account_id a) (values m.leases)
            then Option.map (enter_cooldown now 300_000_000) (get a m.accounts)
            else get a m.accounts)
          (fun_ext (due_lem now)),
)

settled-is_alive :
    (now : ℕ) (l : Lease)
    → is_active (settled now l).state ≡ true
    → is_alive now (settled now l) ≡ true
unfolding is_alive
settled-is_alive now l h = ground arith

-- After `reclaim_expired`, every lease that is still ACTIVE is alive.
pub reclaim_expired-is_alive :
    (now : ℕ) (m : Manager) (k : String) (l : Lease)
    → get_lease k (reclaim_expired now m).1 ≡ some l
    → is_active l.state ≡ true
    → is_alive now l ≡ true
reclaim_expired-is_alive now m k l e live = elim (Option-cases (get_lease k m)) [
  | inl gone ↦ ground (arith, (reclaim_expired-exact now m).1 k)
  | inr (old, there) ↦ ground (arith, (reclaim_expired-exact now m).1 k, settled-is_alive now old)
]
