-- ===== src/Orchestrator/Leases/Exclusion.antt =====
-- An account is never under two active leases, whatever the manager is asked, as long as only
-- active leases are released and no account is registered anew while it is leased.
use chat_to_agent.Base.{
  keep, ◌∙◌, ◌⊎◌, ℕ, ◌≤◌, ◌≡◌, refl, inl, inr, true, false, Option, none, some, String, List, [],
  ◌∷◌, arith, str_eq, eq_iff, if◌then◌else◌, Option-cases, max_by, Bool-cases,
}
use chat_to_agent.Base.Dict.{Dict, get, put, values}
use chat_to_agent.Base.Members.{
  IsKeyed, put-IsKeyed, update_all-IsKeyed, get_of-Has, key-get, Has, Has-keep, max_by-Has,
}
use chat_to_agent.Models.Account.{Account, AccountState, is_available, mark_active, mark_idle}
use chat_to_agent.Models.Lease.{
  Lease, is_active, is_alive, activate, heartbeat, release, check_expired, expire,
}
use chat_to_agent.Models.Lease
use chat_to_agent.Orchestrator.Leases.{
  Manager, register_account, or_all, candidates, request_lease, release_lease, heartbeat_lease,
  expire_if, force_expire_leases_for_account, mark_account_unavailable,
}
use chat_to_agent.Orchestrator.Leases.Counting.{
  active_on, in_use, active_on-put, active_on-expire_if, in_use-put, in_use-le-one,
}

pub record Inv (m : Manager) : Type 0 where
  pub accounts_keyed : IsKeyed (λ a. a.id) m.accounts
  pub leases_keyed : IsKeyed (λ l. l.id) m.leases
  pub room : (a : String) → active_on a m.leases ≤ in_use a m.accounts

pub register_account-Inv :
    (a : Account) (m : Manager) → active_on a.id m.leases ≡ 0 → Inv m → Inv (register_account a m)
unfolding register_account
register_account-Inv a m free h = record {
  accounts_keyed = put-IsKeyed (λ (x : Account). x.id) a.id a m.accounts h.accounts_keyed refl;
  leases_keyed = h.leases_keyed;
  room = λ b. ground (arith, h.room b, in_use-put a.id b a m.accounts, eq_iff a.id b);
}

or_all-Has : (a : Account) (xs ys : List Account) → Has a (or_all xs ys) → Has a xs ⊎ Has a ys
or_all-Has a [] ys h = inr h
or_all-Has a (x ∷ xs) ys h = inl h

pub candidates-available :
    (now : ℕ) (preferred : Option String) (m : Manager) (a : Account)
    → Has a (candidates now preferred m)
    → Has a (values m.accounts) × (is_available now a ≡ true)
unfolding candidates
candidates-available now none m a h = Has-keep (is_available now) a (values m.accounts) h
candidates-available now (some p) m a h =
    let all = keep (is_available now) (values m.accounts) in
    Has-keep (is_available now) a (values m.accounts)
      (elim (or_all-Has a (keep (λ x. str_eq x.provider p) all) all h) [
        | inl q ↦ (Has-keep (λ x. str_eq x.provider p) a all q).0
        | inr q ↦ q
      ])

-- An account that the manager chooses is registered under its own name, and is available.
pub chosen-registered :
    (now : ℕ) (preferred : Option String) (m : Manager) (a : Account)
    → IsKeyed (λ x. x.id) m.accounts
    → max_by (λ x. x.health_score) (candidates now preferred m) ≡ some a
    → (get a.id m.accounts ≡ some a) × (is_available now a ≡ true)
chosen-registered now preferred m a k e =
    let (member, free) =
      candidates-available now preferred m a
        (max_by-Has (λ (x : Account). x.health_score) a (candidates now preferred m) e) in
    (get_of-Has (λ (x : Account). x.id) a m.accounts k member, free)

lend-Inv :
    (now : ℕ) (i t g : String) (a : Account) (m : Manager)
    → Inv m
    → get a.id m.accounts ≡ some a
    → is_available now a ≡ true
    → Inv (record {
      accounts = put a.id (mark_active a) m.accounts;
      leases = put i (activate now (Lease.new i a.id t g)) m.leases;
    })
unfolding mark_active activate Lease.new is_available
lend-Inv now i t g a m h e free = record {
  accounts_keyed =
      put-IsKeyed (λ (x : Account). x.id) a.id (mark_active a) m.accounts h.accounts_keyed refl;
  leases_keyed =
      put-IsKeyed (λ (x : Lease). x.id) i (activate now (Lease.new i a.id t g)) m.leases
        h.leases_keyed refl;
  room = λ b. ground (
    arith,
    h.room b,
    in_use-put a.id b (mark_active a) m.accounts,
    active_on-put b i (activate now (Lease.new i a.id t g)) m.leases,
    eq_iff a.id b,
  );
}

pub request_lease-Inv :
    (now : ℕ) (i t g : String) (p : Option String) (m : Manager)
    → Inv m
    → Inv (request_lease now i t g p m).1
unfolding request_lease
request_lease-Inv now i t g p m h =
    elim (Option-cases (max_by (λ a. a.health_score) (candidates now p m))) [
      | inl e ↦ rw (e, request_lease) h
      | inr (a, e) ↦
          (let (here, free) = chosen-registered now p m a h.accounts_keyed e in
            rw (e, request_lease) (lend-Inv now i t g a m h here free))
    ]

-- A change of one lease that does not make it active, and of the account that it is on.
settle-Inv :
    (i : String) (l l' : Lease) (m : Manager)
    → Inv m
    → get i m.leases ≡ some l
    → l'.id ≡ l.id
    → l'.account_id ≡ l.account_id
    → is_active l.state ≡ true
    → is_active l'.state ≡ false
    → (accounts : Dict Account) → IsKeyed (λ a. a.id) accounts
    → ((b : String)
        → in_use b accounts ≡ (if str_eq l.account_id b then 0 else in_use b m.accounts))
    → Inv (record { accounts = accounts; leases = put i l' m.leases })
settle-Inv i l l' m h e same on was is accounts k u = record {
  accounts_keyed = k;
  leases_keyed =
      put-IsKeyed (λ (x : Lease). x.id) i l' m.leases h.leases_keyed
        (same ∙ key-get (λ (x : Lease). x.id) i l m.leases h.leases_keyed e);
  room = λ b. ground (
    arith,
    h.room b,
    u b,
    in_use-le-one b m.accounts,
    active_on-put b i l' m.leases,
    eq_iff l.account_id b,
  );
}

pub release_lease-Inv :
    (i : String) (m : Manager)
    → ((l : Lease) → get i m.leases ≡ some l → is_active l.state ≡ true)
    → Inv m
    → Inv (release_lease i m).1
unfolding release_lease release mark_idle
release_lease-Inv i m live h = elim (Option-cases (get i m.leases)) [
  | inl e ↦ rw (e, release_lease) h
  | inr (l, e) ↦ elim (Option-cases (get l.account_id m.accounts)) [
    | inl none_there ↦
        rw (e, none_there, release_lease)
          (settle-Inv i l (release l) m h e refl refl (live l e) refl m.accounts h.accounts_keyed
            (λ b. ground (arith, none_there, eq_iff l.account_id b)))
    | inr (a, there) ↦
        rw (e, there, release_lease)
          (settle-Inv i l (release l) m h e refl refl (live l e) refl
            (put l.account_id (mark_idle a) m.accounts)
            (put-IsKeyed (λ (x : Account). x.id) l.account_id (mark_idle a) m.accounts
              h.accounts_keyed
              (key-get (λ (x : Account). x.id) l.account_id a m.accounts h.accounts_keyed there))
            (λ b. in_use-put l.account_id b (mark_idle a) m.accounts))
  ]
]

pub heartbeat_lease-Inv :
    (now : ℕ) (i : String) (m : Manager) → Inv m → Inv (heartbeat_lease now i m).1
unfolding heartbeat_lease heartbeat
heartbeat_lease-Inv now i m h = elim (Option-cases (get i m.leases)) [
  | inl e ↦ rw (e, heartbeat_lease) h
  | inr (l, e) ↦
      rw (e, heartbeat_lease)
        (elim (Bool-cases (is_alive now l)) [
          | inl alive ↦ rw alive (record {
            accounts_keyed = h.accounts_keyed;
            leases_keyed =
                put-IsKeyed (λ (x : Lease). x.id) i (heartbeat now l) m.leases h.leases_keyed
                  (ground (arith, key-get (λ (x : Lease). x.id) i l m.leases h.leases_keyed e));
            room = λ b. ground (arith, h.room b, e, active_on-put b i (heartbeat now l) m.leases);
          })
          | inr dead ↦ rw dead h
        ])
]

expire_if-id : (i : String) (l : Lease) → (expire_if i l).id ≡ l.id
unfolding expire
expire_if-id i l = ground arith

pub mark_account_unavailable-Inv :
    (i : String) (s : AccountState) (m : Manager) → Inv m → Inv (mark_account_unavailable i s m).1
unfolding mark_account_unavailable
mark_account_unavailable-Inv i s m h = elim (Option-cases (get i m.accounts)) [
  | inl e ↦ rw (e, mark_account_unavailable) h
  | inr (a, e) ↦
      rw (e, mark_account_unavailable)
        (record {
          accounts_keyed =
              put-IsKeyed (λ (x : Account). x.id) i (record a { state = s }) m.accounts
                h.accounts_keyed
                (key-get (λ (x : Account). x.id) i a m.accounts h.accounts_keyed e);
          leases_keyed =
              update_all-IsKeyed (λ (x : Lease). x.id) (expire_if i) m.leases (expire_if-id i)
                h.leases_keyed;
          room = λ b. ground (
            arith,
            h.room b,
            in_use-put i b (record a { state = s }) m.accounts,
            active_on-expire_if i b m.leases,
          );
        })
]

pub force_expire-Inv :
    (i : String) (m : Manager) → Inv m → Inv (force_expire_leases_for_account i m).1
unfolding force_expire_leases_for_account
force_expire-Inv i m h = record {
  accounts_keyed = h.accounts_keyed;
  leases_keyed =
      update_all-IsKeyed (λ (x : Lease). x.id) (expire_if i) m.leases (expire_if-id i)
        h.leases_keyed;
  room = λ b. ground (arith, h.room b, active_on-expire_if i b m.leases);
}
