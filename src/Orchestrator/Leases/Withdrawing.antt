-- ===== src/Orchestrator/Leases/Withdrawing.antt =====
-- What jailing an account does, and what a release does that comes after it.

use chat_to_agent.Base.{ℕ, ◌≡◌, ◌≢◌, refl, true, false, Option, some, String, arith, eq_iff}
use chat_to_agent.Base.Dict.{get-put}
use chat_to_agent.Base.Members.{put-IsKeyed, IsKeyed, key-get}
use chat_to_agent.Models.Account.{Account, AccountState, jail, mark_idle, is_available}
use chat_to_agent.Models.Lease.{Lease, is_active, release}
use chat_to_agent.Orchestrator.Leases.{
  Manager, request_lease, release_lease, mark_account_unavailable, get_lease, get_account,
}
use chat_to_agent.Orchestrator.Leases.Granting.{request_lease-IsGranted}
use chat_to_agent.Orchestrator.Leases.Counting.{active_on, active_on-put, active_on-expire_if}

mark_account_unavailable-fields :
    (m : Manager) (account_id : String) (s : AccountState) (a : Account)
    → get_account account_id m ≡ some a
    → (active_on account_id (mark_account_unavailable account_id s m).1.leases ≡ 0)
      × (get_account account_id (mark_account_unavailable account_id s m).1
          ≡ some (record a { state = s }))
      × (IsKeyed (λ x. x.id) m.accounts
          → IsKeyed (λ x. x.id) (mark_account_unavailable account_id s m).1.accounts)
unfolding mark_account_unavailable get_account
mark_account_unavailable-fields m account_id s a e =
    rw (e, mark_account_unavailable)
      (
        ground (
          arith,
          active_on-expire_if account_id account_id m.leases,
          eq_iff account_id account_id,
        ),
        ground (
          arith,
          get-put account_id account_id (record a { state = s }) m.accounts,
          eq_iff account_id account_id,
        ),
        λ k.
            put-IsKeyed (λ (x : Account). x.id) account_id (record a { state = s }) m.accounts k
              (key-get (λ (x : Account). x.id) account_id a m.accounts k e),
      )

jail-is_available : (now : ℕ) (a : Account) → a.state ≡ jail → is_available now a ≡ false
unfolding is_available
jail-is_available now a h = ground arith

-- After an account is jailed it is under no active lease, and no request is granted on it, whatever
-- the time and the preferred provider.
pub jailed_not_leased :
    (m : Manager) (account_id : String) (a : Account) (now : ℕ) (i t g : String) (p : Option String)
    (l : Lease)
    → IsKeyed (λ x. x.id) m.accounts
    → get_account account_id m ≡ some a
    → let m' = (mark_account_unavailable account_id jail m).1 in
      (active_on account_id m'.leases ≡ 0)
      × ((request_lease now i t g p m').0 ≡ some l → l.account_id ≢ account_id)
jailed_not_leased m account_id a now i t g p l k e =
    let m' = (mark_account_unavailable account_id jail m).1 in
    let fields = mark_account_unavailable-fields m account_id jail a e in
    (
      fields.0,
      λ got same.
          let (best, grant) = request_lease-IsGranted now i t g p m' l (fields.2 k) got in
          ground (
            arith,
            fields.1,
            grant.on_best,
            grant.registered,
            grant.was_available,
            jail-is_available now best,
            same,
          ),
    )

-- A release of any lease, active or not, makes its account available, also where the account was
-- jailed or is under another, active lease, which stays.
pub release_lease-is_available :
    (m : Manager) (i : String) (l : Lease) (a : Account) (now : ℕ)
    → get_lease i m ≡ some l
    → get_account l.account_id m ≡ some a
    → let m' = (release_lease i m).1 in
      (get_account l.account_id m' ≡ some (mark_idle a))
      × (is_available now (mark_idle a) ≡ true)
      × (is_active l.state ≡ false
          → active_on l.account_id m'.leases ≡ active_on l.account_id m.leases)
unfolding release_lease get_lease get_account mark_idle is_available release
release_lease-is_available m i l a now e there =
    rw (e, there, release_lease)
      (
        rw (get-put l.account_id l.account_id (mark_idle a) m.accounts)
            (ground (arith, eq_iff l.account_id l.account_id)),
        refl,
        λ was. ground (arith, active_on-put l.account_id i (release l) m.leases),
      )
