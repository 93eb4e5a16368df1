-- ===== src/Models/Lease/Expiry.antt =====
-- When a lease is alive, and what heartbeats and renewals do to its deadline.
use chat_to_agent.Base.{
  to_ℕ, min, length, List, [], ◌∷◌, ◌-◌, ℕ, ◌+◌, ◌*◌, ◌≤◌, ◌≡◌, true, false, arith, List, [], ◌∷◌,
}
use chat_to_agent.Models.Lease.{Lease, is_active, heartbeat, renew, check_expired, is_alive}

-- A heartbeat on a lease that is alive keeps it alive for at least half its term from then.
pub heartbeat-is_alive :
    (now later : ℕ) (l : Lease)
    → is_alive now l ≡ true
    → later ≤ now + l.ttl_seconds * 500_000
    → is_alive later (heartbeat now l) ≡ true
unfolding is_alive heartbeat
heartbeat-is_alive now later l h p = ground arith

-- `check_expired` answers whether the lease was active and past its deadline; afterwards an active
-- lease is alive.
pub check_expired-exact :
    (now : ℕ) (l : Lease)
    → ((check_expired now l).0 ≡ true → is_active (check_expired now l).1.state ≡ false)
      × ((check_expired now l).0 ≡ false → (check_expired now l).1 ≡ l)
      × (is_active (check_expired now l).1.state ≡ is_alive now l)
      × (is_alive now (check_expired now l).1 ≡ is_alive now l)
unfolding check_expired is_alive
check_expired-exact now l = ground arith

-- The renewals of a lease asked for at these times, in turn: how many succeed, and the lease left.
pub renew_all : Lease → List ℕ → ℕ × Lease
renew_all l [] = (0, l)
renew_all l (t ∷ ts) =
    let (ok, l') = renew t l in let (n, l'') = renew_all l' ts in (to_ℕ ok + n, l'')

-- Of any number of renewals, exactly the first succeed, up to the lease's maximum.
pub renew_all-count :
    (l : Lease) (ts : List ℕ)
    → ((renew_all l ts).0 ≡ min (length ts) (l.max_renewals - l.renewal_count))
      × ((renew_all l ts).1.renewal_count ≡ l.renewal_count + (renew_all l ts).0)
unfolding renew_all renew
renew_all-count l [] = ground arith
renew_all-count l (t ∷ ts) = ground (arith, renew_all-count (renew t l).1 ts)
