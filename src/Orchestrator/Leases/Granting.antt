-- ===== src/Orchestrator/Leases/Granting.antt =====
-- `request_lease`: which account it chooses, what it grants, and when it refuses.
use chat_to_agent.Base.{
  ◌↔◌, ℕ, ◌≤◌, ◌≡◌, ◌⊎◌, refl, inl, inr, Bool, true, false, Option, none, some, String, List, [],
  ◌∷◌, arith, str_eq, max_by, keep, Option-cases, if◌then◌else◌,
}
use chat_to_agent.Base.Dict.{put, values, get-put}
use chat_to_agent.Base.Members.{
  IsKeyed, Has, Has-keep, keep-Has, max_by-Has, max_by-greatest, max_by-none,
}
use chat_to_agent.Models.Account.{Account, mark_active, is_available}
use chat_to_agent.Models.Lease.{Lease, is_active, is_alive, activate}
use chat_to_agent.Models.Lease
use chat_to_agent.Orchestrator.Leases.{
  Manager, or_all, candidates, request_lease, get_lease, get_account,
}
use chat_to_agent.Orchestrator.Leases.Exclusion.{chosen-registered, candidates-available}

module _ (now : ℕ) (i t g : String) (p : Option String) (m : Manager) where
  abbrev pub chosen : Option Account
  chosen = max_by (λ a. a.health_score) (candidates now p m)

  abbrev pub granted : Account → Lease
  granted best = activate now (Lease.new i best.id t g)

  pub request_lease-cases :
      ((chosen ≡ none) × (request_lease now i t g p m ≡ (none, m)))
      ⊎ ((best : Account) × (chosen ≡ some best)
          × (request_lease now i t g p m ≡ (
            some (granted best),
            record {
              accounts = put best.id (mark_active best) m.accounts;
              leases = put i (granted best) m.leases;
            },
          )))
  unfolding request_lease
  request_lease-cases = elim (Option-cases chosen) [
    | inl e ↦ inl (e, rw (e, request_lease))
    | inr (best, e) ↦ inr (best, e, rw (e, request_lease))
  ]

-- The provider of an account is the preferred one.
abbrev pub is_preferred : Option String → Account → Bool
is_preferred none a = true
is_preferred (some q) a = str_eq a.provider q

or_all-first : (x : Account) (xs ys : List Account) → Has x xs → or_all xs ys ≡ xs
or_all-first x [] ys h = absurd h
or_all-first x (y ∷ xs) ys h = refl

or_all-cases :
    (xs ys : List Account)
    → ((y : Account) × Has y xs × (or_all xs ys ≡ xs)) ⊎ ((xs ≡ []) × (or_all xs ys ≡ ys))
or_all-cases [] ys = inr (refl, refl)
or_all-cases (x ∷ xs) ys = inl (x, inl refl, refl)

-- An available account is a candidate, unless only those of the preferred provider are.
candidates-Has :
    (now : ℕ) (p : Option String) (m : Manager) (x : Account)
    → Has x (values m.accounts)
    → is_available now x ≡ true
    → is_preferred p x ≡ true
    → Has x (candidates now p m)
unfolding candidates
candidates-Has now none m x h free fit = keep-Has (is_available now) x (values m.accounts) h free
candidates-Has now (some q) m x h free fit =
    let all = keep (is_available now) (values m.accounts) in
    let member =
      keep-Has (λ (a : Account). str_eq a.provider q) x all
        (keep-Has (is_available now) x (values m.accounts) h free) fit in
    rw (or_all-first x (keep (λ (a : Account). str_eq a.provider q) all) all member) member

-- If a candidate is not of the preferred provider, every available account is a candidate.
candidates-fallback :
    (now : ℕ) (p : Option String) (m : Manager) (b x : Account)
    → Has b (candidates now p m)
    → is_preferred p b ≡ false
    → Has x (values m.accounts)
    → is_available now x ≡ true
    → Has x (candidates now p m)
unfolding candidates
candidates-fallback now none m b x h other there free = cc
candidates-fallback now (some q) m b x h other there free =
    let all = keep (is_available now) (values m.accounts) in
    let fits = keep (λ (a : Account). str_eq a.provider q) all in
    elim (or_all-cases fits all) [
      | inl (y, there', e) ↦
          cc ((Has-keep (λ (a : Account). str_eq a.provider q) b all (rw e at h)).1)
      | inr (none_fit, e) ↦ rw e (keep-Has (is_available now) x (values m.accounts) there free)
    ]

-- If some account is available, there is a candidate.
candidates-inhabited :
    (now : ℕ) (p : Option String) (m : Manager) (x : Account)
    → Has x (values m.accounts)
    → is_available now x ≡ true
    → (y : Account) × Has y (candidates now p m)
unfolding candidates
candidates-inhabited now none m x there free =
    (x, keep-Has (is_available now) x (values m.accounts) there free)
candidates-inhabited now (some q) m x there free =
    let all = keep (is_available now) (values m.accounts) in
    let fits = keep (λ (a : Account). str_eq a.provider q) all in
    elim (or_all-cases fits all) [
      | inl (y, h, e) ↦ (y, rw e h)
      | inr (none_fit, e) ↦ (x, rw e (keep-Has (is_available now) x (values m.accounts) there free))
    ]

chosen-none :
    (now : ℕ) (i t g : String) (p : Option String) (m : Manager) (x : Account)
    → chosen now i t g p m ≡ none
    → Has x (values m.accounts)
    → is_available now x ≡ true
    → ⊥
chosen-none now i t g p m x e there free =
    let (y, h) = candidates-inhabited now p m x there free in
    max_by-none (λ (a : Account). a.health_score) y (candidates now p m) e h

not_true : (b : Bool) → (b ≡ true → ⊥) → b ≡ false
not_true true h = absurd (h refl)
not_true false h = refl

-- `request_lease` refuses exactly when no registered account is available, and then changes nothing.
pub request_lease-refuses :
    (now : ℕ) (i t g : String) (p : Option String) (m : Manager)
    → (((request_lease now i t g p m).0 ≡ none)
        ↔ ((x : Account) → Has x (values m.accounts) → is_available now x ≡ false))
      × ((request_lease now i t g p m).0 ≡ none → (request_lease now i t g p m).1 ≡ m)
request_lease-refuses now i t g p m = elim (request_lease-cases now i t g p m) [
  | inl (e, r) ↦ rw r (
    (
      (λ _ x there.
          not_true (is_available now x) (λ free. chosen-none now i t g p m x e there free)),
      λ _. refl,
    ),
    λ _. refl,
  )
  | inr (best, e, r) ↦ rw r (
    (
      (λ bad. cc),
      λ busy.
          let (member, free) =
            candidates-available now p m best
              (max_by-Has (λ (a : Account). a.health_score) best (candidates now p m) e) in
          cc (busy best member),
    ),
    λ bad. cc,
  )
]

candidates-preferred :
    (now : ℕ) (p : Option String) (m : Manager) (b x : Account)
    → Has b (candidates now p m)
    → Has x (values m.accounts)
    → is_available now x ≡ true
    → is_preferred p x ≡ true
    → is_preferred p b ≡ true
unfolding candidates
candidates-preferred now none m b x h there free fit = refl
candidates-preferred now (some q) m b x h there free fit =
    let all = keep (is_available now) (values m.accounts) in
    let fits = keep (λ (a : Account). str_eq a.provider q) all in
    let member =
      keep-Has (λ (a : Account). str_eq a.provider q) x all
        (keep-Has (is_available now) x (values m.accounts) there free) fit in
    (Has-keep (λ (a : Account). str_eq a.provider q) b all
      (rw (or_all-first x fits all member) at h)).1

granted-fields :
    (now : ℕ) (i t g : String) (p : Option String) (m : Manager) (best : Account)
    → ((granted now i t g p m best).account_id ≡ best.id)
      × (is_alive now (granted now i t g p m best) ≡ true)
unfolding activate Lease.new is_alive
granted-fields now i t g p m best = ground arith

-- What a granted lease promises: `best` is the account chosen.
pub record IsGranted (now : ℕ) (i : String) (p : Option String) (m m' : Manager) (l : Lease)
    (best : Account) : Type 0 where
  pub on_best : l.account_id ≡ best.id
  pub registered : get_account best.id m ≡ some best
  pub was_available : is_available now best ≡ true
  pub healthiest :
      (x : Account)
      → Has x (values m.accounts)
      → is_available now x ≡ true
      → (is_preferred p x ≡ true) ⊎ (is_preferred p best ≡ false)
      → x.health_score ≤ best.health_score
  pub preferred_first :
      (x : Account)
      → Has x (values m.accounts)
      → is_available now x ≡ true
      → is_preferred p x ≡ true
      → is_preferred p best ≡ true
  pub alive : is_alive now l ≡ true
  pub filed : (k : String) → get_lease k m' ≡ (if str_eq i k then some l else get_lease k m)
  pub taken :
      (b : String)
      → get_account b m' ≡ (if str_eq best.id b then some (mark_active best) else get_account b m)

-- A lease that `request_lease` grants is alive and on an available account, which becomes ACTIVE: on
-- one of the preferred provider if such an account is available, and on the healthiest of those or,
-- failing them, of all. No other lease or account changes.
pub request_lease-IsGranted :
    (now : ℕ) (i t g : String) (p : Option String) (m : Manager) (l : Lease)
    → IsKeyed (λ a. a.id) m.accounts
    → (request_lease now i t g p m).0 ≡ some l
    → (best : Account) × IsGranted now i p m (request_lease now i t g p m).1 l best
request_lease-IsGranted now i t g p m l k e = elim (request_lease-cases now i t g p m) [
  | inl (_, r) ↦ cc
  | inr (best, c, r) ↦
      (let is : granted now i t g p m best ≡ l = cc in
        let (there, free) = chosen-registered now p m best k c in
        let fields = granted-fields now i t g p m best in
        let key = λ (a : Account). a.health_score in
        let member = max_by-Has key best (candidates now p m) c in
        (
          best,
          rw (r, ← is)
              (record {
                on_best = fields.0;
                registered = unfold get_account in there;
                was_available = free;
                healthiest = λ x here free' why.
                    max_by-greatest key best x (candidates now p m) c (elim why [
                      | inl fit ↦ candidates-Has now p m x here free' fit
                      | inr other ↦ candidates-fallback now p m best x member other here free'
                    ]);
                preferred_first =
                    λ x here free' fit. candidates-preferred now p m best x member here free' fit;
                alive = fields.1;
                filed = λ b. unfold get_lease in get-put i b (granted now i t g p m best) m.leases;
                taken = λ b. unfold get_account in get-put best.id b (mark_active best) m.accounts;
              }),
        ))
]
