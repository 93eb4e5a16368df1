-- ===== src/Intelligence/Pool/Keys.antt =====
-- The keys of the pool's entries: sorted, taken out and put in.
use chat_to_agent.Base.{
  if◌then◌else◌, to_ℕ, length, ℕ, zero, suc, ◌+◌, ◌≤◌, max, String, ◌≡◌, refl, ap, some, List, [],
  ◌∷◌, take, arith, str_eq, eq_iff,
}
use chat_to_agent.Base.Dict.{Dict, get, put, remove}
use chat_to_agent.Intelligence.Pool.{PoolEntry, insert_by_use, sort_by_use, pop_all, keys_of}
use chat_to_agent.Base.Members.{times}

pub times-take : (k : String) (n : ℕ) (ks : List String) → times k (take n ks) ≤ times k ks
times-take k zero ks = omega arith
times-take k (suc n) [] = omega arith
times-take k (suc n) (x ∷ ks) = omega (arith, times-take k n ks)

pub length-take : (n : ℕ) (ks : List String) → n ≤ length ks → length (take n ks) ≡ n
length-take zero ks h = refl
length-take (suc n) [] h = absurd (omega (arith, h))
length-take (suc n) (x ∷ ks) h = omega (arith, length-take n ks (omega (arith, h)))

times-insert :
    (k : String) (x : String × PoolEntry) (xs : List (String × PoolEntry))
    → times k (keys_of (insert_by_use x xs)) ≡ to_ℕ (str_eq x.0 k) + times k (keys_of xs)
unfolding insert_by_use
times-insert k x [] = refl
times-insert k x (y ∷ ys) = ground (arith, times-insert k x ys)

pub times-sort :
    (k : String) (xs : List (String × PoolEntry))
    → times k (keys_of (sort_by_use xs)) ≡ times k (keys_of xs)
unfolding sort_by_use
times-sort k [] = refl
times-sort k (x ∷ xs) = omega (arith, times-insert k x (sort_by_use xs), times-sort k xs)

length-insert :
    (x : String × PoolEntry) (xs : List (String × PoolEntry))
    → length (keys_of (insert_by_use x xs)) ≡ suc (length (keys_of xs))
unfolding insert_by_use
length-insert x [] = refl
length-insert x (y ∷ ys) = ground (arith, length-insert x ys)

times-remove :
    (j k : String) (d : Dict PoolEntry)
    → times j (keys_of (remove k d)) ≡ (if str_eq k j then 0 else times j (keys_of d))
unfolding remove
times-remove j k [] = ground arith
times-remove j k ((i, e) ∷ d) =
    ground (arith, times-remove j k d, eq_iff i j, eq_iff i k, eq_iff k j)

pub length-remove :
    (k : String) (d : Dict PoolEntry) → length (remove k d) + times k (keys_of d) ≡ length d
unfolding remove
length-remove k [] = refl
length-remove k ((i, e) ∷ d) = ground (arith, length-remove k d)

times-put :
    (j k : String) (e : PoolEntry) (d : Dict PoolEntry)
    → times j (keys_of (put k e d)) ≤ max (times j (keys_of d)) (to_ℕ (str_eq k j))
unfolding put
times-put j k e [] = ground arith
times-put j k e ((i, x) ∷ d) = ground (arith, times-put j k e d, eq_iff i j, eq_iff i k, eq_iff k j)

pub length-put :
    (k : String) (x e : PoolEntry) (d : Dict PoolEntry)
    → get k d ≡ some x
    → length (put k e d) ≡ length d
unfolding put get
length-put k x e [] h = cc
length-put k x e ((i, y) ∷ d) h = ground (arith, h, length-put k x e d)

pub length-sort :
    (xs : List (String × PoolEntry)) → length (keys_of (sort_by_use xs)) ≡ length (keys_of xs)
unfolding sort_by_use
length-sort [] = refl
length-sort (x ∷ xs) = omega (arith, length-insert x (sort_by_use xs), length-sort xs)

pub length-keys_of : (d : Dict PoolEntry) → length (keys_of d) ≡ length d
length-keys_of [] = refl
length-keys_of (x ∷ d) = ap suc (length-keys_of d)

-- Every key stands once.
abbrev pub HasKeys : Dict PoolEntry → Type 0
HasKeys d = (k : String) → times k (keys_of d) ≤ 1

pub remove-HasKeys : (k : String) (d : Dict PoolEntry) → HasKeys d → HasKeys (remove k d)
remove-HasKeys k d h j = ground (arith, times-remove j k d, h j)

pub put-HasKeys :
    (k : String) (e : PoolEntry) (d : Dict PoolEntry) → HasKeys d → HasKeys (put k e d)
put-HasKeys k e d h j = ground (arith, times-put j k e d, h j)

-- Keys of the dictionary, each once, are taken out one by one.
pub length-pop_all :
    (ks : List String) (d : Dict PoolEntry)
    → HasKeys d
    → ((k : String) → times k ks ≤ times k (keys_of d))
    → (length (pop_all ks d) + length ks ≡ length d) × HasKeys (pop_all ks d)
unfolding pop_all
length-pop_all [] d h s = (omega arith, h)
length-pop_all (k ∷ ks) d h s =
    let (l, h') =
      length-pop_all ks (remove k d) (remove-HasKeys k d h)
        (λ j. ground (arith, s j, s k, h j, h k, times-remove j k d, eq_iff k j, eq_iff k k)) in
    (ground (arith, l, s k, h k, length-remove k d, eq_iff k k), h')
