-- ===== src/Workspace/Snapshots/Differences.antt =====
-- The changes between two manifests turn the one into the other.
use chat_to_agent.Base.{
  if◌then◌else◌, Bool-cases, is_some, keep, String, ◌≡◌, refl, sym, ◌↔◌, Bool, true, false, not,
  ◌&&◌, ◌||◌, Option, none, some, List, [], ◌∷◌, ◌++◌, map, arith, str_eq, eq_iff,
}
use chat_to_agent.Base.Dict.{Dict, get, put, remove, get-put, get-remove}
use chat_to_agent.Base.Sorted.{
  sorted, keys, listed, All, listed-sorted, listed-keep, listed-keys, sorted-All, keep-All,
}
use chat_to_agent.Workspace.Snapshots.{
  SnapshotChange, addition, removal, modification, is_changed, is_missing, is_kept, is_gone,
  differs, added_paths, removed_paths, modified_paths, diff_snapshots,
}

some_same : (x y : String) → ◌≡◌ {A = Option String} (some x) (some y) → x ≡ y
some_same x y h = cc

abbrev assign : String → Option String → Dict String → Dict String
assign p none m = remove p m
assign p (some h) m = put p h m

-- A manifest with the changes made: each path gets its new hash, or is removed if it has none.
unfoldable pub apply_all : List SnapshotChange → Dict String → Dict String
apply_all [] m = m
apply_all (c ∷ cs) m = apply_all cs (assign c.path c.new_hash m)

get-assign :
    (k p : String) (o : Option String) (m : Dict String)
    → get k (assign p o m) ≡ (if str_eq p k then o else get k m)
get-assign k p none m = get-remove p k m
get-assign k p (some h) m = get-put p k h m

-- The paths of some changes.
abbrev pub touches : String → List SnapshotChange → Bool
touches k [] = false
touches k (c ∷ cs) = str_eq c.path k || touches k cs

touches-append :
    (k : String) (cs ds : List SnapshotChange)
    → touches k (cs ++ ds) ≡ (touches k cs || touches k ds)
touches-append k [] ds = refl
touches-append k (c ∷ cs) ds = ground (arith, touches-append k cs ds)

module _ (new : Dict String) where
  -- Every change brings the new hash of its path.
  abbrev IsRight : List SnapshotChange → Type 0
  IsRight [] = Unit
  IsRight (c ∷ cs) = (c.new_hash ≡ get c.path new) × IsRight cs

  append-IsRight : (cs ds : List SnapshotChange) → IsRight cs → IsRight ds → IsRight (cs ++ ds)
  append-IsRight [] ds h g = g
  append-IsRight (c ∷ cs) ds h g = (h.0, append-IsRight cs ds h.1 g)

  get-apply_all :
      (k : String) (cs : List SnapshotChange) (m : Dict String)
      → IsRight cs
      → get k (apply_all cs m) ≡ (if touches k cs then get k new else get k m)
  unfolding apply_all
  get-apply_all k [] m h = refl
  get-apply_all k (c ∷ cs) m h = ground (
    arith,
    get-apply_all k cs (assign c.path c.new_hash m) h.1,
    get-assign k c.path c.new_hash m,
    h.0,
    eq_iff c.path k,
  )

module _ (old new : Dict String) where
  touches-additions :
      (k : String) (ps : List String) → touches k (map (addition old new) ps) ≡ listed k ps
  touches-additions k [] = refl
  touches-additions k (p ∷ ps) = ground (arith, touches-additions k ps)

  touches-removals :
      (k : String) (ps : List String) → touches k (map (removal old new) ps) ≡ listed k ps
  touches-removals k [] = refl
  touches-removals k (p ∷ ps) = ground (arith, touches-removals k ps)

  touches-modifications :
      (k : String) (ps : List String) → touches k (map (modification old new) ps) ≡ listed k ps
  touches-modifications k [] = refl
  touches-modifications k (p ∷ ps) = ground (arith, touches-modifications k ps)

  additions-IsRight : (ps : List String) → IsRight new (map (addition old new) ps)
  additions-IsRight [] = tt
  additions-IsRight (p ∷ ps) = (refl, additions-IsRight ps)

  modifications-IsRight : (ps : List String) → IsRight new (map (modification old new) ps)
  modifications-IsRight [] = tt
  modifications-IsRight (p ∷ ps) = (refl, modifications-IsRight ps)

  abbrev IsGone : String → Type 0
  IsGone p = get p new ≡ none

  removals-IsRight : (ps : List String) → All IsGone ps → IsRight new (map (removal old new) ps)
  removals-IsRight [] h = tt
  removals-IsRight (p ∷ ps) h = (sym h.0, removals-IsRight ps h.1)

  is_gone-IsGone : (p : String) → is_gone old new p ≡ true → IsGone p
  is_gone-IsGone p e = ground arith

  diff-IsRight : IsRight new (diff_snapshots old new)
  unfolding diff_snapshots
  diff-IsRight =
      append-IsRight new (map (addition old new) (added_paths old new)) _
        (additions-IsRight (added_paths old new))
        (append-IsRight new (map (removal old new) (removed_paths old new)) _
          (removals-IsRight (removed_paths old new) (
            sorted-All IsGone (keep (is_gone old new) (keys old))
              (keep-All IsGone (is_gone old new) (keys old) is_gone-IsGone)))
          (modifications-IsRight (modified_paths old new)))

  touches-diff_snapshots :
      (k : String)
      → touches k (diff_snapshots old new) ≡ (
          (is_some (get k new) && is_missing old new k)
          || ((is_some (get k old) && is_gone old new k)
              || ((is_some (get k old) && is_kept old new k) && differs old new k)))
  unfolding diff_snapshots
  touches-diff_snapshots k =
      rw
        (
          touches-append k (map (addition old new) (added_paths old new)),
          touches-append k (map (removal old new) (removed_paths old new)),
          touches-additions k (added_paths old new),
          touches-removals k (removed_paths old new),
          touches-modifications k (modified_paths old new),
          listed-keep k (differs old new) (sorted (keep (is_kept old new) (keys old))),
          listed-sorted k (keep (is_missing old new) (keys new)),
          listed-sorted k (keep (is_gone old new) (keys old)),
          listed-sorted k (keep (is_kept old new) (keys old)),
          listed-keep k (is_missing old new) (keys new),
          listed-keep k (is_gone old new) (keys old),
          listed-keep k (is_kept old new) (keys old),
          listed-keys k new,
          listed-keys k old,
        )
        refl

  -- Where nothing is changed the two agree.
  untouched :
      (a b : Option String)
      → ((is_some b && not (is_some a))
          || ((is_some a && not (is_some b))
              || ((is_some a && is_some b) && is_changed old new a b)))
        ≡ false
      → a ≡ b
  untouched none none h = refl
  untouched none (some y) h = cc
  untouched (some x) none h = cc
  untouched (some x) (some y) h = ground (arith, eq_iff x y)

  agreeing :
      (a b : Option String)
      → a ≡ b
      → ((is_some b && not (is_some a))
          || ((is_some a && not (is_some b))
              || ((is_some a && is_some b) && is_changed old new a b)))
        ≡ false
  agreeing none none h = refl
  agreeing none (some y) h = cc
  agreeing (some x) none h = cc
  agreeing (some x) (some y) h = ground (arith, eq_iff x y, some_same x y h)

  touches_iff :
      (k : String) → (touches k (diff_snapshots old new) ≡ false) ↔ (get k old ≡ get k new)
  touches_iff k =
      rw (touches-diff_snapshots k)
        (untouched (get k old) (get k new), agreeing (get k old) (get k new))

  -- Making the changes between two manifests in the old one gives every path the hash that it has in
  -- the new one, and no others; and a path is among the changes exactly when it has not the same hash,
  -- or none, in both.
  pub apply_all-diff_snapshots :
      (k : String)
      → (get k (apply_all (diff_snapshots old new) old) ≡ get k new)
        × ((touches k (diff_snapshots old new) ≡ false) ↔ (get k old ≡ get k new))
  apply_all-diff_snapshots k = (
    ground (
      arith,
      get-apply_all new k (diff_snapshots old new) old diff-IsRight,
      Bool-cases (touches k (diff_snapshots old new)),
      touches_iff k,
    ),
    touches_iff k,
  )
