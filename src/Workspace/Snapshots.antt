-- ===== src/Workspace/Snapshots.antt =====
-- ai_orchestrator/workspace/manager.py: the snapshots of a workspace and their differences. The hash
-- functions are arguments; the hash of a file is none where the file cannot be read.
pub mod Differences
use chat_to_agent.Base.{
  if◌then◌else◌, is_some, truthy, length, keep, ℕ, ◌+◌, String, Bool, false, not, Option, none,
  some, List, [], ◌∷◌, ◌++◌, map, str_eq,
}
use Prim.Native.String.{◌++◌ as append}
use chat_to_agent.Base.Dict.{Dict, get, put, remove}
use chat_to_agent.Base.Sorted.{sorted, keys, listed}

-- A `FileEntry`, its time of change left out.
pub record FileEntry : Type 0 where
  pub path : String
  pub size : ℕ
  pub is_dir : Bool

pub record WorkspaceSnapshot : Type 0 where
  pub hash : String
  pub file_count : ℕ
  pub total_size : ℕ
  pub captured_at : ℕ
  pub manifest : Dict String

pub data Action : Type 0 where
  added removed modified : Action

pub record SnapshotChange : Type 0 where
  pub action : Action
  pub path : String
  pub old_hash : Option String
  pub new_hash : Option String

-- What a file adds to the manifest and to the total.
abbrev note_file : FileEntry → Option String → Dict String × ℕ → Dict String × ℕ
note_file e none (m, total) = (m, total)
note_file e (some h) (m, total) = (put e.path h m, total + e.size)

unfoldable pub collect :
    (String → Option String) → List FileEntry → Dict String × ℕ → Dict String × ℕ
unfolding put
collect hash_file [] acc = acc
collect hash_file (e ∷ es) acc =
    collect hash_file es (if e.is_dir then acc else note_file e (hash_file e.path) acc)

-- The text that the top hash is taken of.
abbrev manifest_text : Dict String → List String → String
manifest_text m [] = ""
manifest_text m (p ∷ ps) =
    append p (append "\0" (append (truthy (get p m) "") (append "\n" (manifest_text m ps))))

-- `snapshot`, given what `list_tree` lists.
unfoldable pub snapshot :
    (String → Option String) → (String → String) → ℕ → List FileEntry → WorkspaceSnapshot
unfolding collect sorted get
snapshot hash_file sha256 now entries =
    let (m, total) = collect hash_file entries ([], 0) in
    record {
      hash = sha256 (manifest_text m (sorted (keys m)));
      file_count = length m;
      total_size = total;
      captured_at = now;
      manifest = m;
    }

module _ (old new : Dict String) where
  abbrev pub addition : String → SnapshotChange
  addition p = record { action = added; path = p; old_hash = none; new_hash = get p new }

  abbrev pub removal : String → SnapshotChange
  removal p = record { action = removed; path = p; old_hash = get p old; new_hash = none }

  abbrev pub modification : String → SnapshotChange
  modification p = record {
    action = modified;
    path = p;
    old_hash = get p old;
    new_hash = get p new;
  }

  abbrev pub is_changed : Option String → Option String → Bool
  is_changed (some a) (some b) = not (str_eq a b)
  is_changed _ _ = false

  abbrev pub is_missing : String → Bool
  is_missing p = not (is_some (get p old))

  abbrev pub is_kept : String → Bool
  is_kept p = is_some (get p new)

  abbrev pub is_gone : String → Bool
  is_gone p = not (is_some (get p new))

  abbrev pub differs : String → Bool
  differs p = is_changed (get p old) (get p new)

  -- The paths of the three loops.
  abbrev pub added_paths : List String
  added_paths = sorted (keep is_missing (keys new))

  abbrev pub removed_paths : List String
  removed_paths = sorted (keep is_gone (keys old))

  abbrev pub modified_paths : List String
  modified_paths = keep differs (sorted (keep is_kept (keys old)))

  -- `diff_snapshots`, on the two manifests.
  unfoldable pub diff_snapshots : List SnapshotChange
  unfolding sorted keep get
  diff_snapshots =
      map addition added_paths ++ (map removal removed_paths ++ map modification modified_paths)
