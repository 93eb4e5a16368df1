-- ===== src/Samples/Workspace.antt =====
-- A task with one file, beside another task.
use chat_to_agent.Base.{String, ◌≡◌, refl, ◌↔◌, true, false, none, some, List, [], ◌∷◌}
use chat_to_agent.Base.Exec.{returned}
use chat_to_agent.Workspace.Disk.{FilePath, within, file, directory}
use chat_to_agent.Workspace.Files.{resolve_inside, write, patch}
use chat_to_agent.Workspace.Files.Confined.{Call, writes, removes, deletes, patches, run, run-kept}
use chat_to_agent.Workspace.Files.Atomic.{IsAllOrNothing, write-IsAllOrNothing}
use chat_to_agent.Workspace.Files.Patches.{IsPatched, patch-IsPatched}
use chat_to_agent.Workspace.Snapshots.{diff_snapshots}
use chat_to_agent.Workspace.Snapshots.Differences.{apply_all, touches, apply_all-diff_snapshots}
use chat_to_agent.Base.Dict.{Dict, get}
use chat_to_agent.Samples.Disk.{Nodes, set, disk, disk-IsLawful}

abbrev root : FilePath
root = "task" ∷ "workspaces" ∷ []

abbrev other : FilePath
other = "b.py" ∷ "other" ∷ "workspaces" ∷ []

-- A file of the task and one of another task.
abbrev start : Nodes
start = set root (some directory) (
    set ("a.py" ∷ root) (some (file (1 ∷ 2 ∷ 1 ∷ []))) (set other (some (file (7 ∷ []))) λ q. none))

abbrev calls : List Call
calls =
    writes "a.py" (5 ∷ []) false
    ∷ writes ".." (6 ∷ []) false
    ∷ patches "a.py" (5 ∷ []) (8 ∷ 9 ∷ []) 1
    ∷ deletes "../other/b.py" true
    ∷ removes "."
    ∷ writes "." (3 ∷ []) false
    ∷ []

run-kept_example : run disk root calls start other ≡ some (file (7 ∷ []))
unfolding within
run-kept_example = run-kept disk disk-IsLawful root other (file (7 ∷ [])) refl calls start refl

write-IsAllOrNothing_example :
    let (r, s') = write disk root "a.py" (5 ∷ []) false start in
    IsAllOrNothing (disk.encode (5 ∷ [])) (start ("a.py" ∷ root)) (s' ("a.py" ∷ root)) r
unfolding resolve_inside
write-IsAllOrNothing_example =
    write-IsAllOrNothing disk disk-IsLawful "a.py" root root "a.py" (5 ∷ []) false start refl

-- What the same write leaves.
a_written : (write disk root "a.py" (5 ∷ []) false start).1 ("a.py" ∷ root) ≡ some (file (5 ∷ []))
unfolding write
a_written = refl

patch-IsPatched_example :
    let (r, s') = patch disk root "a.py" (1 ∷ []) (3 ∷ 4 ∷ []) 2 start in
    IsPatched disk (1 ∷ []) (3 ∷ 4 ∷ []) 2 (1 ∷ 2 ∷ 1 ∷ []) (s' ("a.py" ∷ root)) r
unfolding resolve_inside
patch-IsPatched_example =
    patch-IsPatched disk disk-IsLawful "a.py" root (1 ∷ []) (3 ∷ 4 ∷ []) 2 root "a.py"
      (1 ∷ 2 ∷ 1 ∷ []) start refl refl

both_replaced :
    (patch disk root "a.py" (1 ∷ []) (3 ∷ 4 ∷ []) 2 start).0 ≡ returned (3 ∷ 4 ∷ 2 ∷ 3 ∷ 4 ∷ [])
unfolding patch
both_replaced = refl

one_expected :
    (patch disk root "a.py" (1 ∷ []) (3 ∷ []) 1 start).1 ("a.py" ∷ root)
    ≡ some (file (1 ∷ 2 ∷ 1 ∷ []))
unfolding patch
one_expected = refl

abbrev before : Dict String
before = ("a.py", "11") ∷ ("b.py", "22") ∷ []

abbrev now : Dict String
now = ("c.py", "33") ∷ ("a.py", "44") ∷ []

apply_all-diff_snapshots_example :
    (get "b.py" (apply_all (diff_snapshots before now) before) ≡ get "b.py" now)
    × ((touches "b.py" (diff_snapshots before now) ≡ false) ↔ (get "b.py" before ≡ get "b.py" now))
apply_all-diff_snapshots_example = apply_all-diff_snapshots before now "b.py"
