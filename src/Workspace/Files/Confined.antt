-- ===== src/Workspace/Files/Confined.antt =====
-- No operation of a workspace touches what is outside its directory.
use chat_to_agent.Base.{ℕ, String, ◌≡◌, Bool, false, some, List, [], ◌∷◌}
use chat_to_agent.Workspace.Disk.{FilePath, within, Node, Disk, IsLawful}
use chat_to_agent.Workspace.Texts.{Text}
use chat_to_agent.Workspace.Files.{write, write_bytes, append, delete, rmtree, mkdir, patch}
use chat_to_agent.Workspace.Files.Held.{
  write-Keeps, write_bytes-Keeps, append-Keeps, delete-Keeps, rmtree-Keeps, mkdir-Keeps,
  patch-Keeps, within_refl,
}

-- A call of a method that may change the disk.
pub data Call : Type 0 where
  writes : String → Text → Bool → Call
  writes_bytes : String → List ℕ → Bool → Call
  appends : String → Text → Call
  deletes : String → Bool → Call
  removes : String → Call
  makes : String → Bool → Bool → Call
  patches : String → Text → Text → ℕ → Call

module _ (D : Disk) (root : FilePath) where
  -- The disk after a call, whether it returns or raises.
  abbrev pub after : Call → D.State → D.State
  after (writes r t x) s = (write D root r t x s).1
  after (writes_bytes r b x) s = (write_bytes D root r b x s).1
  after (appends r t) s = (append D root r t s).1
  after (deletes r m) s = (delete D root r m s).1
  after (removes r) s = (rmtree D root r s).1
  after (makes r p x) s = (mkdir D root r p x s).1
  after (patches r o n k) s = (patch D root r o n k s).1

  unfoldable pub run : List Call → D.State → D.State
  run [] s = s
  run (c ∷ cs) s = run cs (after c s)

module _ (D : Disk) (L : IsLawful D) (root q : FilePath) (n : Node)
    (outside : within root q ≡ false) where
  after-Keeps : (c : Call) (s : D.State) → D.at q s ≡ some n → D.at q (after D root c s) ≡ some n
  after-Keeps (writes r t x) s h = write-Keeps D L root q n outside r t x s h
  after-Keeps (writes_bytes r b x) s h = write_bytes-Keeps D L root q n outside r b x s h
  after-Keeps (appends r t) s h = append-Keeps D L root q n outside r t s h
  after-Keeps (deletes r m) s h = delete-Keeps D L root q n outside r m s h
  after-Keeps (removes r) s h = rmtree-Keeps D L root q n outside r s (within_refl root) h
  after-Keeps (makes r a b) s h = mkdir-Keeps D L root q n outside r a b s h
  after-Keeps (patches r old new k) s h = patch-Keeps D L root q n outside r old new k s h

  -- On a lawful disk, a file or directory that is neither a workspace's own directory nor below it is,
  -- with its content, what it was before any calls of the workspace's methods, whether they return or
  -- raise.
  pub run-kept :
      (cs : List Call) (s : D.State) → D.at q s ≡ some n → D.at q (run D root cs s) ≡ some n
  unfolding run
  run-kept [] s h = h
  run-kept (c ∷ cs) s h = run-kept cs (after D root c s) (after-Keeps c s h)
