-- ===== src/Workspace/Disk.antt =====
-- The file system under ai_orchestrator/workspace/manager.py, as an interface: what pathlib, os,
-- tempfile and shutil do for the workspace, and what is documented of it. A path is resolved: absolute,
-- without symbolic links, its innermost name first. A method that raises gives the message.
pub mod Methods
use chat_to_agent.Base.{
  ◌≡◌, ◌≢◌, ℕ, String, Bool, true, false, ◌&&◌, ◌||◌, Option, none, some, List, [], ◌∷◌, str_eq,
}
use chat_to_agent.Base.Exec.{Outcome, returned, raised, Method}

abbrev pub FilePath : Type 0
FilePath = List String

abbrev pub parent : FilePath → FilePath
parent [] = []
parent (name ∷ dir) = dir

abbrev pub path_eq : FilePath → FilePath → Bool
path_eq [] [] = true
path_eq [] (b ∷ q) = false
path_eq (a ∷ p) [] = false
path_eq (a ∷ p) (b ∷ q) = str_eq a b && path_eq p q

-- `path.relative_to(root)` succeeds: the path is the root, or below it.
unfoldable pub within : FilePath → FilePath → Bool
within root [] = path_eq root []
within root (name ∷ dir) = path_eq root (name ∷ dir) || within root dir

pub data Node : Type 0 where
  file : List ℕ → Node
  directory : Node

pub record Disk : Type 1 where
  pub State : Type 0
  pub at : FilePath → State → Option Node
  -- (directory / relative).resolve()
  pub resolve : FilePath → String → State → FilePath
  pub is_absolute : String → Bool
  pub has_nul : String → Bool
  pub encode : List ℕ → Outcome String (List ℕ)
  pub decode : List ℕ → Outcome String (List ℕ)
  -- path.mkdir(parents, exist_ok)
  pub make_dir : FilePath → Bool → Bool → Method State String (Unit {0})
  -- An empty file with a new name beside the path.
  pub make_temp : FilePath → Method State String FilePath
  pub write_file : FilePath → List ℕ → Method State String (Unit {0})
  pub append_file : FilePath → List ℕ → Method State String (Unit {0})
  pub rename : FilePath → FilePath → Method State String (Unit {0})
  pub unlink : FilePath → Method State String (Unit {0})
  pub remove_tree : FilePath → Method State String (Unit {0})

-- What each method leaves as it was, and what it is for.
pub record IsLawful (D : Disk) : Type 0 where
  pub make_dir-kept :
      (p q : FilePath) (parents exist_ok : Bool) (n : Node) (s : D.State)
      → D.at q s ≡ some n
      → D.at q (D.make_dir p parents exist_ok s).1 ≡ some n
  pub make_dir-inside :
      (name : String) (p : FilePath) (parents exist_ok : Bool) (s : D.State)
      → D.at (name ∷ p) (D.make_dir p parents exist_ok s).1 ≡ D.at (name ∷ p) s
  pub make_temp-new :
      (p t : FilePath) (s : D.State)
      → (D.make_temp p s).0 ≡ returned t
      → (D.at t s ≡ none) × (p ≢ t)
  pub make_temp-other :
      (p q t : FilePath) (s : D.State)
      → (D.make_temp p s).0 ≡ returned t
      → q ≢ t
      → D.at q (D.make_temp p s).1 ≡ D.at q s
  pub make_temp-failed :
      (p q : FilePath) (e : String) (s : D.State)
      → (D.make_temp p s).0 ≡ raised e
      → D.at q (D.make_temp p s).1 ≡ D.at q s
  pub write_file-other :
      (p q : FilePath) (content : List ℕ) (s : D.State)
      → q ≢ p
      → D.at q (D.write_file p content s).1 ≡ D.at q s
  pub write_file-done :
      (p : FilePath) (content : List ℕ) (s : D.State)
      → (D.write_file p content s).0 ≡ returned tt
      → D.at p (D.write_file p content s).1 ≡ some (file content)
  pub append_file-other :
      (p q : FilePath) (content : List ℕ) (s : D.State)
      → q ≢ p
      → D.at q (D.append_file p content s).1 ≡ D.at q s
  pub rename-other :
      (t p q : FilePath) (s : D.State) → q ≢ t → q ≢ p → D.at q (D.rename t p s).1 ≡ D.at q s
  pub rename-done :
      (t p : FilePath) (s : D.State)
      → (D.rename t p s).0 ≡ returned tt
      → D.at p (D.rename t p s).1 ≡ D.at t s
  pub rename-failed :
      (t p q : FilePath) (e : String) (s : D.State)
      → (D.rename t p s).0 ≡ raised e
      → D.at q (D.rename t p s).1 ≡ D.at q s
  pub unlink-other : (p q : FilePath) (s : D.State) → q ≢ p → D.at q (D.unlink p s).1 ≡ D.at q s
  pub remove_tree-other :
      (p q : FilePath) (s : D.State) → within p q ≡ false → D.at q (D.remove_tree p s).1 ≡ D.at q s
