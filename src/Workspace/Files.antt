-- ===== src/Workspace/Files.antt =====
-- ai_orchestrator/workspace/manager.py: the operations of `FileWorkspace` on a disk. A text is a list of
-- code points, a file a list of bytes. The lock, which lets one method run at a time, is left out, as
-- are the two ways to list what is there (`list_tree`, `search`) and the hash of a file.
pub mod Confined
pub mod Held
pub mod Atomic
pub mod Patches
use chat_to_agent.Base.{
  ◌==◌, if◌then◌else◌, ℕ, String, Bool, true, false, not, ◌&&◌, ◌||◌, Option, none, some, List, [],
  str_eq,
}
use Prim.Native.Char.{code}
use chat_to_agent.Base.Exec.{Outcome, returned, raised, Method, ◌>>=◌, ◌>>◌, catch, pure, raise}
use chat_to_agent.Workspace.Disk.{FilePath, parent, within, Node, file, directory, Disk}
use chat_to_agent.Workspace.Disk.Methods.{lift, suppress}
use chat_to_agent.Workspace.Texts.{Text, count, replace}

-- The exceptions, without their texts.
pub data WorkspaceError : Type 0 where
  path_traversal not_found already_exists patch_conflict workspace_error : String → WorkspaceError
  atomic_write_error os_error codec_error value_error : String → WorkspaceError

-- Some character's code passes the test.
abbrev has_code : (ℕ → Bool) → String → Bool
has_code p String.[] = false
has_code p (String.◌∷◌ c s) = p (code c) || has_code p s

-- A slash, a backslash or a NUL.
abbrev is_separator : ℕ → Bool
is_separator c = (c == 47) || (c == 92) || (c == 0)

-- A single segment of a path.
unfoldable pub is_task_id : String → Bool
is_task_id s =
    not (str_eq s "") && not (str_eq s ".") && not (str_eq s "..") && not (has_code is_separator s)

module _ (D : Disk) where
  abbrev pub Act : Type 0 → Type 0
  Act A = Method D.State WorkspaceError A

  -- A result that does not depend on the disk.
  abbrev pub give : {A : Type 0} → (String → WorkspaceError) → Outcome String A → Act A
  give f (returned a) = pure a
  give f (raised e) = raise (f e)

  abbrev is_there : Option Node → Bool
  is_there none = false
  is_there (some n) = true

  abbrev is_regular : Option Node → Bool
  is_regular (some (file content)) = true
  is_regular _ = false

  abbrev is_directory : Option Node → Bool
  is_directory (some directory) = true
  is_directory _ = false

  abbrev confine : FilePath → String → FilePath → Act FilePath
  confine root relative candidate =
      if within root candidate then pure candidate else raise (path_traversal relative)

  -- `_resolve`
  unfoldable pub resolve_inside : FilePath → String → Act FilePath
  unfolding within
  resolve_inside root relative s =
      if D.is_absolute relative
      then raise (path_traversal relative) s
      else if D.has_nul relative
      then raise (path_traversal relative) s
      else confine root relative (D.resolve root relative s) s

  unfoldable pub exists : FilePath → String → Act Bool
  unfolding resolve_inside
  exists root relative = do
    target ← resolve_inside root relative
    λ s. (returned (is_there (D.at target s)), s)

  unfoldable pub is_file : FilePath → String → Act Bool
  unfolding resolve_inside
  is_file root relative = do
    target ← resolve_inside root relative
    λ s. (returned (is_regular (D.at target s)), s)

  unfoldable pub is_dir : FilePath → String → Act Bool
  unfolding resolve_inside
  is_dir root relative = do
    target ← resolve_inside root relative
    λ s. (returned (is_directory (D.at target s)), s)

  abbrev contents : String → Option Node → Act (List ℕ)
  contents relative (some (file content)) = pure content
  contents relative _ = raise (not_found relative)

  unfoldable pub read_bytes : FilePath → String → Act (List ℕ)
  unfolding resolve_inside
  read_bytes root relative = do
    target ← resolve_inside root relative
    λ s. contents relative (D.at target s) s

  unfoldable pub read : FilePath → String → Act Text
  unfolding read_bytes
  read root relative = do content ← read_bytes root relative; give codec_error (D.decode content)

  -- The body of the try: the new file is written, then put in the target's place.
  unfoldable pub put_in_place : FilePath → List ℕ → FilePath → Act (Unit {0})
  unfolding lift
  put_in_place target content tmp = do
    lift os_error (D.write_file tmp content)
    lift os_error (D.rename tmp target)

  unfoldable pub drop_temp : FilePath → WorkspaceError → Act (Unit {0})
  unfolding suppress
  drop_temp tmp e = do suppress (D.unlink tmp); raise e

  -- `_atomic_write`
  unfoldable pub atomic_write : FilePath → List ℕ → Act (Unit {0})
  unfolding put_in_place drop_temp lift
  atomic_write target content = do
    lift os_error (D.make_dir (parent target) true true)
    tmp ← lift atomic_write_error (D.make_temp target)
    catch (put_in_place target content tmp) (drop_temp tmp)

  abbrev refuse_existing : Bool → String → FilePath → Act (Unit {0})
  refuse_existing exclusive relative target s =
      if exclusive && is_there (D.at target s) then raise (already_exists relative) s else pure tt s

  unfoldable pub write_bytes : FilePath → String → List ℕ → Bool → Act FilePath
  unfolding resolve_inside atomic_write
  write_bytes root relative content exclusive = do
    target ← resolve_inside root relative
    refuse_existing exclusive relative target
    atomic_write target content
    pure target

  unfoldable pub write : FilePath → String → Text → Bool → Act FilePath
  unfolding resolve_inside atomic_write
  write root relative content exclusive = do
    target ← resolve_inside root relative
    refuse_existing exclusive relative target
    bytes ← give codec_error (D.encode content)
    atomic_write target bytes
    pure target

  -- Opening the file for writing makes it if it is missing, before the text is encoded.
  unfoldable pub append : FilePath → String → Text → Act FilePath
  unfolding resolve_inside lift
  append root relative content = do
    target ← resolve_inside root relative
    lift os_error (D.make_dir (parent target) true true)
    lift os_error (D.append_file target [])
    bytes ← give codec_error (D.encode content)
    lift os_error (D.append_file target bytes)
    pure target

  abbrev delete_node : String → Bool → FilePath → Option Node → Act (Unit {0})
  delete_node relative missing_ok target none =
      if missing_ok then pure tt else raise (not_found relative)
  delete_node relative missing_ok target (some directory) = raise (workspace_error relative)
  delete_node relative missing_ok target (some (file content)) = lift os_error (D.unlink target)

  unfoldable pub delete : FilePath → String → Bool → Act (Unit {0})
  unfolding resolve_inside lift
  delete root relative missing_ok = do
    target ← resolve_inside root relative
    λ s. delete_node relative missing_ok target (D.at target s) s

  abbrev remove_node : String → FilePath → Option Node → Act (Unit {0})
  remove_node relative target none = pure tt
  remove_node relative target (some directory) = lift os_error (D.remove_tree target)
  remove_node relative target (some (file content)) = raise (workspace_error relative)

  unfoldable pub rmtree : FilePath → String → Act (Unit {0})
  unfolding resolve_inside lift
  rmtree root relative = do
    target ← if str_eq relative "." then pure root else resolve_inside root relative
    λ s. remove_node relative target (D.at target s) s

  unfoldable pub mkdir : FilePath → String → Bool → Bool → Act FilePath
  unfolding resolve_inside lift
  mkdir root relative parents exist_ok = do
    target ← resolve_inside root relative
    lift os_error (D.make_dir target parents exist_ok)
    pure target

  -- The text with the matches replaced, if there are as many as expected.
  unfoldable pub patched : String → Text → Text → ℕ → Text → Act Text
  unfolding count replace
  patched relative old new expected_count content =
      if count old content == expected_count
      then pure (replace old new content)
      else raise (patch_conflict relative)

  unfoldable pub patch : FilePath → String → Text → Text → ℕ → Act Text
  unfolding resolve_inside patched atomic_write
  patch root relative old new expected_count = do
    target ← resolve_inside root relative
    bytes ← λ s. contents relative (D.at target s) s
    content ← give codec_error (D.decode bytes)
    new_content ← patched relative old new expected_count content
    new_bytes ← give codec_error (D.encode new_content)
    atomic_write target new_bytes
    pure new_content

  abbrev confine_root : FilePath → String → FilePath → Act FilePath
  confine_root root task_id candidate =
      if within root candidate then pure candidate else raise (path_traversal task_id)

  abbrev make_or_check : Bool → String → FilePath → Act (Unit {0})
  make_or_check create task_id workspace s =
      if create
      then lift os_error (D.make_dir workspace true true) s
      else if is_there (D.at workspace s)
      then pure tt s
      else raise (not_found task_id) s

  -- `FileWorkspace(root, task_id, create)`, for a resolved root: the directory of the workspace.
  unfoldable pub new_workspace : FilePath → String → Bool → Act FilePath
  unfolding is_task_id within lift
  new_workspace root task_id create = do
    if is_task_id task_id then pure tt else raise (value_error task_id)
    workspace ← λ s. confine_root root task_id (D.resolve root task_id s) s
    make_or_check create task_id workspace
    pure workspace
