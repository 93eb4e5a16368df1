-- ===== src/Workspace/Files/Patches.antt =====
-- What a patch does to a file.
use chat_to_agent.Base.{ℕ, String, ◌≡◌, ◌∙◌, ◌⊎◌, inl, inr, Option, some, List, ◌∷◌, arith}
use chat_to_agent.Base.Exec.{Outcome, Outcome-cases, returned, raised}
use chat_to_agent.Workspace.Disk.{FilePath, Node, file, Disk, IsLawful}
use chat_to_agent.Workspace.Texts.{Text, count, replace}
use chat_to_agent.Workspace.Texts.Matches.{IsReplaced, replace-IsReplaced}
use chat_to_agent.Workspace.Files.{
  WorkspaceError, patch_conflict, resolve_inside, patched, atomic_write, patch,
}
use chat_to_agent.Workspace.Files.Held.{resolve_inside-state}
use chat_to_agent.Workspace.Files.Atomic.{atomic_write-IsAllOrNothing}

-- What the file is afterwards, if the patch returns: it was a text with as many matches as expected,
-- and is the encoded text that the patch gives. If it raises, it is what it was.
module _ (D : Disk) where
  abbrev pub IsPatched :
      Text → Text → ℕ → List ℕ → Option Node → Outcome WorkspaceError Text → Type 0
  IsPatched old new n bytes node (raised e) = node ≡ some (file bytes)
  IsPatched old new n bytes node (returned t) =
      (before : Text) × (after : List ℕ) × (D.decode bytes ≡ returned before)
      × (D.encode t ≡ returned after)
      × (node ≡ some (file after))
      × IsReplaced old new n before t

module _ (D : Disk) (L : IsLawful D) (name : String) (dir : FilePath) (old new : Text) (n : ℕ) where
  abbrev place : FilePath
  place = name ∷ dir

  patched-cases :
      (relative : String) (s : D.State) (t : Text)
      → ((patched D relative old new n t s ≡ (returned (replace old new t), s)) × (count old t ≡ n))
        ⊎ (patched D relative old new n t s ≡ (raised (patch_conflict relative), s))
  unfolding patched
  patched-cases relative s t = ground arith

  count-IsReplaced : (t : Text) → count old t ≡ n → IsReplaced old new n t (replace old new t)
  count-IsReplaced t e = rw (← e) (replace-IsReplaced old new t)

  -- On a lawful disk, when the path of a patch resolves to one that is not the root of the disk and is
  -- a file: if the patch returns, `old` was found in the file's text exactly as often as was expected,
  -- read from the left and past each match; the text that it returns has `new` for every one of these
  -- and is else the same (an empty `old` matches before every character and at the end); and the file
  -- holds just that text, encoded. If the patch raises, the file is what it was.
  pub patch-IsPatched :
      (root : FilePath) (relative : String) (bytes : List ℕ) (s : D.State)
      → (resolve_inside D root relative s).0 ≡ returned place
      → D.at place s ≡ some (file bytes)
      → let (r, s') = patch D root relative old new n s in
        IsPatched D old new n bytes (D.at place s') r
  unfolding patch
  patch-IsPatched root relative bytes s e h =
      let kept = resolve_inside-state D root relative s in
      elim (Outcome-cases (D.decode bytes)) [
        | inr (x, d) ↦ rw (e, kept, h, d) h
        | inl (t, d) ↦ elim (patched-cases relative s t) [
          | inr f ↦ rw (e, kept, h, d, f) h
          | inl (f, g) ↦ elim (Outcome-cases (D.encode (replace old new t))) [
            | inr (x, c) ↦ rw (e, kept, h, d, f, c) h
            | inl (b, c) ↦
                let whole = atomic_write-IsAllOrNothing D L name dir b s in
                elim (Outcome-cases (atomic_write D place b s).0) [
                  | inr (x, w) ↦ rw (e, kept, h, d, f, c, w) ((rw w at whole) ∙ h)
                  | inl (u, w) ↦
                      rw (e, kept, h, d, f, c, w) (t, b, d, c, rw w at whole, count-IsReplaced t g)
                ]
          ]
        ]
      ]
