-- ===== src/Workspace/Files/Held.antt =====
-- What is outside a workspace stays there through each of its operations.
use chat_to_agent.Base.{
  Bool-cases, ℕ, String, ◌≡◌, refl, ◌≢◌, inl, inr, Bool, true, false, Option, none, some, List, [],
  ◌∷◌, arith, str_eq, eq_iff,
}
use chat_to_agent.Base.Exec.{Outcome, Outcome-cases, returned, raised, ◌>>=◌, ◌>>◌, catch, pure}
use chat_to_agent.Workspace.Disk.{
  FilePath, parent, path_eq, within, Node, file, directory, Disk, IsLawful,
}
use chat_to_agent.Workspace.Disk.Methods.{
  lift, suppress, Keeps, then-Keeps, catch-Keeps, lift-returned,
}
use chat_to_agent.Workspace.Texts.{Text}
use chat_to_agent.Workspace.Files.{
  WorkspaceError, atomic_write_error, os_error, codec_error, Act, resolve_inside, put_in_place,
  drop_temp, atomic_write, write, write_bytes, append, delete, delete_node, rmtree, remove_node,
  mkdir, patch, patched, contents, give, refuse_existing,
}

module _ (D : Disk) (root : FilePath) where
  -- What `_resolve` returns is within the workspace, and it changes nothing.
  pub resolve_inside-within :
      (relative : String) (t : FilePath) (s : D.State)
      → (resolve_inside D root relative s).0 ≡ returned t
      → within root t ≡ true
  unfolding resolve_inside
  resolve_inside-within relative t s e = ground arith

  pub resolve_inside-state :
      (relative : String) (s : D.State) → (resolve_inside D root relative s).1 ≡ s
  unfolding resolve_inside
  resolve_inside-state relative s = ground arith

pub path_eq_lem : (p q : FilePath) → path_eq p q ≡ true → p ≡ q
path_eq_lem [] [] e = refl
path_eq_lem [] (b ∷ q) e = cc
path_eq_lem (a ∷ p) [] e = cc
path_eq_lem (a ∷ p) (b ∷ q) e = ground (arith, eq_iff a b, path_eq_lem p q)

within_trans :
    (root p q : FilePath) → within root p ≡ true → within root q ≡ false → within p q ≡ false
unfolding within
within_trans root p [] h g = elim (Bool-cases (path_eq p [])) [
  | inl e ↦ absurd (ground (arith, path_eq_lem p [] e))
  | inr e ↦ e
]
within_trans root p (name ∷ q) h g = elim (Bool-cases (path_eq p (name ∷ q))) [
  | inl e ↦ absurd (ground (arith, path_eq_lem p (name ∷ q) e))
  | inr e ↦ ground (arith, within_trans root p q h)
]

path_eq_refl : (p : FilePath) → path_eq p p ≡ true
path_eq_refl [] = refl
path_eq_refl (a ∷ p) = ground (arith, eq_iff a a, path_eq_refl p)

pub within_refl : (p : FilePath) → within p p ≡ true
unfolding within
within_refl [] = refl
within_refl (a ∷ p) = ground (arith, path_eq_refl (a ∷ p))

module _ (D : Disk) (L : IsLawful D) (root q : FilePath) (n : Node)
    (outside : within root q ≡ false) where
  -- The path holds this file or directory.
  abbrev IsHeld : D.State → Type 0
  IsHeld s = D.at q s ≡ some n

  apart : (t : FilePath) → within root t ≡ true → q ≢ t
  apart t h e = ground arith

  fresh : (t : FilePath) (s : D.State) → IsHeld s → D.at t s ≡ none → q ≢ t
  fresh t s p e same = ground arith

  -- A rule for each method that starts by `_resolve`.
  resolved-Keeps :
      {A : Type 0} (relative : String) (f : FilePath → Act D A)
      → ((t : FilePath) (s : D.State) → within root t ≡ true → Keeps IsHeld (f t) s)
      → (s : D.State) → Keeps IsHeld (resolve_inside D root relative >>= f) s
  resolved-Keeps relative f k s =
      then-Keeps IsHeld (resolve_inside D root relative) f s
        (λ p. rw (resolve_inside-state D root relative s) p)
        λ t e. k t _ (resolve_inside-within D root relative t s e)

  give-Keeps :
      {A : Type 0} (f : String → WorkspaceError) (o : Outcome String A) (s : D.State)
      → Keeps IsHeld (give D f o) s
  give-Keeps f (returned a) s p = p
  give-Keeps f (raised e) s p = p

  write_temp-Keeps :
      (target tmp : FilePath) (content : List ℕ) (s : D.State)
      → q ≢ target
      → q ≢ tmp
      → Keeps IsHeld (catch (put_in_place D target content tmp) (drop_temp D tmp)) s
  unfolding put_in_place drop_temp lift suppress
  write_temp-Keeps target tmp content s a b =
      catch-Keeps IsHeld (put_in_place D target content tmp) (drop_temp D tmp) s
        (then-Keeps IsHeld (lift os_error (D.write_file tmp content)) _ s
          (λ p. rw (L.write_file-other tmp q content s b) p)
          λ x e p. rw (L.rename-other tmp target q _ b a) p)
        λ x e p. rw (L.unlink-other tmp q _ b) p

  make_dir-Keeps :
      (p : FilePath) (a b : Bool) (s : D.State) → Keeps IsHeld (lift os_error (D.make_dir p a b)) s
  unfolding lift
  make_dir-Keeps p a b s h = L.make_dir-kept p q a b n s h

  append_file-Keeps :
      (p : FilePath) (content : List ℕ) (s : D.State)
      → within root p ≡ true
      → Keeps IsHeld (lift os_error (D.append_file p content)) s
  unfolding lift
  append_file-Keeps p content s i h = rw (L.append_file-other p q content s (apart p i)) h

  make_temp-Keeps :
      (p : FilePath) (s : D.State) → Keeps IsHeld (lift atomic_write_error (D.make_temp p)) s
  unfolding lift
  make_temp-Keeps p s h = elim (Outcome-cases (D.make_temp p s).0) [
    | inl (t, e) ↦ rw (L.make_temp-other p q t s e (fresh t s h (L.make_temp-new p t s e).0)) h
    | inr (x, e) ↦ rw (L.make_temp-failed p q x s e) h
  ]

  pub atomic_write-Keeps :
      (target : FilePath) (content : List ℕ) (s : D.State)
      → within root target ≡ true
      → Keeps IsHeld (atomic_write D target content) s
  unfolding atomic_write
  atomic_write-Keeps target content s i =
      then-Keeps IsHeld (lift os_error (D.make_dir (parent target) true true)) _ s
        (make_dir-Keeps _ _ _ s)
        λ u e p.
          then-Keeps IsHeld (lift atomic_write_error (D.make_temp target)) _ _
            (make_temp-Keeps target _)
            (λ t e' p'.
              write_temp-Keeps target t content _ (apart target i)
                (fresh t _ p
                  (L.make_temp-new target t _
                    (lift-returned atomic_write_error (D.make_temp target) t _ e')).0)
                p')
            p

  refuse_existing-Keeps :
      (exclusive : Bool) (relative : String) (t : FilePath) (s : D.State)
      → Keeps IsHeld (refuse_existing D exclusive relative t) s
  refuse_existing-Keeps exclusive relative t s p = ground arith

  -- The end of `write` and of `write_bytes`.
  pub written-Keeps :
      (t : FilePath) (content : List ℕ) (s : D.State)
      → within root t ≡ true
      → Keeps IsHeld (atomic_write D t content >> pure t) s
  written-Keeps t content s i =
      then-Keeps IsHeld (atomic_write D t content) _ s (atomic_write-Keeps t content s i) λ u e p. p

  pub write_bytes-Keeps :
      (r : String) (content : List ℕ) (x : Bool) (s : D.State)
      → Keeps IsHeld (write_bytes D root r content x) s
  unfolding write_bytes
  write_bytes-Keeps r content x = resolved-Keeps r _ λ t s i.
      then-Keeps IsHeld (refuse_existing D x r t) _ s (refuse_existing-Keeps x r t s)
        λ u e. written-Keeps t content _ i

  pub write-Keeps :
      (r : String) (content : Text) (x : Bool) (s : D.State)
      → Keeps IsHeld (write D root r content x) s
  unfolding write
  write-Keeps r content x = resolved-Keeps r _ λ t s i.
      then-Keeps IsHeld (refuse_existing D x r t) _ s (refuse_existing-Keeps x r t s) λ u e.
        then-Keeps IsHeld (give D codec_error (D.encode content)) _ _
          (give-Keeps codec_error (D.encode content) _) λ b e'. written-Keeps t b _ i

  pub append-Keeps :
      (r : String) (content : Text) (s : D.State) → Keeps IsHeld (append D root r content) s
  unfolding append
  append-Keeps r content = resolved-Keeps r _ λ t s i.
      then-Keeps IsHeld (lift os_error (D.make_dir (parent t) true true)) _ s
        (make_dir-Keeps _ _ _ s)
        λ u e.
          then-Keeps IsHeld (lift os_error (D.append_file t [])) _ _ (append_file-Keeps t [] _ i)
            λ u e.
              then-Keeps IsHeld (give D codec_error (D.encode content)) _ _
                (give-Keeps codec_error (D.encode content) _)
                λ b e'.
                  then-Keeps IsHeld (lift os_error (D.append_file t b)) _ _
                    (append_file-Keeps t b _ i) λ u e p. p

  delete_node-Keeps :
      (r : String) (m : Bool) (t : FilePath) (o : Option Node) (s : D.State)
      → within root t ≡ true
      → Keeps IsHeld (delete_node D r m t o) s
  unfolding lift
  delete_node-Keeps r true t none s i p = p
  delete_node-Keeps r false t none s i p = p
  delete_node-Keeps r m t (some directory) s i p = p
  delete_node-Keeps r m t (some (file content)) s i p = rw (L.unlink-other t q s (apart t i)) p

  pub delete-Keeps : (r : String) (m : Bool) (s : D.State) → Keeps IsHeld (delete D root r m) s
  unfolding delete
  delete-Keeps r m = resolved-Keeps r _ λ t s i. delete_node-Keeps r m t (D.at t s) s i

  remove_node-Keeps :
      (r : String) (t : FilePath) (o : Option Node) (s : D.State)
      → within root t ≡ true
      → Keeps IsHeld (remove_node D r t o) s
  unfolding lift
  remove_node-Keeps r t none s i p = p
  remove_node-Keeps r t (some (file content)) s i p = p
  remove_node-Keeps r t (some directory) s i p =
      rw (L.remove_tree-other t q s (within_trans root t q i outside)) p

  pub rmtree-Keeps :
      (r : String) (s : D.State) → within root root ≡ true → Keeps IsHeld (rmtree D root r) s
  unfolding rmtree
  rmtree-Keeps r s i = elim (Bool-cases (str_eq r ".")) [
    | inl e ↦ rw e (remove_node-Keeps r root (D.at root s) s i)
    | inr e ↦ rw e (resolved-Keeps r _ (λ t s i. remove_node-Keeps r t (D.at t s) s i) s)
  ]

  pub mkdir-Keeps : (r : String) (a b : Bool) (s : D.State) → Keeps IsHeld (mkdir D root r a b) s
  unfolding mkdir
  mkdir-Keeps r a b = resolved-Keeps r _ λ t s i.
      then-Keeps IsHeld (lift os_error (D.make_dir t a b)) _ s (make_dir-Keeps _ _ _ s) λ u e p. p

  contents-Keeps : (r : String) (o : Option Node) (s : D.State) → Keeps IsHeld (contents D r o) s
  contents-Keeps r none s p = p
  contents-Keeps r (some directory) s p = p
  contents-Keeps r (some (file content)) s p = p

  patched-Keeps :
      (r : String) (old new : Text) (k : ℕ) (content : Text) (s : D.State)
      → Keeps IsHeld (patched D r old new k content) s
  unfolding patched
  patched-Keeps r old new k content s p = ground arith

  pub patch-Keeps :
      (r : String) (old new : Text) (k : ℕ) (s : D.State)
      → Keeps IsHeld (patch D root r old new k) s
  unfolding patch
  patch-Keeps r old new k = resolved-Keeps r _ λ t s i.
      then-Keeps IsHeld (λ s. contents D r (D.at t s) s) _ s (contents-Keeps r (D.at t s) s)
        λ b e.
          then-Keeps IsHeld (give D codec_error (D.decode b)) _ _
            (give-Keeps codec_error (D.decode b) _)
            λ c e.
              then-Keeps IsHeld (patched D r old new k c) _ _ (patched-Keeps r old new k c _) λ d e.
                then-Keeps IsHeld (give D codec_error (D.encode d)) _ _
                  (give-Keeps codec_error (D.encode d) _)
                  λ b e.
                    then-Keeps IsHeld (atomic_write D t b) _ _ (atomic_write-Keeps t b _ i)
                      λ u e p. p
