-- ===== src/Workspace/Files/Atomic.antt =====
-- A write puts the whole content in place, or leaves the old one.
use chat_to_agent.Base.{
  ℕ, String, ◌≡◌, refl, ◌∙◌, ◌≢◌, ◌⊎◌, inl, inr, Bool, true, Option, some, List, ◌∷◌, arith,
}
use chat_to_agent.Base.Exec.{Outcome, Outcome-cases, returned, raised, ◌>>=◌, ◌>>◌, catch, pure}
use chat_to_agent.Workspace.Disk.{FilePath, Node, file, Disk, IsLawful}
use chat_to_agent.Workspace.Disk.Methods.{lift, suppress}
use chat_to_agent.Workspace.Texts.{Text}
use chat_to_agent.Workspace.Files.{
  already_exists, codec_error, resolve_inside, put_in_place, drop_temp, atomic_write, write, give,
  refuse_existing,
}
use chat_to_agent.Workspace.Files.Held.{resolve_inside-state}

-- The encoded content, the node before, the node after, and what the method gave.
abbrev pub IsAllOrNothing :
    {E A : Type 0} → Outcome String (List ℕ) → Option Node → Option Node → Outcome E A → Type 0
IsAllOrNothing (returned bytes) old new (returned a) = new ≡ some (file bytes)
IsAllOrNothing (raised x) old new (returned a) = ⊥
IsAllOrNothing content old new (raised e) = new ≡ old

raised_nothing :
    {E : Type 0} (A : Type 0) (x : E) (o : Outcome String (List ℕ)) (old : Option Node)
    → IsAllOrNothing {E = E} {A = A} o old old (raised x)
raised_nothing A x (returned bytes) old = refl
raised_nothing A x (raised y) old = refl

module _ (D : Disk) (L : IsLawful D) (name : String) (dir : FilePath) where
  abbrev target : FilePath
  target = name ∷ dir

  put_in_place-IsAllOrNothing :
      (t : FilePath) (content : List ℕ) (s : D.State)
      → target ≢ t
      → let m = catch (put_in_place D target content t) (drop_temp D t) in
        IsAllOrNothing (returned content) (D.at target s) (D.at target (m s).1) (m s).0
  unfolding put_in_place drop_temp lift suppress
  put_in_place-IsAllOrNothing t content s apart =
      let same = L.write_file-other t target content s apart in
      let written = (D.write_file t content s).1 in
      elim (Outcome-cases (D.write_file t content s).0) [
        | inr (x, e) ↦ rw e (L.unlink-other t target written apart ∙ same)
        | inl (u, e) ↦ elim (Outcome-cases (D.rename t target written).0) [
          | inl (v, e') ↦
              rw (e, e') (L.rename-done t target written e' ∙ L.write_file-done t content s e)
          | inr (x, e') ↦
              rw (e, e')
                (L.unlink-other t target (D.rename t target written).1 apart
                  ∙ L.rename-failed t target target x written e'
                  ∙ same)
        ]
      ]

  pub atomic_write-IsAllOrNothing :
      (content : List ℕ) (s : D.State)
      → let (r, s') = atomic_write D target content s in
        IsAllOrNothing (returned content) (D.at target s) (D.at target s') r
  unfolding atomic_write lift
  atomic_write-IsAllOrNothing content s =
      let made = (D.make_dir dir true true s).1 in
      let same = L.make_dir-inside name dir true true s in
      elim (Outcome-cases (D.make_dir dir true true s).0) [
        | inr (x, e) ↦ rw e same
        | inl (u, e) ↦ elim (Outcome-cases (D.make_temp target made).0) [
          | inr (x, e') ↦ rw (e, e') (L.make_temp-failed target target x made e' ∙ same)
          | inl (t, e') ↦
              let apart = (L.make_temp-new target t made e').1 in
              let kept = L.make_temp-other target target t made e' apart ∙ same in
              rw (e, e', ← kept)
                (put_in_place-IsAllOrNothing t content (D.make_temp target made).1 apart)
        ]
      ]

  -- The result of a method is put in the place of another, its disk kept.
  then_pure-IsAllOrNothing :
      {A : Type 0} (a : A) (bytes : List ℕ) (s : D.State)
      → let (r, s') = (atomic_write D target bytes >> pure a) s in
        IsAllOrNothing (returned bytes) (D.at target s) (D.at target s') r
  then_pure-IsAllOrNothing a bytes s =
      let h = atomic_write-IsAllOrNothing bytes s in
      elim (Outcome-cases (atomic_write D target bytes s).0) [
        | inl (u, e) ↦ rw e (rw e at h)
        | inr (x, e) ↦ rw e (rw e at h)
      ]

  encoded-IsAllOrNothing :
      {A : Type 0} (a : A) (o : Outcome String (List ℕ)) (s : D.State)
      → let (r, s') =
          (give D codec_error o >>= (λ bytes. atomic_write D target bytes >> pure a)) s in
        IsAllOrNothing o (D.at target s) (D.at target s') r
  encoded-IsAllOrNothing a (returned bytes) s = then_pure-IsAllOrNothing a bytes s
  encoded-IsAllOrNothing a (raised x) s = refl

  refuse_existing-cases :
      (exclusive : Bool) (relative : String) (s : D.State)
      → (refuse_existing D exclusive relative target s ≡ (returned tt, s))
        ⊎ (refuse_existing D exclusive relative target s ≡ (raised (already_exists relative), s))
  refuse_existing-cases exclusive relative s = ground arith

  -- On a lawful disk, when the path of a write resolves to one that is not the root of the disk, the
  -- node there is afterwards a file with exactly the encoded content if the write returns, and what it
  -- was before if it raises, at whichever of its steps; a text that cannot be encoded is not written.
  pub write-IsAllOrNothing :
      (root : FilePath) (relative : String) (content : Text) (exclusive : Bool) (s : D.State)
      → (resolve_inside D root relative s).0 ≡ returned target
      → let (r, s') = write D root relative content exclusive s in
        IsAllOrNothing (D.encode content) (D.at target s) (D.at target s') r
  unfolding write
  write-IsAllOrNothing root relative content exclusive s e =
      let kept = resolve_inside-state D root relative s in
      elim (refuse_existing-cases exclusive relative s) [
        | inl f ↦ rw (e, kept, f) (encoded-IsAllOrNothing target (D.encode content) s)
        | inr f ↦
            rw (e, kept, f)
              (raised_nothing FilePath (already_exists relative) (D.encode content) (D.at target s))
      ]
