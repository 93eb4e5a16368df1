-- ===== src/Samples/Disk.antt =====
-- A disk as a function from paths to nodes, which is lawful.
use chat_to_agent.Base.{
  if◌then◌else◌, Bool-cases, Option-cases, ℕ, String, ◌≡◌, refl, ◌∙◌, ◌≢◌, ◌⊎◌, inl, inr, true,
  false, Option, none, some, List, [], ◌∷◌, ◌++◌, arith, str_eq, eq_iff,
}
use Prim.Native.String.{◌++◌ as join}
use chat_to_agent.Base.Exec.{Outcome, returned, raised, Method}
use chat_to_agent.Workspace.Disk.{
  FilePath, path_eq, parent, within, Node, file, directory, Disk, IsLawful,
}
use chat_to_agent.Workspace.Files.Held.{path_eq_lem}

abbrev pub Nodes : Type 0
Nodes = FilePath → Option Node

abbrev pub set : FilePath → Option Node → Nodes → Nodes
set p o s q = if path_eq p q then o else s q

abbrev bytes_of : Option Node → List ℕ
bytes_of (some (file c)) = c
bytes_of _ = []

abbrev temp_of : FilePath → FilePath
temp_of [] = "tmp" ∷ []
temp_of (name ∷ dir) = join name ".tmp" ∷ dir

abbrev make_if_missing : FilePath → Option Node → Method Nodes String (Unit {0})
make_if_missing p none s = (returned tt, set p (some directory) s)
make_if_missing p (some n) s = (returned tt, s)

abbrev make_if_new : FilePath → FilePath → Option Node → Method Nodes String FilePath
make_if_new p t (some n) s = (raised "exists", s)
make_if_new p t none s =
    if path_eq p t then (raised "exists", s) else (returned t, set t (some (file [])) s)

abbrev move : FilePath → FilePath → Option Node → Method Nodes String (Unit {0})
move t p none s = (raised "missing", s)
move t p (some n) s = (returned tt, set p (some n) (set t none s))

abbrev pub disk : Disk
disk = record {
  State = Nodes;
  at = λ p s. s p;
  resolve = λ root relative s.
      if str_eq relative ".."
      then parent root
      else if str_eq relative "."
      then root
      else relative ∷ root;
  is_absolute = λ r. str_eq r "/etc";
  has_nul = λ r. false;
  encode = λ c. returned c;
  decode = λ c. returned c;
  make_dir = λ p a b s. make_if_missing p (s p) s;
  make_temp = λ p s. make_if_new p (temp_of p) (s (temp_of p)) s;
  write_file = λ p c s. (returned tt, set p (some (file c)) s);
  append_file = λ p c s. (returned tt, set p (some (file (bytes_of (s p) ++ c))) s);
  rename = λ t p s. move t p (s t) s;
  unlink = λ p s. (returned tt, set p none s);
  remove_tree = λ p s. (returned tt, λ q. if within p q then none else s q);
}

no_cycle : (name : String) (p : FilePath) → path_eq p (name ∷ p) ≡ false
no_cycle name [] = refl
no_cycle name (a ∷ p) = ground (arith, no_cycle a p)

set-other : (p q : FilePath) (o : Option Node) (s : Nodes) → q ≢ p → set p o s q ≡ s q
set-other p q o s h = ground (arith, path_eq_lem p q)

make_if_missing-kept :
    (p q : FilePath) (o : Option Node) (n : Node) (s : Nodes)
    → s p ≡ o
    → s q ≡ some n
    → (make_if_missing p o s).1 q ≡ some n
make_if_missing-kept p q none n s e h = ground (arith, path_eq_lem p q)
make_if_missing-kept p q (some m) n s e h = h

make_if_missing-inside :
    (name : String) (p : FilePath) (o : Option Node) (s : Nodes)
    → (make_if_missing p o s).1 (name ∷ p) ≡ s (name ∷ p)
make_if_missing-inside name p none s = rw (no_cycle name p) refl
make_if_missing-inside name p (some m) s = refl

make_temp-cases :
    (p : FilePath) (s : Nodes)
    → ((disk.make_temp p s ≡ (returned (temp_of p), set (temp_of p) (some (file [])) s))
        × (s (temp_of p) ≡ none)
        × (path_eq p (temp_of p) ≡ false))
      ⊎ (disk.make_temp p s ≡ (raised "exists", s))
make_temp-cases p s = elim (Option-cases (s (temp_of p))) [
  | inr (n, e) ↦ inr (rw e refl)
  | inl e ↦ elim (Bool-cases (path_eq p (temp_of p))) [
    | inl f ↦ inr (rw (e, f) refl)
    | inr f ↦ inl (rw (e, f) refl, e, f)
  ]
]

rename-cases :
    (t p : FilePath) (s : Nodes)
    → ((disk.rename t p s ≡ (returned tt, set p (s t) (set t none s))))
      ⊎ (disk.rename t p s ≡ (raised "missing", s))
rename-cases t p s = elim (Option-cases (s t)) [
  | inl e ↦ inr (rw e refl)
  | inr (n, e) ↦ inl (rw e refl)
]

path_eq_self : (p : FilePath) → path_eq p p ≡ true
path_eq_self [] = refl
path_eq_self (a ∷ p) = ground (arith, eq_iff a a, path_eq_self p)

returned_same :
    (a b : FilePath) → ◌≡◌ {A = Outcome String FilePath} (returned a) (returned b) → a ≡ b
returned_same a b e = cc

make_temp-new :
    (p t : FilePath) (s : Nodes) → (disk.make_temp p s).0 ≡ returned t → (s t ≡ none) × (p ≢ t)
make_temp-new p t s e = elim (make_temp-cases p s) [
  | inl h ↦ ground (arith, h, e, path_eq_self p)
  | inr h ↦ ground (arith, h, e)
]

make_temp-other :
    (p q t : FilePath) (s : Nodes)
    → (disk.make_temp p s).0 ≡ returned t
    → q ≢ t
    → (disk.make_temp p s).1 q ≡ s q
make_temp-other p q t s e h = elim (make_temp-cases p s) [
  | inl g ↦
      let same = returned_same (temp_of p) t (rw g.0 at e) in
      rw g.0 (set-other (temp_of p) q (some (file [])) s (λ x. h (x ∙ same)))
  | inr g ↦ rw g refl
]

make_temp-failed :
    (p q : FilePath) (x : String) (s : Nodes)
    → (disk.make_temp p s).0 ≡ raised x
    → (disk.make_temp p s).1 q ≡ s q
make_temp-failed p q x s e = elim (make_temp-cases p s) [
  | inl g ↦ absurd (ground (arith, e, g))
  | inr g ↦ rw g refl
]

rename-other : (t p q : FilePath) (s : Nodes) → q ≢ t → q ≢ p → (disk.rename t p s).1 q ≡ s q
rename-other t p q s h k = elim (rename-cases t p s) [
  | inl g ↦ rw g (set-other p q (s t) (set t none s) k ∙ set-other t q none s h)
  | inr g ↦ rw g refl
]

rename-done :
    (t p : FilePath) (s : Nodes)
    → (disk.rename t p s).0 ≡ returned tt
    → (disk.rename t p s).1 p ≡ s t
rename-done t p s e = elim (rename-cases t p s) [
  | inl g ↦ rw (g, path_eq_self p) refl
  | inr g ↦ absurd (ground (arith, e, g))
]

rename-failed :
    (t p q : FilePath) (x : String) (s : Nodes)
    → (disk.rename t p s).0 ≡ raised x
    → (disk.rename t p s).1 q ≡ s q
rename-failed t p q x s e = elim (rename-cases t p s) [
  | inl g ↦ absurd (ground (arith, e, g))
  | inr g ↦ rw g refl
]

pub disk-IsLawful : IsLawful disk
disk-IsLawful = record {
  make_dir-kept = λ p q a b n s h. make_if_missing-kept p q (s p) n s refl h;
  make_dir-inside = λ name p a b s. make_if_missing-inside name p (s p) s;
  make_temp-new = make_temp-new;
  make_temp-other = make_temp-other;
  make_temp-failed = make_temp-failed;
  write_file-other = λ p q c s h. set-other p q (some (file c)) s h;
  write_file-done = λ p c s e. rw (path_eq_self p) refl;
  append_file-other = λ p q c s h. set-other p q (some (file (bytes_of (s p) ++ c))) s h;
  rename-other = rename-other;
  rename-done = rename-done;
  rename-failed = rename-failed;
  unlink-other = λ p q s h. set-other p q none s h;
  remove_tree-other = λ p q s h. rw h refl;
}
