-- ===== src/Security/Sandbox/Secrets.antt =====
-- What a command in the sandbox can know of its parent's environment.
use chat_to_agent.Base.{String, ◌≡◌, refl, Bool, false, List, [], ◌∷◌}
use chat_to_agent.Base.Dict.{Dict, get}
use chat_to_agent.Security.Sandbox.{
  World, Sandbox, Request, build_env, build_preexec, run_process, perform, execute, python, bash,
  node, command, module_of,
}

-- The variables that are passed on.
abbrev pub forwarded : List String
forwarded = "PATH" ∷ "HOME" ∷ "LANG" ∷ "LC_ALL" ∷ "TMPDIR" ∷ []

-- Two environments that have the same values of these variables.
abbrev pub IsSame : List String → Dict String → Dict String → Type 0
IsSame [] e f = Unit
IsSame (k ∷ ks) e f = (get k e ≡ get k f) × IsSame ks e f

module _ (w : World) (e f : Dict String) (same : IsSame forwarded e f) where
  abbrev left : World
  left = record w { environ = e }

  abbrev right : World
  right = record w { environ = f }

  build_env-same : (network : Bool) → build_env left network ≡ build_env right network
  unfolding build_env
  build_env-same network = rw (same.0, same.1.0, same.1.1.0, same.1.1.1.0, same.1.1.1.1.0) refl

  -- Two parents whose environments agree on the five variables that are passed on get the same answer
  -- of every request to run Python, Bash or Node code, a command or a module, whatever else their
  -- environments hold: no other variable reaches what is run so. The probe whether a sandbox is
  -- available is no such request; it is started with the whole environment.
  pub execute-IsSame : (s : Sandbox) (r : Request) → execute left s r ≡ execute right s r
  unfolding execute perform run_process build_preexec
  execute-IsSame s (python code time memory network) = rw (build_env-same network) refl
  execute-IsSame s (bash text time directory network) = rw (build_env-same network) refl
  execute-IsSame s (node code time memory network) = rw (build_env-same network) refl
  execute-IsSame s (command binary args time directory network) = rw (build_env-same false) refl
  execute-IsSame s (module_of name args time memory network directory) =
      rw (build_env-same network) refl
