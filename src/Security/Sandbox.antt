-- ===== src/Security/Sandbox.antt =====
-- ai_orchestrator/security/sandbox.py: the commands of a sandbox. What the operating system does is the
-- argument `World`: the environment of the parent, where programs are, and what becomes of a command.
-- Durations are in milliseconds; whether there is an operating-system limit on memory depends on the
-- platform.
pub mod Secrets
pub mod Outputs
use chat_to_agent.Base.{
  ltb, ◌==◌, if◌then◌else◌, truthy, length, ℕ, ◌*◌, String, Bool, true, false, not, ◌&&◌, ◌||◌,
  Option, none, some, List, [], ◌∷◌, take, str_eq,
}
use chat_to_agent.Base.Dict.{Dict, get, put, remove}
use chat_to_agent.Base.Exec.{Outcome, returned, raised}
use chat_to_agent.Workspace.Texts.{count}

-- A negative return code is the signal that ended the process.
pub data ReturnCode : Type 0 where
  exited killed : ℕ → ReturnCode

pub record SandboxResult : Type 0 where
  pub stdout : List ℕ
  pub stderr : List ℕ
  pub return_code : ReturnCode
  pub timed_out : Bool
  pub duration_ms : ℕ
  pub truncated : Bool

-- What is handed to `create_subprocess_exec`, with the time that it has.
pub record Command : Type 0 where
  pub cmd : List String
  pub env : Dict String
  pub cwd : Option String
  pub timeout_ms : ℕ
  -- The limit on the address space in bytes.
  pub limit : Option ℕ

-- What becomes of a command: its output on both streams, and its return code, -1 if it has none. After an
-- overrun the output is in two parts on each stream: what `communicate` had read of it, which is lost with
-- the call that was cancelled, and what is drained from the pipes of the killed process.
pub data Launch : Type 0 where
  missing : Launch
  ended : List ℕ → List ℕ → ReturnCode → Launch
  overran : (read_out read_err drained_out drained_err : List ℕ) (code : ReturnCode) → Launch

pub record World : Type 0 where
  pub environ : Dict String
  pub executable : String
  pub which : String → Option String
  -- `resource` is there, and the platform is not Darwin.
  pub limits_memory : Bool
  pub launch : Command → Launch × ℕ
  pub not_found_message : String → List ℕ

pub data SandboxFailure : Type 0 where
  closed_error : SandboxFailure
  not_on_path : String → SandboxFailure

pub record Sandbox : Type 0 where
  pub closed : Bool

unfoldable pub new_sandbox : Sandbox
new_sandbox = record { closed = false }

unfoldable pub close : Sandbox → Sandbox
close s = record s { closed = true }

-- _MAX_OUTPUT_BYTES
abbrev pub max_output_bytes : ℕ
max_output_bytes = 1_048_576

-- os.environ.get(name, default)
abbrev forward : World → String → String → String
forward w name default = truthy (get name w.environ) default

abbrev proxies : List String
proxies =
    "http_proxy" ∷ "https_proxy" ∷ "HTTP_PROXY" ∷ "HTTPS_PROXY" ∷ "no_proxy" ∷ "NO_PROXY"
    ∷ "all_proxy" ∷ "ALL_PROXY" ∷ []

-- for key in …: env.pop(key, None)
abbrev remove_all : List String → Dict String → Dict String
remove_all [] env = env
remove_all (k ∷ ks) env = remove_all ks (remove k env)

abbrev base_env : World → Dict String
base_env w =
    ("PATH", forward w "PATH" "/usr/bin:/bin")
    ∷ ("HOME", forward w "HOME" "/tmp")
    ∷ ("LANG", forward w "LANG" "C.UTF-8")
    ∷ ("LC_ALL", forward w "LC_ALL" "C.UTF-8")
    ∷ ("PYTHONUNBUFFERED", "1")
    ∷ ("PYTHONDONTWRITEBYTECODE", "1")
    ∷ ("TMPDIR", forward w "TMPDIR" "/tmp")
    ∷ []

-- `_build_env`
unfoldable pub build_env : World → Bool → Dict String
unfolding get put remove
build_env w network =
    if network then base_env w else put "PYTHONWARNINGS" "ignore" (remove_all proxies (base_env w))

-- `_build_preexec`: the limit that it would set.
unfoldable pub build_preexec : World → Option ℕ → Option ℕ
build_preexec w none = none
build_preexec w (some mb) =
    if (mb == 0) || not w.limits_memory then none else some (mb * 1024 * 1024)

abbrev pub is_cut : List ℕ → Bool
is_cut out = ltb max_output_bytes (length out)

abbrev pub capped : List ℕ → List ℕ
capped out = if is_cut out then take max_output_bytes out else out

abbrev pub result_of : World → Command → Launch → ℕ → SandboxResult
result_of w c missing ms = record {
  stdout = [];
  stderr = elim c.cmd [ [] ↦ w.not_found_message "" | ◌∷◌ binary _ ↦ w.not_found_message binary ];
  return_code = exited 127;
  timed_out = false;
  duration_ms = ms;
  truncated = false;
}
result_of w c (ended out err code) ms = record {
  stdout = capped out;
  stderr = capped err;
  return_code = code;
  timed_out = false;
  duration_ms = ms;
  truncated = is_cut out || is_cut err;
}
result_of w c (overran read_out read_err out err code) ms = record {
  stdout = capped out;
  stderr = capped err;
  return_code = code;
  timed_out = true;
  duration_ms = ms;
  truncated = is_cut out || is_cut err;
}

-- `_run_process`
unfoldable pub run_process :
    World → List String → Dict String → ℕ → Option String → Option ℕ → SandboxResult
unfolding build_preexec
run_process w words variables time directory memory =
    let c : Command = record {
      cmd = words;
      env = variables;
      cwd = directory;
      timeout_ms = time;
      limit = build_preexec w memory;
    } in
    let (l, ms) = w.launch c in result_of w c l ms

-- The requests to run something, with their arguments: source or command, time, memory, network, directory.
pub data Request : Type 0 where
  python : String → ℕ → ℕ → Bool → Request
  bash : String → ℕ → Option String → Bool → Request
  node : String → ℕ → ℕ → Bool → Request
  command : String → List String → ℕ → Option String → Bool → Request
  module_of : String → List String → ℕ → ℕ → Bool → Option String → Request

abbrev pub Answer : Type 0
Answer = Outcome SandboxFailure SandboxResult

-- `_resolve_binary`, then the rest of the method.
abbrev with_binary : String → Option String → (String → SandboxResult) → Answer
with_binary name none f = raised (not_on_path name)
with_binary name (some path) f = returned (f path)

-- `_resolve_python`
abbrev python_of : World → String
python_of w = if str_eq w.executable "" then "python3" else w.executable

-- The methods after `_check_not_closed`. `execute_command` is given no configuration: it then has the
-- time that is asked for, and never has access to the network.
unfoldable pub perform : World → Request → Answer
unfolding run_process build_env
perform w (python code time memory network) =
    returned
      (run_process w (python_of w ∷ "-c" ∷ code ∷ []) (build_env w network) time none (some memory))
perform w (bash text time directory network) =
    returned
      (run_process w ("/bin/bash" ∷ "-c" ∷ text ∷ []) (build_env w network) time directory none)
perform w (node code time memory network) =
    with_binary "node" (w.which "node")
      λ path. run_process w (path ∷ "-e" ∷ code ∷ []) (build_env w network) time none (some memory)
perform w (command binary args time directory network) =
    with_binary binary (w.which binary)
      λ path. run_process w (path ∷ args) (build_env w false) time directory none
perform w (module_of name args time memory network directory) = returned (
    run_process w (python_of w ∷ "-m" ∷ name ∷ args) (build_env w network) time directory
      (some memory))

unfoldable pub execute : World → Sandbox → Request → Answer
unfolding perform
execute w s r = if s.closed then raised closed_error else perform w r

-- "Python", in bytes.
abbrev python_name : List ℕ
python_name = 80 ∷ 121 ∷ 116 ∷ 104 ∷ 111 ∷ 110 ∷ []

-- The probe is started with the whole environment of the parent, in its directory. It has ten seconds; a
-- probe that overruns is not stopped, and counts as a failure.
abbrev probe_of : World → Command
probe_of w = record {
  cmd = python_of w ∷ "--version" ∷ [];
  env = w.environ;
  cwd = none;
  timeout_ms = 10_000;
  limit = none;
}

abbrev is_python : Launch → Bool
is_python missing = false
is_python (ended out err (exited n)) = (n == 0) && ltb 0 (count python_name out)
is_python (ended out err (killed n)) = false
is_python (overran read_out read_err out err code) = false

unfoldable pub check_sandbox_available : World → Sandbox → Outcome SandboxFailure Bool
unfolding count
check_sandbox_available w s =
    if s.closed then raised closed_error else returned (is_python (w.launch (probe_of w)).0)

-- `execute_in_workspace`
unfoldable pub execute_in_workspace : World → Sandbox → String → String → ℕ → Bool → Answer
unfolding execute
execute_in_workspace w s root text time network = execute w s (bash text time (some root) network)
