-- ===== src/Samples/Resources.antt =====
-- The dead letter queue and the resource scheduler on small inputs.
use chat_to_agent.Base.{
  leb, if◌then◌else◌, length, drop, keep, String, ◌≡◌, refl, none, some, List, [], ◌∷◌, arith,
}
use chat_to_agent.Models.Task.{Task, normal, interactive, background, critical}
use chat_to_agent.Models.Task
use chat_to_agent.Orchestrator.Dlq.{empty_queue, is_other, push, pop}
use chat_to_agent.Orchestrator.Dlq.Entries.{Call, pushes, pops, run, pop-push}
use chat_to_agent.Orchestrator.Resources.{SystemResources, compute_max_agents}

abbrev task_of : String → Task
task_of k = Task.new k "prompt" normal interactive 0

abbrev calls : List Call
calls =
    pushes 1 (task_of "a") "timeout" "" "" none
    ∷ pushes 2 (task_of "b") "quota" "" "" none
    ∷ pushes 3 (task_of "a") "crash" "" "" none
    ∷ pops "b"
    ∷ []

pop-push_example :
    let q = run (empty_queue 2) calls in
    let kept = keep (is_other "c") q.entries in
    pop "c" (push 9 (task_of "c") "late" "p" "x" none q).1 ≡ (
      some (push 9 (task_of "c") "late" "p" "x" none q).0,
      record q { entries = if leb 2 (length kept) then drop 1 kept else kept },
    )
unfolding Task.new empty_queue push pop
pop-push_example =
    pop-push 9 (task_of "c") "late" "p" "x" none (run (empty_queue 2) calls) (omega arith)

-- Three quarters of a gigabyte and four cores.
abbrev tight : SystemResources
tight = record { total_ram = 16_000_000; available_ram = 750_000; available_cores = 4_000_000 }

abbrev roomy : SystemResources
roomy = record { total_ram = 16_000_000; available_ram = 9_000_000; available_cores = 4_000_000 }

roomy_agents : compute_max_agents 20 roomy 1_500_000 10 20 ≡ 4
unfolding compute_max_agents
roomy_agents = refl
