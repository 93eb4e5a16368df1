-- ===== src/Samples/Storage.antt =====
-- A store and a journal over a few calls.
use chat_to_agent.Base.{
  if◌then◌else◌, keep, ℕ, String, ◌≡◌, refl, Bool, true, false, Option, none, some, List, [], ◌∷◌,
  take, str_eq,
}
use chat_to_agent.Storage.Memory.{empty}
use chat_to_agent.Storage.Memory.Abstract.{
  Call, sets, gets, deletes, logs, reads, pushes, pops, measures, done, text, flag, id, entries,
  amount, nothing, replies,
}
use chat_to_agent.Storage.Journal.{
  Payload, missing, plain, json, Step, get_task_journal, get_last_checkpoint,
}
use chat_to_agent.Storage.Journal.Logging.{
  log_all, steps_of, last_checkpoint, AreReadable, get_task_journal-log_all,
  get_last_checkpoint-log_all,
}

-- A value for two milliseconds, asked for within and after them.
abbrev asked : List (Call ℕ)
asked =
    sets 1000 "k" "v" (some 2000)
    ∷ gets 3000 "k"
    ∷ gets 3001 "k"
    ∷ deletes 3002 "k"
    ∷ pushes 3003 "q" "a"
    ∷ pushes 3003 "q" "b"
    ∷ pops 3004 "q"
    ∷ measures 3004 "q"
    ∷ logs 3005 "s" 7
    ∷ reads 3006 "s" 10
    ∷ []

asked_answers : replies nothing asked ≡ (
    done
    ∷ text (some "v")
    ∷ text none
    ∷ flag false
    ∷ done
    ∷ done
    ∷ text (some "a")
    ∷ amount 1
    ∷ id (record { millis = 3; counter = 1 })
    ∷ entries (7 ∷ [])
    ∷ [])
unfolding replies
asked_answers = refl

-- The part of JSON that is written with two words.
abbrev dumps : Bool → String
dumps true = "true"
dumps false = "false"

abbrev loads : String → Option Bool
loads s = if str_eq s "true" then some true else if str_eq s "false" then some false else none

loads-dumps : (j : Bool) → loads (dumps j) ≡ some j
loads-dumps true = refl
loads-dumps false = refl

abbrev step_at : ℕ → String → String → Payload Bool → Step Bool
step_at t task status given = record {
  task_id = task;
  agent = "worker";
  action = "act";
  input = given;
  output = missing;
  status = status;
  timestamp = t;
}

abbrev logged : List (Step Bool)
logged =
    step_at 1 "a" "completed" (plain "hello")
    ∷ step_at 2 "a" "checkpoint" (json true)
    ∷ step_at 3 "b" "checkpoint" missing
    ∷ step_at 4 "a" "checkpoint" (json false)
    ∷ []

logged-readable : AreReadable dumps loads logged
logged-readable = (refl, tt, (tt, tt, (tt, tt, (tt, tt, tt))))

get_task_journal-log_all_example :
    get_task_journal dumps loads "a" 2 (log_all dumps loads empty logged)
    ≡ take 2 (steps_of dumps loads "a" logged)
get_task_journal-log_all_example =
    get_task_journal-log_all dumps loads refl loads-dumps logged "a" 2 refl logged-readable

get_last_checkpoint-log_all_example :
    get_last_checkpoint dumps loads 2 "a" (log_all dumps loads empty logged)
    ≡ last_checkpoint dumps loads (take 2 (steps_of dumps loads "a" logged))
get_last_checkpoint-log_all_example =
    get_last_checkpoint-log_all dumps loads refl loads-dumps logged "a" 2 refl logged-readable

second_step :
    last_checkpoint dumps loads (take 2 (steps_of dumps loads "a" logged))
    ≡ some (step_at 2 "a" "checkpoint" (json true))
unfolding last_checkpoint keep
second_step = refl
