-- ===== src/Storage/Journal/Logging.antt =====
-- What is read of a journal after steps were logged.
use chat_to_agent.Base.{
  if◌then◌else◌, is_some, truthy, keep, ℕ, zero, suc, ◌+◌, ◌/◌, String, ◌≡◌, refl, sym, ap, ◌∙◌,
  Bool, true, false, Option, none, some, List, [], ◌∷◌, ◌++◌, map-append, map-take, take, map,
  arith, str_eq, eq_iff,
}
use mathlib.Core.Option
use mathlib.Core.List.{append_assoc, append-nil}
use package.text.Mathlib.TextLemmas.{append_cancel_left}
use chat_to_agent.Base.Dict.{get, get-put}
use chat_to_agent.Storage.Memory.{Store, EntryId, empty, push_to_stream, read_stream}
use chat_to_agent.Storage.Journal.{
  Payload, missing, plain, json, Entry, Step, stream_of, scan, serialized, deserialized,
  deserialize_entry, entry_of, log_step, get_task_journal, get_last_checkpoint,
}

stream_of_iff : (j k : String) → str_eq (stream_of j) (stream_of k) ≡ str_eq j k
stream_of_iff j k =
    let to : stream_of j ≡ stream_of k → j ≡ k = append_cancel_left "journal:" j k in
    let from : j ≡ k → stream_of j ≡ stream_of k = λ e. ap stream_of e in
    ground (arith, eq_iff j k, eq_iff (stream_of j) (stream_of k), to, from)

abbrev is_for : String → Entry → Bool
is_for k e = str_eq e.task_id k

abbrev last? : List Entry → Option Entry
last? [] = none
last? (e ∷ []) = some e
last? (e ∷ d ∷ es) = last? (d ∷ es)

abbrev entries_at : String → Store Entry → List Entry
entries_at k s = map (λ (e : EntryId × Entry). e.1) (truthy (get (stream_of k) s.streams) [])

module _ {J : Type 0} (dumps : J → String) (loads : String → Option J) where
  unfoldable pub log_all : Store Entry → List (Step J) → Store Entry
  log_all s [] = s
  log_all s (x ∷ xs) = log_all (log_step dumps loads x s).1 xs

  push-entries_at :
      (now : ℕ) (j k : String) (e : Entry) (s : Store Entry)
      → entries_at k (push_to_stream now j e s).1
        ≡ (if str_eq j (stream_of k) then entries_at k s ++ (e ∷ []) else entries_at k s)
  unfolding push_to_stream
  push-entries_at now j k e s =
      let old = truthy (get j s.streams) [] in
      let i : EntryId = record { millis = now / 1000; counter = s.counter + 1 } in
      ground (
        arith,
        get-put j (stream_of k) (old ++ ((i, e) ∷ [])) s.streams,
        map-append (λ (x : EntryId × Entry). x.1) old ((i, e) ∷ []),
        eq_iff j (stream_of k),
      )

  log_step-entries_at :
      (x : Step J) (k : String) (s : Store Entry)
      → str_eq "all" k ≡ false
      → entries_at k (log_step dumps loads x s).1
        ≡ entries_at k s ++ keep (is_for k) (entry_of dumps loads x ∷ [])
  unfolding log_step entry_of keep
  log_step-entries_at x k s a =
      let e = entry_of dumps loads x in
      let s₁ = (push_to_stream x.timestamp (stream_of x.task_id) e s).1 in
      ground (
        arith,
        push-entries_at x.timestamp (stream_of x.task_id) k e s,
        push-entries_at x.timestamp "journal:all" k e s₁,
        stream_of_iff x.task_id k,
        stream_of_iff "all" k,
        append-nil (entries_at k s),
      )

  keep-cons :
      (p : Entry → Bool) (e : Entry) (es : List Entry)
      → keep p (e ∷ es) ≡ keep p (e ∷ []) ++ keep p es
  unfolding keep
  keep-cons p e es = ground arith

  log_all-entries_at :
      (xs : List (Step J)) (k : String) (s : Store Entry)
      → str_eq "all" k ≡ false
      → entries_at k (log_all s xs)
        ≡ entries_at k s ++ keep (is_for k) (map (entry_of dumps loads) xs)
  unfolding log_all keep
  log_all-entries_at [] k s a = sym (append-nil (entries_at k s))
  log_all-entries_at (x ∷ xs) k s a =
      let s₁ = (log_step dumps loads x s).1 in
      let e = entry_of dumps loads x in
      ground (
        arith,
        log_all-entries_at xs k s₁ a,
        log_step-entries_at x k s a,
        keep-cons (is_for k) e (map (entry_of dumps loads) xs),
        append_assoc (entries_at k s) (keep (is_for k) (e ∷ []))
            (keep (is_for k) (map (entry_of dumps loads) xs)),
      )

  -- The steps of one task.
  abbrev pub steps_of : String → List (Step J) → List (Step J)
  steps_of k = keep (λ x. str_eq x.task_id k)

  keep-entry_of :
      (k : String) (xs : List (Step J))
      → keep (is_for k) (map (entry_of dumps loads) xs) ≡ map (entry_of dumps loads) (steps_of k xs)
  unfolding keep entry_of
  keep-entry_of k [] = refl
  keep-entry_of k (x ∷ xs) = ground (arith, keep-entry_of k xs)

  read_stream-log_all :
      (xs : List (Step J)) (k : String) (n : ℕ)
      → str_eq "all" k ≡ false
      → read_stream (stream_of k) n (log_all empty xs)
        ≡ take n (map (entry_of dumps loads) (steps_of k xs))
  unfolding read_stream get
  read_stream-log_all xs k n a =
      let log = truthy (get (stream_of k) (log_all empty xs).streams) [] in
      let mine : entries_at k (log_all empty xs) ≡ map (entry_of dumps loads) (steps_of k xs) =
        log_all-entries_at xs k empty a ∙ keep-entry_of k xs in
      map-take (λ (x : EntryId × Entry). x.1) n log ∙ ap (take n) mine

  abbrev pub IsReadable : Payload J → Type 0
  IsReadable missing = Unit
  IsReadable (plain s) = loads s ≡ none
  IsReadable (json j) = Unit

  abbrev pub AreReadable : List (Step J) → Type 0
  AreReadable [] = Unit
  AreReadable (x ∷ xs) = IsReadable x.input × IsReadable x.output × AreReadable xs

  deserialized-serialized :
      (empty_raises : loads "" ≡ none) (reads_back : (j : J) → loads (dumps j) ≡ some j)
      → (p : Payload J) → IsReadable p
      → deserialized dumps loads (serialized dumps loads p) ≡ p
  unfolding deserialized serialized
  deserialized-serialized er rb missing r = refl
  deserialized-serialized er rb (plain s) r = ground (arith, r)
  deserialized-serialized er rb (json j) r = ground (arith, er, rb j, eq_iff (dumps j) "")

  deserialize_entry-entry_of :
      (empty_raises : loads "" ≡ none) (reads_back : (j : J) → loads (dumps j) ≡ some j)
      → (xs : List (Step J)) → AreReadable xs
      → map (deserialize_entry dumps loads) (map (entry_of dumps loads) xs) ≡ xs
  unfolding deserialize_entry entry_of
  deserialize_entry-entry_of er rb [] r = refl
  deserialize_entry-entry_of er rb (x ∷ xs) r = ground (
    arith,
    deserialized-serialized er rb x.input r.0,
    deserialized-serialized er rb x.output r.1,
    deserialize_entry-entry_of er rb xs r.2,
  )

  either :
      (b : Bool) (xs ys : List (Step J))
      → AreReadable xs
      → AreReadable ys
      → AreReadable (if b then xs else ys)
  either true xs ys h g = h
  either false xs ys h g = g

  steps_of-AreReadable :
      (k : String) (xs : List (Step J)) → AreReadable xs → AreReadable (steps_of k xs)
  unfolding keep
  steps_of-AreReadable k [] r = tt
  steps_of-AreReadable k (x ∷ xs) r =
      let ih = steps_of-AreReadable k xs r.2 in
      either (str_eq x.task_id k) (x ∷ steps_of k xs) (steps_of k xs) (r.0, r.1, ih) ih

  unfoldable pub last_checkpoint : List (Step J) → Option (Step J)
  last_checkpoint [] = none
  last_checkpoint (x ∷ xs) =
      let later = last_checkpoint xs in
      if is_some later then later else if str_eq x.status "checkpoint" then some x else none

  scan_lem :
      (c : Option Entry) (xs : List (Step J))
      → scan c (map (entry_of dumps loads) xs) ≡ (
          if is_some (last_checkpoint xs)
          then Option.map (entry_of dumps loads) (last_checkpoint xs)
          else c)
  unfolding scan last_checkpoint entry_of
  scan_lem c [] = refl
  scan_lem c (x ∷ xs) = ground (arith, scan_lem (some (entry_of dumps loads x)) xs, scan_lem c xs)

  scan-none :
      (xs : List (Step J))
      → scan none (map (entry_of dumps loads) xs)
        ≡ Option.map (entry_of dumps loads) (last_checkpoint xs)
  scan-none xs = ground (arith, scan_lem none xs)

  -- Of a task that is not called "all", the journal gives the steps that were logged for it, the
  -- oldest first and with what was put into them, up to the limit. It is assumed that `json.loads`
  -- fails on the empty text and reads back what `json.dumps` wrote, and that no text that was given
  -- as an input or output is itself JSON.
  pub get_task_journal-log_all :
      (empty_raises : loads "" ≡ none) (reads_back : (j : J) → loads (dumps j) ≡ some j)
      → (xs : List (Step J)) (k : String) (n : ℕ) → str_eq "all" k ≡ false
      → AreReadable xs
      → get_task_journal dumps loads k n (log_all empty xs) ≡ take n (steps_of k xs)
  unfolding get_task_journal
  get_task_journal-log_all er rb xs k n a r =
      let read = ap (map (deserialize_entry dumps loads)) (read_stream-log_all xs k n a) in
      let same = deserialize_entry-entry_of er rb (steps_of k xs) (steps_of-AreReadable k xs r) in
      read
      ∙ map-take (deserialize_entry dumps loads) n (map (entry_of dumps loads) (steps_of k xs))
      ∙ ap (take n) same

  take-AreReadable : (n : ℕ) (xs : List (Step J)) → AreReadable xs → AreReadable (take n xs)
  take-AreReadable zero xs r = tt
  take-AreReadable (suc n) [] r = tt
  take-AreReadable (suc n) (x ∷ xs) r = (r.0, r.1, take-AreReadable n xs r.2)

  last_checkpoint-readable :
      (empty_raises : loads "" ≡ none) (reads_back : (j : J) → loads (dumps j) ≡ some j)
      → (xs : List (Step J)) → AreReadable xs
      → Option.map
          (deserialize_entry dumps loads)
          (Option.map (entry_of dumps loads) (last_checkpoint xs))
        ≡ last_checkpoint xs
  unfolding last_checkpoint
  last_checkpoint-readable er rb [] r = refl
  last_checkpoint-readable er rb (x ∷ xs) r = ground (
    arith,
    last_checkpoint-readable er rb xs r.2,
    deserialize_entry-entry_of er rb (x ∷ []) (r.0, r.1, tt),
  )

  -- Under the same assumptions, the last checkpoint of a task is the latest of its steps with the
  -- status "checkpoint" among the first steps of the task, as many as are fetched at once; there is
  -- none when none of these is a checkpoint.
  pub get_last_checkpoint-log_all :
      (empty_raises : loads "" ≡ none) (reads_back : (j : J) → loads (dumps j) ≡ some j)
      → (xs : List (Step J)) (k : String) (max_bulk_fetch : ℕ) → str_eq "all" k ≡ false
      → AreReadable xs
      → get_last_checkpoint dumps loads max_bulk_fetch k (log_all empty xs)
        ≡ last_checkpoint (take max_bulk_fetch (steps_of k xs))
  unfolding get_last_checkpoint
  get_last_checkpoint-log_all er rb xs k n a r =
      let ys = take n (steps_of k xs) in
      let readable = take-AreReadable n (steps_of k xs) (steps_of-AreReadable k xs r) in
      let fetched =
        read_stream-log_all xs k n a ∙ sym (map-take (entry_of dumps loads) n (steps_of k xs)) in
      ap (λ es. Option.map (deserialize_entry dumps loads) (scan none es)) fetched
      ∙ ap (Option.map (deserialize_entry dumps loads)) (scan-none ys)
      ∙ last_checkpoint-readable er rb ys readable
