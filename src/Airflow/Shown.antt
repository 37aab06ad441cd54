-- ===== src/Airflow/Shown.antt =====
-- Whose log is shown for a run.
use orchestronic_be.Base.{
  ℕ, String, none, some, List, [], ◌∷◌, ◌++◌, ◌≡◌, ◌⊎◌, inl, inr, refl, arith, Bool, true, false,
  ◌===◌, or_else, All, Bool-cases, ap,
}
use orchestronic_be.Effects.Calls.{Call, AirflowCall, History}
use orchestronic_be.Effects.Monad.{returned}
use orchestronic_be.Airflow.{
  AirflowReads, TaskInstance, answered, find_state, last_task, target_task, logs, get_pipeline_logs,
  get_task_instances, get_task_logs,
}

abbrev pub has_state : String → TaskInstance → Bool
has_state state t = or_else t.state "" === state

-- No task of the list has the state.
abbrev pub NoneIn : String → List TaskInstance → Type 0
NoneIn state ts = All (λ t. has_state state t ≡ false) ts

-- The first task of the list with the state.
pub record FirstIn (state : String) (ts : List TaskInstance) (t : TaskInstance) : Type 0 where
  pub earlier : List TaskInstance
  pub later : List TaskInstance
  pub parts : ts ≡ earlier ++ t ∷ later
  pub has : has_state state t ≡ true
  pub skipped : NoneIn state earlier

pub record LastIn (ts : List TaskInstance) (t : TaskInstance) : Type 0 where
  pub earlier : List TaskInstance
  pub parts : ts ≡ earlier ++ t ∷ []

-- The task that is shown: the first that failed, else the first that runs, else the first that is
-- queued, else the last.
pub data Shown (ts : List TaskInstance) (t : TaskInstance) : Type 0 where
  failed : FirstIn "failed" ts t → Shown ts t
  running : NoneIn "failed" ts → FirstIn "running" ts t → Shown ts t
  queued : NoneIn "failed" ts → NoneIn "running" ts → FirstIn "queued" ts t → Shown ts t
  last : NoneIn "failed" ts → NoneIn "running" ts → NoneIn "queued" ts → LastIn ts t → Shown ts t

find_state-cases :
    (state : String) (ts : List TaskInstance)
    → ((find_state state ts ≡ none) × NoneIn state ts)
      ⊎ ((t : TaskInstance) × (find_state state ts ≡ some t) × FirstIn state ts t)
unfolding find_state
find_state-cases state [] = inl (refl, tt)
find_state-cases state (t ∷ ts) = elim (Bool-cases (has_state state t)) [
  | inl here ↦
      inr (
        t,
        rw here refl,
        record { earlier = []; later = ts; parts = refl; has = here; skipped = tt },
      )
  | inr other ↦ elim (find_state-cases state ts) [
    | inl (q, nobody) ↦ inl (rw other q, (other, nobody))
    | inr (u, q, f) ↦ inr (
      u,
      rw other q,
      record {
        earlier = t ∷ f.earlier;
        later = f.later;
        parts = ap (λ xs. t ∷ xs) f.parts;
        has = f.has;
        skipped = (other, f.skipped);
      },
    )
  ]
]

last_task-LastIn : (t : TaskInstance) (ts : List TaskInstance) → LastIn (t ∷ ts) (last_task t ts)
unfolding last_task
last_task-LastIn t [] = record { earlier = []; parts = refl }
last_task-LastIn t (u ∷ us) =
    let l = last_task-LastIn u us in
    record { earlier = t ∷ l.earlier; parts = ap (λ xs. t ∷ xs) l.parts }

target_task-Shown : (t : TaskInstance) (ts : List TaskInstance) → Shown (t ∷ ts) (target_task t ts)
unfolding target_task
target_task-Shown t ts = elim (find_state-cases "failed" (t ∷ ts)) [
  | inr (u, q, f) ↦ rw q (failed f)
  | inl (q, no_failed) ↦ elim (find_state-cases "running" (t ∷ ts)) [
    | inr (u, q', f) ↦ rw (q, q') (running no_failed f)
    | inl (q', no_running) ↦ elim (find_state-cases "queued" (t ∷ ts)) [
      | inr (u, q'', f) ↦ rw (q, q', q'') (queued no_failed no_running f)
      | inl (q'', no_queued) ↦
          rw (q, q', q'') (last no_failed no_running no_queued (last_task-LastIn t ts))
    ]
  ]
]

get_task_logs-text :
    (api : AirflowReads) (dag run task : String) (n : ℕ) (h : History)
    → (text : String) × ((get_task_logs api dag run task n h).0 ≡ returned text)
unfolding get_task_logs
get_task_logs-text api dag run task n h = (_, refl)

-- For a run whose tasks Airflow gives, the route answers, whether or not the log can be read, with a
-- text and the id of one task: the first that failed, else the first that runs, else the first that
-- is queued, else the last.
pub get_pipeline_logs-Shown :
    (api : AirflowReads) (dag run : String) (h : History) (t : TaskInstance)
    (ts : List TaskInstance)
    → api.tasks dag run h ≡ answered (some (t ∷ ts))
    → (shown : TaskInstance) × (text : String) × ((get_pipeline_logs api dag run h).0
        ≡ returned (logs text shown.task_id))
      × Shown (t ∷ ts) shown
unfolding get_pipeline_logs get_task_instances
get_pipeline_logs-Shown api dag run h t ts e =
    let (text, q) =
      get_task_logs-text api dag run (target_task t ts).task_id 1
        (Call.airflow (AirflowCall.get_tasks dag run) ∷ h) in
    (target_task t ts, text, ground arith, target_task-Shown t ts)
