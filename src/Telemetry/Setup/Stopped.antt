-- ===== src/Telemetry/Setup/Stopped.antt =====
-- What is started is stopped.
use corrupt_cv.Common.{
  ◌≡◌, refl, Bool, true, false, List, [], ◌∷◌, ◌++◌, Option, none, some, Bool-cases, inl, inr,
  if◌then◌else◌,
}
use corrupt_cv.Telemetry.Setup.{
  Provider, traces, metrics, logs, Step, started, installed, stopped, propagator, Sdk, enabled,
  new_resource, shutdown, Outcome, setup,
}

abbrev same : Provider → Provider → Bool
same traces traces = true
same metrics metrics = true
same logs logs = true
same _ _ = false

abbrev pop : Provider → Option (List Provider) → Option (List Provider)
pop p (some (q ∷ running)) = if same p q then some running else none
pop p _ = none

abbrev push : Provider → Option (List Provider) → Option (List Provider)
push p none = none
push p (some running) = some (p ∷ running)

-- The providers that run after some steps, the latest first. A provider that is stopped while a
-- later one runs, or while it does not run, makes it `none`.
abbrev pub replay : Option (List Provider) → List Step → Option (List Provider)
replay running [] = running
replay running (started p ∷ steps) = replay (push p running) steps
replay running (installed p ∷ steps) = replay running steps
replay running (stopped p ∷ steps) = replay (pop p running) steps
replay running (propagator ∷ steps) = replay running steps

-- After an error nothing runs; else nothing runs once the returned function was called.
abbrev pub IsStopped : Sdk → Outcome → Type 0
IsStopped sdk (none, steps) = replay (some []) steps ≡ some []
IsStopped sdk (some ps, steps) = replay (some []) (steps ++ (shutdown sdk ps).1) ≡ some []

-- Whichever exporter fails, `Setup` leaves no provider running, and when it succeeds its shutdown
-- leaves none, whatever errors occur on the way; each is stopped once and before those that were
-- started earlier. So of the three providers the one for logs is stopped first.
pub setup-IsStopped :
    (sdk : Sdk)
    → IsStopped sdk (setup sdk)
      × ((shutdown sdk (traces ∷ metrics ∷ logs ∷ [])).1
          ≡ stopped logs ∷ stopped metrics ∷ stopped traces ∷ [])
unfolding setup shutdown
setup-IsStopped sdk = (
  elim (Bool-cases (enabled sdk)) [
    | inr off ↦ rw off refl
    | inl on ↦ rw on (elim (Bool-cases (new_resource sdk)) [
      | inr bad ↦ rw bad refl
      | inl fine ↦ rw fine (elim (Bool-cases (sdk.exporter_ok traces)) [
        | inr e ↦ rw e refl
        | inl e ↦ rw e (elim (Bool-cases (sdk.exporter_ok metrics)) [
          | inr d ↦ rw d refl
          | inl d ↦
              rw d
                (elim (Bool-cases (sdk.exporter_ok logs)) [ inr c ↦ rw c refl | inl c ↦ rw c refl ])
        ])
      ])
    ])
  ],
  refl,
)
