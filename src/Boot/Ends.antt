-- ===== src/Boot/Ends.antt =====
-- Where what `run` does leads to, and how that goes with its `defer`s and its returns.
use corrupt_cv.Common.{
  ◌≡◌, ◌⊎◌, refl, ap, ◌∙◌, Bool, true, false, ◌&&◌, List, some, inl, inr, Bool-cases, if◌then◌else◌,
}
use corrupt_cv.Boot.{Act, signalled, Calls, Run, does, deferred}
use corrupt_cv.Boot.Machine.{State, then_replay, replay, state, replay-append}

-- Where acts lead: to these connections, that to NATS unless it was drained, without a runner; whether nil is returned, and what that
-- means.
pub record Ends (calls : Calls) (s : State) (postgres valkey nats fine : Bool) (out : Run)
    : Type 0 where
  pub undrained : Bool
  pub provisioned : Bool
  pub app : Bool
  pub ops : Bool
  pub accepted :
      replay out.1 s
      ≡ some (state postgres valkey (nats && undrained) provisioned false false app ops)
  pub result : out.0 ≡ fine
  pub means :
      (out.0 ≡ false)
      ⊎ ((calls.awaited ≡ signalled) × (provisioned ≡ true) × (app ≡ false) × (ops ≡ false))

still : (b : Bool) → b ≡ b && true
still true = refl
still false = refl

module _ {calls : Calls} where
  pub does-Ends :
      (acts : List Act) (out : Run) {s t : State} {p v n fine : Bool}
      → replay acts s ≡ some t
      → Ends calls t p v n fine out
      → Ends calls s p v n fine (does acts out)
  unfolding does
  does-Ends acts out {s} {t} {p} {v} {n} {fine} first ends = record {
    undrained = ends.undrained;
    provisioned = ends.provisioned;
    app = ends.app;
    ops = ends.ops;
    accepted = replay-append acts out.1 s ∙ ap (then_replay (replay out.1)) first ∙ ends.accepted;
    result = ends.result;
    means = ends.means;
  }

  pub deferred-Ends :
      (acts : List Act) (out : Run) {s : State} {p v n p' v' n' fine : Bool}
      → ((undrained provisioned app ops : Bool)
          → replay acts (state p v (n && undrained) provisioned false false app ops)
            ≡ some (state p' v' (n' && undrained) provisioned false false app ops))
      → Ends calls s p v n fine out
      → Ends calls s p' v' n' fine (deferred acts out)
  unfolding deferred
  deferred-Ends acts out {s} {p} {v} {n} {p'} {v'} {n'} {fine} last ends = record {
    undrained = ends.undrained;
    provisioned = ends.provisioned;
    app = ends.app;
    ops = ends.ops;
    accepted =
        replay-append out.1 acts s
        ∙ ap (then_replay (replay acts)) ends.accepted
        ∙ last ends.undrained ends.provisioned ends.app ends.ops;
    result = ends.result;
    means = ends.means;
  }

  pub if-Ends :
      (good : Bool) (out out' : Run) {s : State} {p v n fine : Bool}
      → Ends calls s p v n fine out
      → Ends calls s p v n false out'
      → Ends calls s p v n (good && fine) (if good then out else out')
  if-Ends good out out' yes_out no_out = elim (Bool-cases good) [
    | inl e ↦ rw e yes_out
    | inr e ↦ rw e no_out
  ]

  -- A way out with an error.
  pub error-Ends :
      {acts : List Act} {s : State} {p v n provisioned app ops : Bool}
      → replay acts s ≡ some (state p v n provisioned false false app ops)
      → Ends calls s p v n false (false, acts)
  error-Ends {acts} {s} {p} {v} {n} {provisioned} {app} {ops} accepted = record {
    undrained = true;
    provisioned = provisioned;
    app = app;
    ops = ops;
    accepted = accepted ∙ ap (λ b. some (state p v b provisioned false false app ops)) (still n);
    result = refl;
    means = inl refl;
  }
