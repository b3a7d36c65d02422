-- ===== src/Web/Sse/Connection/Active.antt =====
-- The gauge cvgen.sse.active: what its callback observes while any number of connections come, go on
-- and end, their effects interleaved.
use corrupt_cv.Common.{
  zero, suc, sym, ℕ, ◌+◌, ◌-◌, ◌≡◌, refl, ap, ◌∙◌, Bool, true, false, List, [], ◌∷◌, ◌++◌, map,
  arith, All, All-middle, All-append, inl, inr, Bool-cases,
}
use mathlib.Core.Path.{subst}
use corrupt_cv.Events.{Codec}
use corrupt_cv.Store.Rows.{Job}
use corrupt_cv.Jetstream.Provision.{Request, ordered_job_consumer, delete_ordered_consumer}
use corrupt_cv.Web.Status.{is_terminal, status_rank}
use corrupt_cv.Web.Sse.{Signal, Frame, loop}
use corrupt_cv.Web.Sse.Connection.{
  Effect, count_stream, connect, disconnect, wrote, asked, stop_consuming, stop_heartbeat, World,
  answered, consuming, subscribing, writing, serve_events,
}

-- A run of the handler: how many of its effects are behind it, and those that are to come.
pub record Connection : Type 0 where
  pub behind : ℕ
  pub ahead : List Effect

-- The atomic counter `sseConnections`, and the connections.
pub record Streams : Type 0 where
  pub sse_connections : ℕ
  pub connections : List Connection

-- An effect on the counter: `Add(1)` and `Add(-1)`.
unfoldable pub adjust : Effect → ℕ → ℕ
adjust connect n = n + 1
adjust disconnect n = n - 1
adjust _ n = n

-- The callback of `newWebMetrics`.
unfoldable pub observe : Streams → ℕ
observe s = s.sse_connections

-- A connection comes, or one of those that there are has its next effect.
pub data Step : Streams → Streams → Type 0 where
  come :
      (codec : Codec) (world : World) (job : Job) (first_write : Bool) (ss : List Signal)
      (s : Streams)
      → Step s (record s {
        connections =
            record { behind = 0; ahead = serve_events codec world job first_write ss }
            ∷ s.connections;
      })
  go_on :
      (before : List Connection) (b : ℕ) (e : Effect) (es : List Effect) (after : List Connection)
      (s : Streams)
      → s.connections ≡ before ++ record { behind = b; ahead = e ∷ es } ∷ after
      → Step s (record {
        sse_connections = adjust e s.sse_connections;
        connections = before ++ record { behind = suc b; ahead = es } ∷ after;
      })

pub data Reach (s : Streams) : Streams → Type 0 where
  here : Reach s s
  next : {t u : Streams} → Reach s t → Step t u → Reach s u

-- 1 for a connection whose handler is behind the two counts that it begins with and has not
-- returned, and 0 for any other. What the effects are plays no part.
abbrev pub is_open : ℕ → List Effect → ℕ
is_open zero es = 0
is_open (suc zero) es = 0
is_open (suc (suc b)) [] = 0
is_open (suc (suc b)) (e ∷ es) = 1

-- How many connections are open.
abbrev pub open_streams : List Connection → ℕ
open_streams [] = 0
open_streams (c ∷ cs) = is_open c.behind c.ahead + open_streams cs

-- What is ahead counts out, and that last.
abbrev Ending : List Effect → Type 0
Ending [] = ⊥
Ending (connect ∷ es) = ⊥
Ending (disconnect ∷ es) = es ≡ []
Ending (_ ∷ es) = Ending es

-- At each point, the counts that are to come are those of a handler that counts itself in as its
-- second effect and out as its last.
abbrev Counts : ℕ → List Effect → Type 0
Counts zero (count_stream ∷ connect ∷ es) = Ending es
Counts zero _ = ⊥
Counts (suc zero) (connect ∷ es) = Ending es
Counts (suc zero) _ = ⊥
Counts (suc (suc b)) [] = Unit
Counts (suc (suc b)) (e ∷ es) = Ending (e ∷ es)

-- Neither in nor out.
abbrev IsInner : Effect → Type 0
IsInner connect = ⊥
IsInner disconnect = ⊥
IsInner _ = Unit

Ending-IsInner : (xs : List Effect) → All IsInner xs → Ending (xs ++ disconnect ∷ [])
Ending-IsInner [] _ = refl
Ending-IsInner (connect ∷ xs) (inner, later) = elim inner [ ]
Ending-IsInner (disconnect ∷ xs) (inner, later) = elim inner [ ]
Ending-IsInner (_ ∷ xs) (inner, later) = Ending-IsInner xs later

IsInner-asked :
    (answers : Request → Bool) (rs : List Request) → All IsInner (map (λ r. asked r (answers r)) rs)
IsInner-asked answers [] = tt
IsInner-asked answers (r ∷ rs) = (tt, IsInner-asked answers rs)

IsInner-wrote : (fs : List Frame) → All IsInner (map wrote fs)
IsInner-wrote [] = tt
IsInner-wrote (f ∷ fs) = (tt, IsInner-wrote fs)

module _ (codec : Codec) (world : World) (job : Job) where
  open world use {answers, name, starts}

  IsInner-consuming : (ss : List Signal) → All IsInner (consuming codec world job ss)
  IsInner-consuming ss = elim (Bool-cases starts) [
    | inl e ↦ rw e (
      tt,
      (
        tt,
        All-append IsInner _ (stop_heartbeat ∷ stop_consuming ∷ [])
            (IsInner-wrote (loop codec job.id (status_rank job.status) ss).frames) (tt, (tt, tt)),
      ),
    )
    | inr e ↦ rw e tt
  ]

  IsInner-subscribing : (ss : List Signal) → All IsInner (subscribing codec world job ss)
  IsInner-subscribing ss =
      All-append IsInner (answered answers (ordered_job_consumer answers job.id)) _
        (IsInner-asked answers _)
        (elim (Bool-cases (ordered_job_consumer answers job.id).0) [
          | inl e ↦ rw e (
              All-append IsInner (consuming codec world job ss) _ (IsInner-consuming ss)
                (IsInner-asked answers (delete_ordered_consumer answers name).1))
          | inr e ↦ rw e tt
        ])

  IsInner-writing :
      (first_write : Bool) (ss : List Signal) → All IsInner (writing codec world job first_write ss)
  IsInner-writing false ss = tt
  IsInner-writing true ss = elim (Bool-cases (is_terminal job.status)) [
    | inl e ↦ rw e (tt, tt)
    | inr e ↦ rw e (tt, IsInner-subscribing ss)
  ]

  Counts-serve_events :
      (first_write : Bool) (ss : List Signal)
      → Counts 0 (serve_events codec world job first_write ss)
  unfolding serve_events
  Counts-serve_events first_write ss =
      Ending-IsInner (writing codec world job first_write ss) (IsInner-writing first_write ss)

abbrev IsCounting : Connection → Type 0
IsCounting c = Counts c.behind c.ahead

-- The gauge fits the connections.
pub record IsCounted (s : Streams) : Type 0 where
  pub counted : observe s ≡ open_streams s.connections
  pub counting : All IsCounting s.connections

open_streams-middle :
    (before : List Connection) (c : Connection) (after : List Connection)
    → open_streams (before ++ c ∷ after) ≡ is_open c.behind c.ahead + open_streams (before ++ after)
open_streams-middle [] c after = refl
open_streams-middle (b ∷ before) c after = omega (arith, open_streams-middle before c after)

-- Behind the two counts, a handler that is still to count itself out is open.
Ending-open :
    (b : ℕ) (es : List Effect)
    → Ending es
    → Counts (suc (suc b)) es × (is_open (suc (suc b)) es ≡ 1)
Ending-open b [] ending = elim ending [ ]
Ending-open b (e ∷ es) ending = (ending, refl)

-- One effect moves the counter as it moves the connection.
Moved : ℕ → Effect → List Effect → Type 0
Moved b e es =
    Counts (suc b) es
    × ((others n : ℕ) → n ≡ is_open b (e ∷ es) + others → adjust e n ≡ is_open (suc b) es + others)

inner-Moved :
    (b : ℕ) (e : Effect) (es : List Effect)
    → ((n : ℕ) → adjust e n ≡ n)
    → Ending es
    → Moved (suc (suc b)) e es
unfolding Moved
inner-Moved b e es still ending =
    let (counts, one) = Ending-open (suc b) es ending in
    (counts, λ others n h. still n ∙ omega (arith, h, one))

Counts-Moved : (b : ℕ) (e : Effect) (es : List Effect) → Counts b (e ∷ es) → Moved b e es
unfolding Moved adjust
Counts-Moved zero count_stream (connect ∷ es) c = (c, λ others n h. h)
Counts-Moved (suc zero) connect es c =
    let (counts, one) = Ending-open 0 es c in (counts, λ others n h. omega (arith, h, one))
Counts-Moved (suc (suc b)) connect es c = elim c [ ]
Counts-Moved (suc (suc b)) disconnect [] c = (tt, λ others n h. omega (arith, h))
Counts-Moved (suc (suc b)) disconnect (e ∷ es) c = absurd (ground arith)
Counts-Moved (suc (suc b)) e es c = inner-Moved b e es (λ n. refl) c
Counts-Moved _ e es c = elim c [ ]

Step-IsCounted : {s t : Streams} → Step s t → IsCounted s → IsCounted t
unfolding observe Moved
Step-IsCounted (come codec world job first_write ss s) h = record {
  counted = omega (arith, h.counted);
  counting = (Counts-serve_events codec world job first_write ss, h.counting);
}
Step-IsCounted (go_on before b e es after s split) h =
    let (counts, put_in) =
      All-middle IsCounting before (record { behind = b; ahead = e ∷ es }) after
        (subst (All IsCounting) split h.counting) in
    let (later, moves) = Counts-Moved b e es counts in
    let others = open_streams (before ++ after) in
    record {
      counted =
          moves others s.sse_connections (
            h.counted
            ∙ ap open_streams split
            ∙ open_streams-middle before (record { behind = b; ahead = e ∷ es }) after)
          ∙ sym (open_streams-middle before (record { behind = suc b; ahead = es }) after);
      counting = put_in (record { behind = suc b; ahead = es }) later;
    }

Reach-IsCounted : {s t : Streams} → Reach s t → IsCounted s → IsCounted t
Reach-IsCounted here h = h
Reach-IsCounted (next r step) h = Step-IsCounted step (Reach-IsCounted r h)

-- However any number of connections are interleaved, from none on and effect by effect, the value that
-- the gauge's callback observes is the number of the connections whose handlers are behind the two
-- counts that they begin with and have not returned.
pub observe-open_streams :
    (s : Streams)
    → Reach (record { sse_connections = 0; connections = [] }) s
    → observe s ≡ open_streams s.connections
unfolding observe
observe-open_streams s reached =
    (Reach-IsCounted reached (record { counted = refl; counting = tt })).counted
