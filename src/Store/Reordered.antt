-- ===== src/Store/Reordered.antt =====
-- A table has no order: the rows of `jobs` may lie in any.
pub mod Answers
use corrupt_cv.Common.{
  ℕ, ◌≡◌, ◌≢◌, refl, sym, ap, ◌∙◌, Bool, true, false, List, [], ◌∷◌, Option, some, arith, Text, All,
  find, select, take, leb, text_eq, text_eq_iff, inl, inr, Bool-cases, if◌then◌else◌,
}
use mathlib.Core.Path.{subst}
use corrupt_cv.Common.Int.{ℤ}
use corrupt_cv.Store.Rows.{Job, Db}
use corrupt_cv.Store.Query.{
  Link, ok, up, refused, lost, exec, or_not_found, update_where, get_job, list_jobs,
  limit_or_default, insert_newest, newest_first, is_job_of, is_pending_job, is_live_job, is_stuck,
  as_rendering, as_completed, as_failed,
}
use corrupt_cv.Store.Write.{
  Write, save_profile, create, render, complete, fail_processing, fail, sweep, apply, run,
}

-- Two neighbours change places.
pub data Swap {ℓ} {A : Type ℓ} : List A → List A → Type ℓ where
  head : (a b : A) (l : List A) → Swap (a ∷ b ∷ l) (b ∷ a ∷ l)
  tail : (a : A) {l m : List A} → Swap l m → Swap (a ∷ l) (a ∷ m)

-- The same rows in another order.
pub data Reorder {ℓ} {A : Type ℓ} (l : List A) : List A → Type ℓ where
  same : Reorder l l
  next : {m n : List A} → Reorder l m → Swap m n → Reorder l n

-- What an update does to the rows, it does in any order.
Swap-update_where {ℓ} :
    {A : Type ℓ} (guard : A → Bool) (change : A → A) {l m : List A}
    → Swap l m
    → Swap (update_where guard change l) (update_where guard change m)
unfolding update_where
Swap-update_where guard change (head a b l) = head _ _ _
Swap-update_where guard change (tail a s) = tail _ (Swap-update_where guard change s)

abbrev at : Db → List Job → Db
at db js = record db { jobs = js }

-- A query on two orders.
Swap-exec {ℓ} :
    {A : Type ℓ} (link : Link) (query : Db → A × Db) (db : Db) {l m : List Job}
    → Swap l m
    → Swap (query (at db l)).1.jobs (query (at db m)).1.jobs
    → Swap (exec link query (at db l)).1.jobs (exec link query (at db m)).1.jobs
unfolding exec
Swap-exec up query db before after = after
Swap-exec refused query db before after = before
Swap-exec lost query db before after = after

Swap-apply :
    (link : Link) (now : ℕ) (w : Write) (db : Db) {l m : List Job}
    → Swap l m
    → Swap (apply link now w (at db l)).jobs (apply link now w (at db m)).jobs
unfolding apply
Swap-apply link now (save_profile fresh visitor career info) db s = Swap-exec link _ db s s
Swap-apply link now (create fresh visitor profile description model) db s =
    Swap-exec link _ db s (tail _ s)
Swap-apply link now (render id cv) db s =
    Swap-exec link _ db s (Swap-update_where (is_pending_job id) (as_rendering now cv) s)
Swap-apply link now (complete id key) db s =
    Swap-exec link _ db s (Swap-update_where (is_live_job id) (as_completed now key) s)
Swap-apply link now (fail_processing id error) db s =
    Swap-exec link _ db s (Swap-update_where (is_pending_job id) (as_failed now error) s)
Swap-apply link now (fail id error) db s =
    Swap-exec link _ db s (Swap-update_where (is_live_job id) (as_failed now error) s)
Swap-apply link now (sweep older_than) db s =
    Swap-exec link _ db s (Swap-update_where (is_stuck now older_than) (as_failed now _) s)

profiles-exec {ℓ} :
    {A : Type ℓ} (link : Link) (query : Db → A × Db) (db : Db) (l m : List Job)
    → (query (at db l)).1.profiles ≡ (query (at db m)).1.profiles
    → (exec link query (at db l)).1.profiles ≡ (exec link query (at db m)).1.profiles
unfolding exec
profiles-exec up query db l m e = e
profiles-exec refused query db l m e = refl
profiles-exec lost query db l m e = e

profiles-apply :
    (link : Link) (now : ℕ) (w : Write) (db : Db) (l m : List Job)
    → (apply link now w (at db l)).profiles ≡ (apply link now w (at db m)).profiles
unfolding apply
profiles-apply link now (save_profile fresh visitor career info) db l m =
    profiles-exec link _ db l m refl
profiles-apply link now (create fresh visitor profile description model) db l m =
    profiles-exec link _ db l m refl
profiles-apply link now (render id cv) db l m = profiles-exec link _ db l m refl
profiles-apply link now (complete id key) db l m = profiles-exec link _ db l m refl
profiles-apply link now (fail_processing id error) db l m = profiles-exec link _ db l m refl
profiles-apply link now (fail id error) db l m = profiles-exec link _ db l m refl
profiles-apply link now (sweep older_than) db l m = profiles-exec link _ db l m refl

run-Swap :
    (ws : List (Link × ℕ × Write)) (x y : Db)
    → x.profiles ≡ y.profiles
    → Swap x.jobs y.jobs
    → Swap (run ws x).jobs (run ws y).jobs
unfolding run
run-Swap [] x y e s = s
run-Swap ((link, now, w) ∷ ws) x y e s =
    let put_back : at x y.jobs ≡ y = λ i. record { profiles = e i; jobs = y.jobs } in
    run-Swap ws (apply link now w x) (apply link now w y)
      (profiles-apply link now w x x.jobs y.jobs
        ∙ ap (λ (db : Db). (apply link now w db).profiles) put_back)
      (subst (λ (db : Db). Swap (apply link now w x).jobs (apply link now w db).jobs) put_back
        (Swap-apply link now w x s))

pub run-Reorder :
    (ws : List (Link × ℕ × Write)) (db : Db) {m : List Job}
    → Reorder db.jobs m
    → Reorder (run ws db).jobs (run ws (at db m)).jobs
run-Reorder ws db same = same
run-Reorder ws db (next r s) = next (run-Reorder ws db r) (run-Swap ws (at db _) (at db _) refl s)
