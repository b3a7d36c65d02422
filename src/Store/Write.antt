-- ===== src/Store/Write.antt =====
-- Every statement of store.go that writes, as a value, and sequences of them: what any number of
-- gateway replicas and handlers do to the tables, in the order in which the database runs them.
use corrupt_cv.Common.{ℕ, List, [], ◌∷◌, Text}
use corrupt_cv.Store.Rows.{Db}
use corrupt_cv.Store.Query.{
  Link, upsert_profile, create_job, mark_rendering, mark_completed, mark_failed_processing,
  mark_failed, sweep_stuck,
}

pub data Write : Type 0 where
  save_profile : (fresh visitor career info : Text) → Write
  create : (fresh visitor profile description model : Text) → Write
  render : (id cv : Text) → Write
  complete : (id key : Text) → Write
  fail_processing : (id error : Text) → Write
  fail : (id error : Text) → Write
  sweep : (older_than : ℕ) → Write

-- The tables after a write at time `now`.
unfoldable pub apply : Link → ℕ → Write → Db → Db
unfolding upsert_profile create_job mark_rendering mark_completed mark_failed_processing mark_failed
    sweep_stuck
apply link now (save_profile fresh visitor career info) db =
    (upsert_profile link now fresh visitor career info db).1
apply link now (create fresh visitor profile description model) db =
    (create_job link now fresh visitor profile description model db).1
apply link now (render id cv) db = (mark_rendering link now id cv db).1
apply link now (complete id key) db = (mark_completed link now id key db).1
apply link now (fail_processing id error) db = (mark_failed_processing link now id error db).1
apply link now (fail id error) db = (mark_failed link now id error db).1
apply link now (sweep older_than) db = (sweep_stuck link now older_than db).1

unfoldable pub run : List (Link × ℕ × Write) → Db → Db
run [] db = db
run ((link, now, w) ∷ ws) db = run ws (apply link now w db)
