-- ===== src/Thread/Tests.antt =====
-- A thread that is joined, one that is not, and a second start.
use netfish.Prelude.{
  ◌+◌, ◌≤◌, ◌≡◌, refl, List, [], ◌∷◌, none, some, true, ok, err, assertion_failed, fatal,
}
use netfish.Thread.{Thread, current_tid, new, start, run_in_thread, join, destroy}
use netfish.Thread.Lifetime.{Call, starts, runs, joins, perform, perform_all, joined_or_detached}

cached : (current_tid 0 7 ≡ (7, 7)) × (current_tid 7 9 ≡ (7, 7))
unfolding current_tid
cached = (refl, refl)

no_thread : start none new ≡ err fatal
unfolding start new
no_thread = refl

abbrev once : List Call
once = starts (some 40) ∷ runs 7 ∷ joins ∷ []

abbrev finished : Thread
finished = record {
  tid = 7;
  started = true;
  joined = true;
  pthread_id = 40;
  creates = 1;
  joins = 1;
  detaches = 0;
}

one_life : perform_all once new ≡ ok finished
unfolding perform_all perform start run_in_thread join new
one_life = refl

joined_twice : perform_all (starts (some 40) ∷ joins ∷ joins ∷ []) new ≡ err assertion_failed
unfolding perform_all perform start join new
joined_twice = refl

joined_or_detached_example :
    ((destroy finished).creates ≡ (destroy finished).joins + (destroy finished).detaches)
    × ((destroy finished).creates ≤ 1)
joined_or_detached_example = joined_or_detached once finished one_life
