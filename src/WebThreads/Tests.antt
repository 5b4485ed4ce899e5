-- ===== src/WebThreads/Tests.antt =====
-- A run of main() and two threads, the theorems at it, and the run on to where nothing goes on.
use unix_network_programming.Prelude.{ℕ, refl, inl, List, [], ◌∷◌, arith}
use unix_network_programming.WebThreads.{
  File, idle, reading, done, counted, joined, Place, opening, scanning, Web, first_idle, read_all,
  count_done, open_file, wake, join, Reach, here, next, start,
}
use unix_network_programming.WebThreads.Counted.{Counts, Reach-Counts}
use unix_network_programming.WebThreads.Joining.{IsJoining, Reach-IsJoining}

abbrev web_with : List File → ℕ → ℕ → ℕ → ℕ → Place → Web
web_with file nconn nlefttoconn nlefttoread ndone place = record {
  file = file;
  nconn = nconn;
  nlefttoconn = nlefttoconn;
  nlefttoread = nlefttoread;
  ndone = ndone;
  place = place;
}

both_open : Reach 2 (start 2) (web_with (reading ∷ reading ∷ []) 2 0 2 0 opening)
unfolding first_idle
both_open =
    next (next here (open_file (start 2) 0 refl (omega arith) (omega arith) (omega arith) refl)) (
      open_file (web_with (reading ∷ idle ∷ []) 1 1 2 0 opening) 1 refl (omega arith) (omega arith)
        (omega arith) refl)

-- The first thread is done and has counted itself, and the second has only set F_DONE.
one_counted : Reach 2 (start 2) (web_with (counted ∷ done ∷ []) 2 0 2 1 opening)
one_counted =
    next
      (next (next both_open (read_all (web_with (reading ∷ reading ∷ []) 2 0 2 0 opening) 0 refl))
        (count_done (web_with (done ∷ reading ∷ []) 2 0 2 0 opening) 0 refl tt))
      (read_all (web_with (counted ∷ reading ∷ []) 2 0 2 1 opening) 1 refl)

-- main() joins the first, and then waits for the second.
deadlock : Reach 2 (start 2) (web_with (joined ∷ done ∷ []) 1 0 1 0 (scanning 1))
deadlock =
    next
      (next one_counted (
        wake (web_with (counted ∷ done ∷ []) 2 0 2 1 opening) refl (omega arith) (inl (omega arith))
          (omega arith)))
      (join (web_with (counted ∷ done ∷ []) 2 0 2 1 (scanning 0)) 0 refl refl)

Reach-Counts_example : Counts 2 2 (web_with (joined ∷ done ∷ []) 1 0 1 0 (scanning 1))
Reach-Counts_example = Reach-Counts 2 deadlock

-- A third thread ends its work meanwhile.
Reach-IsJoining_example : IsJoining 1 (web_with (joined ∷ done ∷ done ∷ []) 2 0 2 0 (scanning 1))
Reach-IsJoining_example =
    Reach-IsJoining 3 1 (web_with (joined ∷ done ∷ reading ∷ []) 2 0 2 0 (scanning 1)) (refl, refl)
      (next here (read_all (web_with (joined ∷ done ∷ reading ∷ []) 2 0 2 0 (scanning 1)) 2 refl))
