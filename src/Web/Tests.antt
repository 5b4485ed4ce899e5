-- ===== src/Web/Tests.antt =====
-- A run of the client on three files, two at a time, and the theorems at it.
use unix_network_programming.Prelude.{
  ℕ, ◌+◌, ◌≡◌, refl, true, List, [], ◌∷◌, arith, ◌==◌, if◌then◌else◌,
}
use unix_network_programming.Web.{
  in_progress, connected, some_bytes, end_of_file, Round, Outcome, running, first_idle,
  write_get_cmd, connect_started, open_found, open_all, file_read, check_file, check_entry,
  check_files, step, run, start,
}
use unix_network_programming.Web.Turns.{KeepsCounts, start-IsCounted, run-start-KeepsCounts}
use unix_network_programming.Web.Full.{Fills, open_all-Fills}

abbrev all_ready : Round
all_ready = record {
  socket = λ i. 3 + i;
  connect = λ i. if i == 1 then connected else in_progress;
  rs = λ fd. true;
  ws = λ fd. true;
  read = λ fd. if fd == 4 then some_bytes else end_of_file;
  write = λ fd. true;
}

abbrev gets_of : Outcome → List ℕ
gets_of (running s) = s.gets
gets_of _ = []

-- The second connects at once; the third waits until the first is done.
three_gets : gets_of (run 2 (start 3) (all_ready ∷ all_ready ∷ all_ready ∷ [])) ≡ 4 ∷ 3 ∷ 5 ∷ []
unfolding run start step open_all open_found first_idle connect_started write_get_cmd check_files
    check_entry check_file file_read
three_gets = refl

run-start-KeepsCounts_example : KeepsCounts 2 3 (run 2 (start 3) (all_ready ∷ all_ready ∷ []))
run-start-KeepsCounts_example = run-start-KeepsCounts 2 3 (all_ready ∷ all_ready ∷ [])

open_all-Fills_example : Fills 2 3 all_ready (start 3) (open_all all_ready 2 3 (start 3))
unfolding start
open_all-Fills_example =
    open_all-Fills 2 3 all_ready 3 (start 3) (start-IsCounted 2 3) (omega arith)
