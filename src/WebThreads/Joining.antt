-- ===== src/WebThreads/Joining.antt =====
-- main() waits for a thread that waits for main().
use unix_network_programming.Prelude.{
  ℕ, ◌≡◌, ◌≢◌, ap, sym, ◌∙◌, subst, true, false, some, some_inj, List, arith, get_elem?,
  get_elem?-set_ne,
}
use unix_network_programming.Prelude.FdSet.{get_elem?-lt}
use unix_network_programming.WebThreads.{
  File, reading, done, counted, scanning, Web, is_done, IsFree, Step, read_all, count_done,
  open_file, nothing_found, wake, skip, join, unlock, leave, Reach, here, next,
}

-- main() holds `ndone_mutex` and is in Pthread_join() for file[i], whose thread has set F_DONE but has not
-- yet taken the mutex to count itself.
abbrev pub IsJoining : ℕ → Web → Type 0
IsJoining i s = (s.place ≡ scanning i) × (get_elem? s.file i ≡ some done)

scanning_inj : {i j : ℕ} → scanning i ≡ scanning j → i ≡ j
scanning_inj h = cc

not_counted : done ≡ counted → ⊥
not_counted h = cc

not_reading : done ≡ reading → ⊥
not_reading h = cc

not_passed : {f : File} → done ≡ f → is_done f ≡ false → ⊥
not_passed {f} h x = yes (subst (λ f. is_done f ≡ false) (sym h) x)
  where
    yes : true ≡ false → ⊥
    yes e = cc

apart :
    (fs : List File) (i j : ℕ) → get_elem? fs i ≡ some done → get_elem? fs j ≡ some reading → j ≢ i
apart fs i j g h e = not_reading (some_inj (sym g ∙ ap (get_elem? fs) (sym e) ∙ h))

Step-IsJoining : {m i : ℕ} {s t : Web} → IsJoining i s → Step m s t → IsJoining i t
Step-IsJoining {m} {i} (p, g) (read_all s j h) =
    (p, get_elem?-set_ne s.file done (apart s.file i j g h) ∙ g)
Step-IsJoining {m} {i} (p, g) (count_done s j h f) = absurd (subst IsFree p f)
Step-IsJoining {m} {i} (p, g) (open_file s j q l k z h) = cc
Step-IsJoining {m} {i} (p, g) (nothing_found s q l k z h) = cc
Step-IsJoining {m} {i} (p, g) (wake s q l k z) = cc
Step-IsJoining {m} {i} (p, g) (skip s j f q h x) =
    absurd (not_passed (some_inj (sym g ∙ ap (get_elem? s.file) (scanning_inj (sym p ∙ q)) ∙ h)) x)
Step-IsJoining {m} {i} (p, g) (join s j q h) =
    absurd (not_counted (some_inj (sym g ∙ ap (get_elem? s.file) (scanning_inj (sym p ∙ q)) ∙ h)))
Step-IsJoining {m} {i} (p, g) (unlock s j q e) =
    absurd (omega (arith, e, scanning_inj (sym p ∙ q), get_elem?-lt s.file i done g))
Step-IsJoining {m} {i} (p, g) (leave s q h) = cc

-- When main() joins a thread that has set F_DONE but has not counted itself, no step of any thread frees
-- it: in every state that is reached from there main() is in the same Pthread_join(), with the mutex
-- that the thread waits for.
pub Reach-IsJoining : (m i : ℕ) (s : Web) {t : Web} → IsJoining i s → Reach m s t → IsJoining i t
Reach-IsJoining m i s p here = p
Reach-IsJoining m i s p (next r t) = Step-IsJoining (Reach-IsJoining m i s p r) t
