-- ===== src/Web/Turns.antt =====
-- Turns of the client: the counters stay right, and "nothing found" never happens.
use unix_network_programming.Prelude.{
  ℕ, zero, suc, ◌+◌, ◌-◌, ◌≤◌, ◌<◌, ◌≡◌, refl, ap, sym, ◌∙◌, subst, Bool, true, false, ◌&&◌, ◌||◌,
  some, List, [], ◌∷◌, arith, ltb, if◌then◌else◌, get_elem?, set, length, length-set,
  length-replicate, drop-suc,
}
use unix_network_programming.Prelude.FdSet.{FdSet, fd_clr}
use unix_network_programming.Web.{
  Flags, idle, connecting, reading, finished, File, Connect, in_progress, connected, refused, Input,
  some_bytes, end_of_file, failed, Round, Client, Outcome, running, nothing_found, died, fault,
  ◌>>=◌, asked, is_idle, first_idle, write_get_cmd, connect_started, start_connect, open_found,
  open_all, file_read, check_file, check_entry, check_files, step, run, start,
}
use unix_network_programming.Web.Counts.{
  is_active, is_unfinished, count, count-replicate, count-set_flags, first_idle-found, IsCounted,
}

module _ (m n : ℕ) where
  -- The counters are right behind an outcome, or the client has exited on an error of a call.
  abbrev pub KeepsCounts : Outcome → Type 0
  KeepsCounts (running s) = IsCounted m n s
  KeepsCounts nothing_found = ⊥
  KeepsCounts died = Unit
  KeepsCounts fault = ⊥

  >>=-KeepsCounts :
      (o : Outcome) (f : Client → Outcome)
      → KeepsCounts o
      → ((s : Client) → IsCounted m n s → KeepsCounts (f s))
      → KeepsCounts (o >>= f)
  >>=-KeepsCounts (running s) f h k = k s h
  >>=-KeepsCounts nothing_found f h k = h
  >>=-KeepsCounts died f h k = h
  >>=-KeepsCounts fault f h k = h

  -- An idle file gets a connection: its new flags are `new`.
  opened-IsCounted :
      (s t : Client) (i : ℕ) (f g : File)
      → IsCounted m n s
      → get_elem? s.file i ≡ some f
      → f.f_flags ≡ idle
      → is_active g.f_flags ≡ true
      → is_idle g.f_flags ≡ false
      → is_unfinished g.f_flags ≡ true
      → s.nconn < m
      → t.file ≡ set s.file i g
      → t.nconn ≡ s.nconn + 1
      → t.nlefttoconn ≡ s.nlefttoconn - 1
      → t.nlefttoread ≡ s.nlefttoread
      → IsCounted m n t
  opened-IsCounted s t i f g v h e a b c room tf tc tl tr = record {
    files = ap length tf ∙ length-set s.file i g ∙ v.files;
    conn =
        tc
        ∙ ground (
          arith,
          v.conn,
          count-set_flags is_active s.file i f g idle h e,
          ap (count is_active) tf,
        );
    lefttoconn =
        tl
        ∙ ground (
          arith,
          v.lefttoconn,
          count-set_flags is_idle s.file i f g idle h e,
          ap (count is_idle) tf,
        );
    lefttoread =
        tr
        ∙ ground (
          arith,
          v.lefttoread,
          count-set_flags is_unfinished s.file i f g idle h e,
          ap (count is_unfinished) tf,
        );
    allowed = omega (arith, tc);
  }

  module _ (r : Round) where
    opened-KeepsCounts :
        (s : Client) (i : ℕ) (f : File) (c : Connect)
        → IsCounted m n s
        → get_elem? s.file i ≡ some f
        → f.f_flags ≡ idle
        → s.nconn < m
        → KeepsCounts (
            connect_started r s i (record f { f_fd = r.socket i }) c >>= λ t.
            running (record t { nconn = t.nconn + 1; nlefttoconn = t.nlefttoconn - 1 }))
    unfolding connect_started write_get_cmd
    opened-KeepsCounts s i f refused v h e room = tt
    opened-KeepsCounts s i f in_progress v h e room =
        opened-IsCounted s _ i f (record { f_fd = r.socket i; f_flags = connecting }) v h e refl
          refl refl room refl refl refl refl
    opened-KeepsCounts s i f connected v h e room = written (r.write (r.socket i))
      where
        written :
            (b : Bool)
            → KeepsCounts (
                (if b then running (asked s i (record f { f_fd = r.socket i })) else died) >>= λ t.
                running (record t { nconn = t.nconn + 1; nlefttoconn = t.nlefttoconn - 1 }))
        written true =
            opened-IsCounted s _ i f (record { f_fd = r.socket i; f_flags = reading }) v h e refl
              refl refl room refl refl refl refl
        written false = tt

    pub is_idle-idle : (x : Flags) → is_idle x ≡ true → x ≡ idle
    is_idle-idle idle h = refl
    is_idle-idle connecting h = cc
    is_idle-idle reading h = cc
    is_idle-idle finished h = cc

    pub found-eq :
        (s : Client) (i : ℕ) (f : File)
        → get_elem? s.file i ≡ some f
        → open_found r s (some i) ≡ (
            start_connect r s i f >>= λ t.
            running (record t { nconn = t.nconn + 1; nlefttoconn = t.nlefttoconn - 1 }))
    unfolding open_found
    found-eq s i f h = rw (h, open_found)

    pub open_found-KeepsCounts :
        (s : Client)
        → IsCounted m n s
        → s.nconn < m
        → 0 < s.nlefttoconn
        → KeepsCounts (open_found r s (first_idle s.file))
    open_found-KeepsCounts s v room left =
        let (i, f, q, g, d) = first_idle-found s.file (omega (arith, v.lefttoconn)) in
        subst KeepsCounts (sym (ap (open_found r s) q ∙ found-eq s i f g))
          (opened-KeepsCounts s i f (r.connect i) v g (is_idle-idle f.f_flags d) room)

    open_all-KeepsCounts :
        (rounds : ℕ) (s : Client) → IsCounted m n s → KeepsCounts (open_all r m rounds s)
    unfolding open_all
    open_all-KeepsCounts zero s v = v
    open_all-KeepsCounts (suc rounds) s v =
        more (ltb s.nconn m && ltb 0 s.nlefttoconn) refl (λ t w. open_all-KeepsCounts rounds t w)
      where
        more :
            (b : Bool)
            → (ltb s.nconn m && ltb 0 s.nlefttoconn) ≡ b
            → ((t : Client) → IsCounted m n t → KeepsCounts (open_all r m rounds t))
            → KeepsCounts (
                if b
                then (open_found r s (first_idle s.file) >>= open_all r m rounds)
                else running s)
        more true h ih =
            >>=-KeepsCounts (open_found r s (first_idle s.file)) _
              (open_found-KeepsCounts s v (ground arith) (ground arith)) ih
        more false h ih = v

    -- A file whose connection is there stays active.
    asked-IsCounted :
        (s : Client) (i : ℕ) (f : File)
        → IsCounted m n s
        → get_elem? s.file i ≡ some f
        → f.f_flags ≡ connecting
        → IsCounted m n (asked s i f)
    asked-IsCounted s i f v h e =
        let g : File = record f { f_flags = reading } in
        record {
          files = length-set s.file i g ∙ v.files;
          conn = omega (arith, v.conn, count-set_flags is_active s.file i f g connecting h e);
          lefttoconn =
              omega (arith, v.lefttoconn, count-set_flags is_idle s.file i f g connecting h e);
          lefttoread =
              omega
                (arith, v.lefttoread, count-set_flags is_unfinished s.file i f g connecting h e);
          allowed = v.allowed;
        }

    finish-IsCounted :
        (s : Client) (i : ℕ) (f : File) (rset : FdSet)
        → IsCounted m n s
        → get_elem? s.file i ≡ some f
        → f.f_flags ≡ reading
        → IsCounted m n (record s {
          file = set s.file i (record f { f_flags = finished });
          rset = rset;
          nconn = s.nconn - 1;
          nlefttoread = s.nlefttoread - 1;
        })
    finish-IsCounted s i f rset v h e =
        let g : File = record f { f_flags = finished } in
        record {
          files = length-set s.file i g ∙ v.files;
          conn = omega (arith, v.conn, count-set_flags is_active s.file i f g reading h e);
          lefttoconn =
              omega (arith, v.lefttoconn, count-set_flags is_idle s.file i f g reading h e);
          lefttoread =
              omega (arith, v.lefttoread, count-set_flags is_unfinished s.file i f g reading h e);
          allowed = omega (arith, v.allowed);
        }

    read-KeepsCounts :
        (s : Client) (i : ℕ) (f : File) (x : Input)
        → IsCounted m n s
        → get_elem? s.file i ≡ some f
        → f.f_flags ≡ reading
        → KeepsCounts (file_read r s i f x)
    unfolding file_read
    read-KeepsCounts s i f failed v h e = tt
    read-KeepsCounts s i f some_bytes v h e = v
    read-KeepsCounts s i f end_of_file v h e = finish-IsCounted s i f (fd_clr f.f_fd s.rset) v h e

    check_file-KeepsCounts :
        (s : Client) (i : ℕ) (f : File) (x : Flags)
        → IsCounted m n s
        → get_elem? s.file i ≡ some f
        → f.f_flags ≡ x
        → KeepsCounts (check_file r s i f x)
    unfolding check_file write_get_cmd
    check_file-KeepsCounts s i f idle v h e = v
    check_file-KeepsCounts s i f finished v h e = v
    check_file-KeepsCounts s i f connecting v h e =
        there (r.rs f.f_fd || r.ws f.f_fd) (r.write f.f_fd)
      where
        cleared : Client
        cleared = record s { wset = fd_clr f.f_fd s.wset }

        same : IsCounted m n cleared
        same = record {
          files = v.files;
          conn = v.conn;
          lefttoconn = v.lefttoconn;
          lefttoread = v.lefttoread;
          allowed = v.allowed;
        }

        there :
            (b w : Bool)
            → KeepsCounts
                (if b then (if w then running (asked cleared i f) else died) else running s)
        there true true = asked-IsCounted cleared i f same h e
        there true false = tt
        there false w = v
    check_file-KeepsCounts s i f reading v h e = there (r.rs f.f_fd)
      where
        there :
            (b : Bool) → KeepsCounts (if b then file_read r s i f (r.read f.f_fd) else running s)
        there true = read-KeepsCounts s i f (r.read f.f_fd) v h e
        there false = v

    check_files-KeepsCounts :
        (rounds i : ℕ) (s : Client)
        → i + rounds ≤ n
        → IsCounted m n s
        → KeepsCounts (check_files r rounds i s)
    unfolding check_files check_entry
    check_files-KeepsCounts zero i s h v = v
    check_files-KeepsCounts (suc rounds) i s h v =
        let (f, hit, tail) = drop-suc i s.file (omega (arith, v.files)) in
        >>=-KeepsCounts (check_entry r s i (get_elem? s.file i)) (check_files r rounds (i + 1))
          (subst KeepsCounts (sym (ap (check_entry r s i) hit))
            (check_file-KeepsCounts s i f f.f_flags v hit refl))
          (λ t w. check_files-KeepsCounts rounds (i + 1) t (omega arith) w)

    step-KeepsCounts : (s : Client) → IsCounted m n s → KeepsCounts (step r m s)
    unfolding step
    step-KeepsCounts s v =
        >>=-KeepsCounts (open_all r m s.nlefttoconn s) (λ t. check_files r (length t.file) 0 t)
          (open_all-KeepsCounts s.nlefttoconn s v)
          (λ t w. check_files-KeepsCounts (length t.file) 0 t (omega (arith, w.files)) w)

  run-KeepsCounts : (rs : List Round) (s : Client) → IsCounted m n s → KeepsCounts (run m s rs)
  unfolding run
  run-KeepsCounts [] s v = v
  run-KeepsCounts (r ∷ rs) s v = more (ltb 0 s.nlefttoread) (λ t w. run-KeepsCounts rs t w)
    where
      more :
          (b : Bool)
          → ((t : Client) → IsCounted m n t → KeepsCounts (run m t rs))
          → KeepsCounts (if b then (step r m s >>= λ t. run m t rs) else running s)
      more true ih = >>=-KeepsCounts (step r m s) _ (step-KeepsCounts r s v) ih
      more false ih = v

pub start-IsCounted : (m n : ℕ) → IsCounted m n (start n)
unfolding start
start-IsCounted m n = record {
  files = length-replicate n (record { f_fd = 0; f_flags = idle });
  conn = sym (count-replicate is_active n (record { f_fd = 0; f_flags = idle }) false refl);
  lefttoconn = sym (count-replicate is_idle n (record { f_fd = 0; f_flags = idle }) true refl);
  lefttoread =
      sym (count-replicate is_unfinished n (record { f_fd = 0; f_flags = idle }) true refl);
  allowed = omega arith;
}

-- With `n` files and at most `m` connections at a time, whatever the kernel gives, the client stays
-- inside file[] and never finds nothing to open: while it goes on, `nconn` is the number of files
-- whose connection is open and at most `m`, `nlefttoconn` that of those not begun and `nlefttoread`
-- that of those not done.
pub run-start-KeepsCounts : (m n : ℕ) (rs : List Round) → KeepsCounts m n (run m (start n) rs)
run-start-KeepsCounts m n rs = run-KeepsCounts m n rs (start n) (start-IsCounted m n)
