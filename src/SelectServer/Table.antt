-- ===== src/SelectServer/Table.antt =====
-- The select() server's table is a table of descriptors in which only `listenfd` is fixed.
use unix_network_programming.Prelude.{ℕ, ◌≡◌, false, none, some, get_elem?, arith}
use unix_network_programming.Prelude.FdSet.{FdSet, fd_set, At}
use unix_network_programming.Prelude.FdTable.{enter-IsTable, leave-IsTable, empty-IsTable}
use unix_network_programming.Prelude.FdTable
use unix_network_programming.SelectServer.{Server, admit, drop_client, start}

abbrev pub only_fd : ℕ → FdSet
only_fd listenfd = fd_set listenfd (λ fd. false)

-- Every connection has one entry, below `maxi + 1`; `allset` holds `listenfd` and the connections;
-- none is above `maxfd`.
abbrev pub IsTable : ℕ → Server → Type 0
IsTable listenfd s = FdTable.IsTable (only_fd listenfd) s.client s.allset s.limit s.maxfd

module _ (listenfd : ℕ) (s : Server) (v : IsTable listenfd s) where
  pub admit-IsTable :
      (c i : ℕ)
      → s.allset c ≡ false
      → get_elem? s.client i ≡ some none
      → IsTable listenfd (admit s c i)
  admit-IsTable = enter-IsTable (only_fd listenfd) s.client s.allset s.limit s.maxfd v

  pub drop_client-IsTable : (i c : ℕ) → At s.client i c → IsTable listenfd (drop_client s i c)
  drop_client-IsTable = leave-IsTable (only_fd listenfd) s.client s.allset s.limit s.maxfd v

pub start-IsTable : (listenfd : ℕ) → IsTable listenfd (start listenfd)
unfolding start
start-IsTable listenfd = empty-IsTable (only_fd listenfd) listenfd (λ fd h. ground arith)
