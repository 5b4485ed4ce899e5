-- ===== src/Gai/Resolve/Quit.antt =====
-- When getaddrinfo() ends the process.
use unix_network_programming.Prelude.{
  ◌≡◌, refl, ◌∙◌, Bool, true, false, ◌&&◌, Option, none, some, List, [], if◌then◌else◌, length,
}
use unix_network_programming.Gai.{Text, Family, local, Eai, addrfamily, Hints, Heap, Lookup}
use unix_network_programming.Gai.Search.{ga_echeck, ga_nsearch}
use unix_network_programming.Gai.Search.Families.{is_none, is_local, is_none-ga_nsearch}
use unix_network_programming.Gai.Resolve.{
  Resolver, Ending, result, error, quit, ended, unix_ended, unix_entries, unix_name, ◌>>=◌,
  mismatch, unix_path, given_hints, checked_lookup, getaddrinfo, ip_lookup, ga_unix, search_all,
  some_found, return_name, process_service,
}

abbrev pub is_quit : Ending × Lookup → Bool
is_quit (result ais, s) = false
is_quit (error e, s) = false
is_quit (quit, s) = true

is_quit-ended : (o : Option Eai × Lookup) → is_quit (ended o) ≡ false
is_quit-ended (none, s) = refl
is_quit-ended (some e, s) = refl

is_quit-unix_ended : (o : Option Eai × Lookup) → is_quit (unix_ended o) ≡ false
is_quit-unix_ended (none, s) = refl
is_quit-unix_ended (some e, s) = refl

is_quit-ip_lookup :
    (r : Resolver) (hostname servname : Option Text) (h : Hints) (s : Lookup)
    → is_quit (ip_lookup r hostname servname h s) ≡ is_none (ga_nsearch hostname h)
unfolding ip_lookup
is_quit-ip_lookup r hostname servname h s = by_search (ga_nsearch hostname h)
  where
    by_search :
        (o : Option (List (Text × Family)))
        → is_quit (elim o as (λ _. Ending × Lookup) [
          | none ↦ (quit, s)
          | some ss ↦ ended (
              search_all r hostname h (length ss) ss s
              >>= some_found
              >>= return_name hostname h ss
              >>= process_service r servname h)
        ])
          ≡ is_none o
    by_search none = refl
    by_search (some ss) = is_quit-ended (
        search_all r hostname h (length ss) ss s
        >>= some_found
        >>= return_name hostname h ss
        >>= process_service r servname h)

is_quit-ga_unix :
    (uname : Option Text) (h : Hints) (path : Text) (s : Lookup)
    → is_quit (ga_unix uname h path s) ≡ false
unfolding ga_unix
is_quit-ga_unix uname h path s = by_family (mismatch h local)
  where
    by_family :
        (b : Bool)
        → is_quit (
            if b
            then (error addrfamily, s)
            else unix_ended (unix_entries h path s >>= unix_name uname h))
          ≡ false
    by_family true = refl
    by_family false = is_quit-unix_ended (unix_entries h path s >>= unix_name uname h)

is_quit-checked_lookup :
    (r : Resolver) (hostname servname : Option Text) (h : Hints) (s : Lookup)
    → ga_echeck hostname servname h ≡ none
    → is_quit (checked_lookup r hostname servname h s)
      ≡ (is_none (unix_path hostname servname) && is_local h.family)
unfolding checked_lookup
is_quit-checked_lookup r hostname servname h s e = by_path (unix_path hostname servname)
  where
    by_path :
        (o : Option Text)
        → is_quit (elim o as (λ _. Ending × Lookup) [
          | some path ↦ ga_unix r.uname h path s
          | none ↦ ip_lookup r hostname servname h s
        ])
          ≡ (is_none o && is_local h.family)
    by_path (some path) = is_quit-ga_unix r.uname h path s
    by_path none =
        is_quit-ip_lookup r hostname servname h s ∙ is_none-ga_nsearch hostname servname h e

-- getaddrinfo() ends the process by err_quit() exactly if the arguments pass the checks of ga_echeck(),
-- the names are not those of a Unix domain socket, and the family of the hints is AF_LOCAL. For all
-- other arguments it returns a list or an error, whatever the resolver answers.
pub is_quit-getaddrinfo :
    (r : Resolver) (hostname servname : Option Text) (hintsp : Option Hints) (heap : Heap)
    → is_quit (getaddrinfo r hostname servname hintsp heap) ≡ (
        is_none (ga_echeck hostname servname (given_hints hintsp))
        && is_none (unix_path hostname servname)
        && is_local (given_hints hintsp).family)
unfolding getaddrinfo
is_quit-getaddrinfo r hostname servname hintsp heap =
    by_check (ga_echeck hostname servname (given_hints hintsp)) refl
  where
    by_check :
        (o : Option Eai)
        → ga_echeck hostname servname (given_hints hintsp) ≡ o
        → is_quit (elim o as (λ _. Ending × Lookup) [
          | some e ↦ (error e, record { ais = []; canon = none; heap = heap; unlinked = [] })
          | none ↦
              checked_lookup r hostname servname
                (given_hints hintsp)
                (record { ais = []; canon = none; heap = heap; unlinked = [] })
        ])
          ≡ (is_none o
              && is_none (unix_path hostname servname)
              && is_local (given_hints hintsp).family)
    by_check (some e) q = refl
    by_check none q =
        is_quit-checked_lookup r hostname servname (given_hints hintsp)
          (record { ais = []; canon = none; heap = heap; unlinked = [] }) q
