-- ===== src/Tpevent/Poll/Race.antt =====
-- net/libtpevent/src/poll.cpp:50 (`TODO: need lock`): a client that joins between the pass over `fds` and
-- the poll is polled at an entry of `fds` that an earlier round left.
use technopark_cpp.Tpevent.Poll.{answered, Revents, scan, manage, no_events, PollFd, turn, ready}
use technopark_cpp.Tpevent.Engine.{Reading, client_sds, Client}
use technopark_cpp.Tpevent.Poll.Rounds.{fill-map, request}
use technopark_cpp.Descriptor.Balance.{NotOpen}
use technopark_cpp.Tpevent.Clients.{erase_sd, erase_sds}
use technopark_cpp.Prelude.{
  List, [], ap, drop, false, length, map, ok, refl, suc, true, undefined, ℕ, ℤ, ◌++◌, ◌∷◌, ◌≡◌, ◌≤◌,
}

erase_sd-undefined :
    (sd : ℤ) (cs : List Client)
    → NotOpen sd (client_sds cs)
    → erase_sd (λ (c : Client). c.sd) sd cs ≡ undefined
unfolding erase_sd
erase_sd-undefined sd [] n = refl
erase_sd-undefined sd (c ∷ cs) n = rw (n.0, erase_sd-undefined sd cs n.1) refl

-- The answers to a poll where only the last entry, beyond the clients `cs`, got one
abbrev pub only_last : List Client → Revents → List Revents
only_last cs v = map (λ c. no_events) cs ++ v ∷ []

answered-only_last :
    (cs : List Client) (v : Revents) (stale : PollFd) (rest : List PollFd)
    → answered (only_last cs v) (map request cs ++ stale ∷ rest)
      ≡ map request cs ++ record stale { revents = v } ∷ rest
unfolding answered
answered-only_last [] v stale rest = refl
answered-only_last (c ∷ cs) v stale rest = ap (◌∷◌ (request c)) (answered-only_last cs v stale rest)

module _ (reads : ℕ → Reading) (joined : Client) (v : Revents) (not_hup : v.hup ≡ false)
    (not_readable : v.readable ≡ false) (not_writable : v.writable ≡ false)
    (bad : v.invalid ≡ true) where
  scan-stale :
      (i : ℕ) (cs : List Client) (stale : PollFd) (rest : List PollFd)
      → scan reads i (cs ++ joined ∷ []) (map request cs ++ record stale { revents = v } ∷ rest)
        ≡ ok (record { clients = cs ++ joined ∷ []; disconnected = stale.fd ∷ []; actions = [] })
  unfolding scan turn
  scan-stale i [] stale rest = rw (not_hup, not_readable, not_writable, bad) refl
  scan-stale i (c ∷ cs) stale rest = rw (scan-stale (suc i) cs stale rest) refl

  -- Where there are clients, one more joins between the pass over fds and the poll, the entry after
  -- those of the clients names a descriptor that no client has, and the poll answers only that
  -- entry, with POLLNVAL and none of POLLHUP, POLLIN and POLLOUT, the round is undefined.
  pub race-undefined :
      (c : Client) (cs : List Client) (fds : List PollFd) (stale : PollFd) (rest : List PollFd)
      → length (c ∷ cs) ≤ length fds
      → drop (length (c ∷ cs)) fds ≡ stale ∷ rest
      → NotOpen stale.fd (client_sds ((c ∷ cs) ++ joined ∷ []))
      → manage reads (ready (only_last (c ∷ cs) v)) (joined ∷ []) (c ∷ cs) fds ≡ undefined
  unfolding manage erase_sds
  race-undefined c cs fds stale rest room e n =
      rw
        (
          fill-map (c ∷ cs) fds room,
          e,
          answered-only_last (c ∷ cs) v stale rest,
          scan-stale 0 (c ∷ cs) stale rest,
          erase_sd-undefined stale.fd ((c ∷ cs) ++ joined ∷ []) n,
        )
        refl
