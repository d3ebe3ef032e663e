-- ===== src/UdpClient/Tests.antt =====
-- Two messages on their way.
use libnetpaxos.Prelude.{ℕ, ◌+◌, ◌*◌, ◌≡◌, refl, arith, List, [], ◌∷◌, replicate, some, All}
use libnetpaxos.Prelude.{returned}
use libnetpaxos.Prelude.Int.{pos}
use libnetpaxos.Utils.Time.{Timespec}
use libnetpaxos.UdpClient.{ClientState, readable, timeout, both, client_state_new, send_message}
use libnetpaxos.UdpClient.Open.{IsClock, payload_text}
use libnetpaxos.UdpClient.Flight.{
  Happening, Possible, Totals, called, tick, run, answers, timeouts, client_lem,
}

abbrev noon : Timespec
noon = record { tv_sec = pos 43200; tv_nsec = pos 5 }

noon-IsClock : IsClock noon
noon-IsClock = record {
  sec = 43200;
  nsec = 5;
  is_sec = refl;
  is_nsec = refl;
  sec_fits = omega arith;
  nsec_fits = omega arith;
}

-- An answer, the timer, two answers of which one is empty, a timeout, and an answer with a timeout.
abbrev happenings : List Happening
happenings =
    called (readable (some ((79 ∷ 75 ∷ []) ∷ []))) noon noon
    ∷ tick
    ∷ called (readable (some ((79 ∷ []) ∷ [] ∷ []))) noon noon
    ∷ called timeout noon noon
    ∷ called (both (some ((79 ∷ []) ∷ []))) noon noon
    ∷ []

happenings-Possible : All (Possible 2) happenings
happenings-Possible = (
  (omega arith, noon-IsClock, noon-IsClock),
  (
    tt,
    (
      (omega arith, noon-IsClock, noon-IsClock),
      (tt, ((omega arith, noon-IsClock, noon-IsClock), tt)),
    ),
  ),
)

abbrev ones : ℕ → List ℕ
ones k = replicate 201 1

client_lem_example :
    (state state' : ClientState) × (totals : Totals) × (client_state_new 2 noon ones
      ≡ returned state)
    × (send_message state 2 ≡ returned (replicate 2 payload_text))
    × (run happenings state ≡ returned (state', totals))
    × (totals.sent ≡ replicate (answers happenings + timeouts happenings * 2) payload_text)
    × (totals.printed + state'.mps ≡ answers happenings)
client_lem_example = client_lem 2 noon ones (λ k. refl) noon-IsClock happenings happenings-Possible
