-- ===== src/Learner/Recover.antt =====
-- lib/src/learner.c: `recover`, which asks the acceptors again for an instance.
use libnetpaxos.Prelude.{
  ℕ, ◌≤◌, ◌≡◌, arith, some, List, length, take, length-take, Outcome, returned, ◌>>=◌,
}
use libnetpaxos.Message.{Message}
use libnetpaxos.Message.Bytes.{to_bytes, from_bytes, from_bytes-to_bytes, length-to_bytes}
use libnetpaxos.Message.Request.{fill, fill_lem, request, request-IsMessage}
use libnetpaxos.Learner.{LearnerCtx}

-- `recover`: the bytes that `send_recover_message` gives to `sendto`, whose error is only printed.
-- The instance is not used.
unfoldable pub recover : Message → LearnerCtx → ℕ → List ℕ → Outcome (List ℕ)
recover m ctx instance_number value = fill m value ctx.mine >>= λ m'. returned (to_bytes m')

-- For a value of 32 to 47 bytes, recovery sends the 60 bytes of the same message that a proposer
-- with the learner's address would send for it, and nothing of the instance.
pub recover_lem :
    (m : Message) (ctx : LearnerCtx) (inst : ℕ) (value : List ℕ)
    → length m.client ≡ 16
    → length ctx.mine ≡ 16
    → 32 ≤ length value
    → length value ≤ 47
    → (bytes : List ℕ) × (recover m ctx inst value ≡ returned bytes)
      × (length bytes ≡ 60)
      × (from_bytes bytes ≡ some (request (take 32 value) ctx.mine))
unfolding recover
recover_lem m ctx inst value client mine long short =
    let ok =
      request-IsMessage (take 32 value) ctx.mine (omega (arith, length-take {0} 32 value)) mine in
    (
      to_bytes (request (take 32 value) ctx.mine),
      rw (fill_lem m value ctx.mine client long short),
      length-to_bytes ok,
      from_bytes-to_bytes ok,
    )
