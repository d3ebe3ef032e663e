-- ===== src/TcpClient.antt =====
-- app/tcp_client.c: the client of the server over TCP, which answers each answer with a request.
pub mod Loop
use libnetpaxos.Prelude.{
  ℕ, zero, suc, ◌+◌, ◌*◌, Bool, true, false, Option, some, none, List, [], ◌∷◌, ◌==◌, leb,
  if◌then◌else◌,
}
use libnetpaxos.Prelude.{Outcome, returned, exited, fault, ◌>>=◌, write_at}
use libnetpaxos.Datagram.{byte, store}
use libnetpaxos.Replica.{load}
use libnetpaxos.Store.{put_op}
use libnetpaxos.Utils.Time.{Timespec, timediff}

-- "abcde123456789".
abbrev pub key_text : List ℕ
key_text = 97 ∷ 98 ∷ 99 ∷ 100 ∷ 101 ∷ 49 ∷ 50 ∷ 51 ∷ 52 ∷ 53 ∷ 54 ∷ 55 ∷ 56 ∷ 57 ∷ []

-- `submit`: what is written to the connection; `msg` is what the local array held before.
unfoldable pub submit : List ℕ → Outcome (List ℕ)
submit msg = do
  msg ← write_at msg 0 put_op
  msg ← write_at msg 1 14
  msg ← write_at msg 2 14
  key ← load key_text 0 (byte msg 1)
  msg ← store msg 3 key
  value ← load key_text 0 (byte msg 2)
  msg ← store msg (3 + byte msg 1) value
  load msg 0 (byte msg 1 + byte msg 2 + 4)

-- `struct info`; of the array `msg` its size in bytes, and the lines that were stored in it, the last
-- one first.
pub record Info : Type 0 where
  pub mps : ℕ
  pub count : ℕ
  pub num_elements : ℕ
  pub start : Timespec
  pub msg_bytes : ℕ
  pub msg : List (List ℕ)

-- `info_new`; `count` and `start` are not set. `calloc` is given the size of a `char`.
unfoldable pub info_new : ℕ → Timespec → Info
info_new count start = record {
  mps = 0;
  count = count;
  num_elements = 1;
  start = start;
  msg_bytes = 1 * 1;
  msg = [];
}

-- An access to the pointer `msg[i]`, of eight bytes.
unfoldable pub access_msg : Info → ℕ → Outcome (Unit {0})
access_msg inf i = if leb (8 * (i + 1)) inf.msg_bytes then returned tt else fault

-- What happens to the connection.
pub data ConnectionEvent : Type 0 where
  connected closed other : ConnectionEvent

-- `eventcb`: the client, what is written, and whether the loop is left. `now` is the time after
-- `submit`, and `local` what its array held.
unfoldable pub eventcb :
    ConnectionEvent → Timespec → List ℕ → Info → Outcome (Info × Option (List ℕ) × Bool)
eventcb connected now local inf = do
  _ ← access_msg inf 0
  sent ← submit local
  returned (record inf { start = now }, some sent, false)
eventcb closed now local inf = returned (inf, none, true)
eventcb other now local inf = returned (inf, none, false)

-- `readcb`: the client, the latency that is printed, none where it says that it is negative, and
-- what is written. The input is thrown away. `timediff`, of which the file has a copy, is called
-- twice with the same arguments.
unfoldable pub readcb :
    Timespec → Timespec → List ℕ → Info → Outcome (Info × Option Timespec × List ℕ)
readcb end now local inf = do
  (result, negative) ← timediff end inf.start
  _ ← access_msg inf 0
  sent ← submit local
  returned
      (record inf { mps = suc inf.mps; start = now }, if negative then none else some result, sent)

-- `monitor`: prints the answers of the last second, if there were any, and forgets them.
unfoldable pub monitor : Info → Info × Option ℕ
monitor inf = (record inf { mps = 0 }, if inf.mps == 0 then none else some inf.mps)

-- `remove_newline`: the string ends where the first newline was.
unfoldable pub remove_newline : List ℕ → List ℕ
remove_newline [] = []
remove_newline (c ∷ cs) = let rest = remove_newline cs in if c == 10 then [] else c ∷ rest

-- `realloc(inf->msg, inf->num_elements)` where the array is full.
unfoldable pub grow : Info → Info
grow inf =
    if leb inf.num_elements inf.count
    then record inf { num_elements = inf.num_elements + 10; msg_bytes = inf.num_elements + 10 }
    else inf

-- A line ends the input if it is a newline alone, or begins with a zero byte.
unfoldable pub is_last : List ℕ → Bool
is_last [] = true
is_last (c ∷ []) = true
is_last (c ∷ d ∷ cs) = c == 0

-- The loop of `read_input` over the lines that `getline` returns.
unfoldable pub read_lines : List (List ℕ) → Info → Outcome Info
read_lines [] inf = returned inf
read_lines (line ∷ lines) inf = elim (is_last line) [
  | true ↦ returned inf
  | false ↦ access_msg (grow inf) inf.count >>= λ _.
      read_lines lines
        (record (grow inf) { count = suc inf.count; msg = remove_newline line ∷ inf.msg })
]

-- `read_input`, for the lines of the file, or none if it cannot be opened.
unfoldable pub read_input : Option (List (List ℕ)) → Info → Outcome Info
read_input none inf = exited
read_input (some lines) inf = read_lines lines inf
