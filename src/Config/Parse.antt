-- ===== src/Config/Parse.antt =====
-- lib/src/config.c: reading a configuration file, a key and a value on each line.
pub mod Settings
use libnetpaxos.Prelude.{
  ℕ, zero, suc, ◌+◌, ◌*◌, ◌-◌, ◌^◌, Bool, true, false, ◌&&◌, ◌||◌, Option, some, none,
}
use libnetpaxos.Prelude.{List, [], ◌∷◌, ◌++◌, length, ltb, leb, ◌==◌, if◌then◌else◌}
use libnetpaxos.Prelude.{Outcome, returned, exited, fault, ◌>>=◌}
use libnetpaxos.Prelude.{same_word}
use libnetpaxos.Prelude.Int.{ℤ, pos, negsuc}
use libnetpaxos.Config.{Config, init_conf}
use libnetpaxos.Message.Copy.{strcpy}

abbrev pub is_space : ℕ → Bool
is_space c = c == 32 || leb 9 c && leb c 13

abbrev pub skip_space : List ℕ → List ℕ
skip_space [] = []
skip_space (c ∷ cs) = if is_space c then skip_space cs else c ∷ cs

-- The bytes before the next white space, and from it on.
unfoldable pub word : List ℕ → List ℕ × List ℕ
word [] = ([], [])
word (c ∷ cs) = let rest = word cs in if is_space c then ([], c ∷ cs) else (c ∷ rest.0, rest.1)

abbrev pub store_word : ℕ → List ℕ → Outcome (Option (List ℕ))
store_word size [] = returned none
store_word size (c ∷ cs) = if ltb (suc (length cs)) size then returned (some (c ∷ cs)) else fault

-- `sscanf(line, "%s %s", key, value)` into arrays of 20 and 256 bytes: the words stored, without
-- their terminating zero. `none` is an array that is not written; a word that is too long leaves
-- its array.
unfoldable pub scan : List ℕ → Outcome (Option (List ℕ) × Option (List ℕ))
scan line = do
  let first = word (skip_space line)
  let second = word (skip_space first.1)
  key ← store_word 20 first.0
  value ← store_word 256 second.0
  returned (key, value)

abbrev digit : ℕ → Bool
digit c = leb 48 c && leb c 57

-- The decimal number at the start of a string.
unfoldable pub decimal : ℕ → List ℕ → ℕ
decimal n [] = n
decimal n (c ∷ cs) = let rest = decimal (n * 10 + (c - 48)) cs in if digit c then rest else n

-- An `int`, or undefined.
unfoldable pub in_int : Bool → ℕ → Outcome ℤ
in_int false n = if ltb n (2 ^ 31) then returned (pos n) else fault
in_int true zero = returned (pos 0)
in_int true (suc n) = if ltb n (2 ^ 31) then returned (negsuc n) else fault

-- `atoi` of a word.
unfoldable pub atoi : List ℕ → Outcome ℤ
atoi [] = returned (pos 0)
atoi (c ∷ cs) =
    if c == 45
    then in_int true (decimal 0 cs)
    else if c == 43
    then in_int false (decimal 0 cs)
    else in_int false (decimal 0 (c ∷ cs))

-- What is done with the value of a key. A value that was not written is undefined to read.
abbrev pub Action : Type 0
Action = Option (List ℕ) → Config → Outcome Config

unfoldable pub set_int : (ℤ → Config → Config) → Action
set_int f none conf = fault
set_int f (some value) conf = atoi value >>= λ n. returned (f n conf)

-- `strcpy` into one of the four addresses.
unfoldable pub set_addr : (Config → List ℕ) → (List ℕ → Config → Config) → Action
set_addr get f none conf = fault
set_addr get f (some value) conf =
    strcpy (get conf) (value ++ 0 ∷ []) >>= λ addr. returned (f addr conf)

unfoldable pub skip : Action
skip value conf = returned conf

-- "//"
abbrev pub key_comment : List ℕ
key_comment = 47 ∷ 47 ∷ []

-- "ROLE"
abbrev pub key_role : List ℕ
key_role = 82 ∷ 79 ∷ 76 ∷ 69 ∷ []

-- "VERBOSE"
abbrev pub key_verbose : List ℕ
key_verbose = 86 ∷ 69 ∷ 82 ∷ 66 ∷ 79 ∷ 83 ∷ 69 ∷ []

-- "SECOND"
abbrev pub key_second : List ℕ
key_second = 83 ∷ 69 ∷ 67 ∷ 79 ∷ 78 ∷ 68 ∷ []

-- "MICROSECOND"
abbrev pub key_microsecond : List ℕ
key_microsecond = 77 ∷ 73 ∷ 67 ∷ 82 ∷ 79 ∷ 83 ∷ 69 ∷ 67 ∷ 79 ∷ 78 ∷ 68 ∷ []

-- "LEARNER_ADDR"
abbrev pub key_learner_addr : List ℕ
key_learner_addr = 76 ∷ 69 ∷ 65 ∷ 82 ∷ 78 ∷ 69 ∷ 82 ∷ 95 ∷ 65 ∷ 68 ∷ 68 ∷ 82 ∷ []

-- "PROPOSER_ADDR"
abbrev pub key_proposer_addr : List ℕ
key_proposer_addr = 80 ∷ 82 ∷ 79 ∷ 80 ∷ 79 ∷ 83 ∷ 69 ∷ 82 ∷ 95 ∷ 65 ∷ 68 ∷ 68 ∷ 82 ∷ []

-- "COORDINATOR_ADDR"
abbrev pub key_coordinator_addr : List ℕ
key_coordinator_addr =
    67 ∷ 79 ∷ 79 ∷ 82 ∷ 68 ∷ 73 ∷ 78 ∷ 65 ∷ 84 ∷ 79 ∷ 82 ∷ 95 ∷ 65 ∷ 68 ∷ 68 ∷ 82 ∷ []

-- "ACCEPTOR_ADDR"
abbrev pub key_acceptor_addr : List ℕ
key_acceptor_addr = 65 ∷ 67 ∷ 67 ∷ 69 ∷ 80 ∷ 84 ∷ 79 ∷ 82 ∷ 95 ∷ 65 ∷ 68 ∷ 68 ∷ 82 ∷ []

-- "LEARNER_PORT"
abbrev pub key_learner_port : List ℕ
key_learner_port = 76 ∷ 69 ∷ 65 ∷ 82 ∷ 78 ∷ 69 ∷ 82 ∷ 95 ∷ 80 ∷ 79 ∷ 82 ∷ 84 ∷ []

-- "PROPOSER_PORT"
abbrev pub key_proposer_port : List ℕ
key_proposer_port = 80 ∷ 82 ∷ 79 ∷ 80 ∷ 79 ∷ 83 ∷ 69 ∷ 82 ∷ 95 ∷ 80 ∷ 79 ∷ 82 ∷ 84 ∷ []

-- "COORDINATOR_PORT"
abbrev pub key_coordinator_port : List ℕ
key_coordinator_port =
    67 ∷ 79 ∷ 79 ∷ 82 ∷ 68 ∷ 73 ∷ 78 ∷ 65 ∷ 84 ∷ 79 ∷ 82 ∷ 95 ∷ 80 ∷ 79 ∷ 82 ∷ 84 ∷ []

-- "ACCEPTOR_PORT"
abbrev pub key_acceptor_port : List ℕ
key_acceptor_port = 65 ∷ 67 ∷ 67 ∷ 69 ∷ 80 ∷ 84 ∷ 79 ∷ 82 ∷ 95 ∷ 80 ∷ 79 ∷ 82 ∷ 84 ∷ []

-- "MAXINST"
abbrev pub key_maxinst : List ℕ
key_maxinst = 77 ∷ 65 ∷ 88 ∷ 73 ∷ 78 ∷ 83 ∷ 84 ∷ []

-- "ENABLE_PAXOS"
abbrev pub key_enable_paxos : List ℕ
key_enable_paxos = 69 ∷ 78 ∷ 65 ∷ 66 ∷ 76 ∷ 69 ∷ 95 ∷ 80 ∷ 65 ∷ 88 ∷ 79 ∷ 83 ∷ []

-- "OUTSTANDING"
abbrev pub key_outstanding : List ℕ
key_outstanding = 79 ∷ 85 ∷ 84 ∷ 83 ∷ 84 ∷ 65 ∷ 78 ∷ 68 ∷ 73 ∷ 78 ∷ 71 ∷ []

-- "PAXOS_MSGTYPE"
abbrev pub key_paxos_msgtype : List ℕ
key_paxos_msgtype = 80 ∷ 65 ∷ 88 ∷ 79 ∷ 83 ∷ 95 ∷ 77 ∷ 83 ∷ 71 ∷ 84 ∷ 89 ∷ 80 ∷ 69 ∷ []

-- "PADSIZE"
abbrev pub key_padsize : List ℕ
key_padsize = 80 ∷ 65 ∷ 68 ∷ 83 ∷ 73 ∷ 90 ∷ 69 ∷ []

-- "VLEN"
abbrev pub key_vlen : List ℕ
key_vlen = 86 ∷ 76 ∷ 69 ∷ 78 ∷ []

-- "NUM_ACCEPTORS"
abbrev pub key_num_acceptors : List ℕ
key_num_acceptors = 78 ∷ 85 ∷ 77 ∷ 95 ∷ 65 ∷ 67 ∷ 67 ∷ 69 ∷ 80 ∷ 84 ∷ 79 ∷ 82 ∷ 83 ∷ []

-- The branches of the loop of `parse_conf`, in their order: the first one whose key is that of the
-- line is taken.
abbrev pub branches : List (List ℕ × Action)
branches =
    (key_role, set_int (λ n conf. record conf { role = n }))
    ∷ (key_comment, skip)
    ∷ (key_verbose, set_int (λ n conf. record conf { verbose = n }))
    ∷ (key_second, set_int (λ n conf. record conf { second = n }))
    ∷ (key_microsecond, set_int (λ n conf. record conf { microsecond = n }))
    ∷ (
      key_learner_addr,
      set_addr (λ conf. conf.learner_addr) (λ a conf. record conf { learner_addr = a }),
    )
    ∷ (
      key_proposer_addr,
      set_addr (λ conf. conf.proposer_addr) (λ a conf. record conf { proposer_addr = a }),
    )
    ∷ (
      key_coordinator_addr,
      set_addr (λ conf. conf.coordinator_addr) (λ a conf. record conf { coordinator_addr = a }),
    )
    ∷ (
      key_acceptor_addr,
      set_addr (λ conf. conf.acceptor_addr) (λ a conf. record conf { acceptor_addr = a }),
    )
    ∷ (key_learner_port, set_int (λ n conf. record conf { learner_port = n }))
    ∷ (key_proposer_port, set_int (λ n conf. record conf { proposer_port = n }))
    ∷ (key_coordinator_port, set_int (λ n conf. record conf { coordinator_port = n }))
    ∷ (key_acceptor_port, set_int (λ n conf. record conf { acceptor_port = n }))
    ∷ (key_maxinst, set_int (λ n conf. record conf { maxinst = n }))
    ∷ (key_enable_paxos, set_int (λ n conf. record conf { enable_paxos = n }))
    ∷ (key_outstanding, set_int (λ n conf. record conf { outstanding = n }))
    ∷ (key_paxos_msgtype, set_int (λ n conf. record conf { paxos_msgtype = n }))
    ∷ (key_padsize, set_int (λ n conf. record conf { padsize = n }))
    ∷ (key_vlen, set_int (λ n conf. record conf { vlen = n }))
    ∷ (key_num_acceptors, set_int (λ n conf. record conf { num_acceptors = n }))
    ∷ []

abbrev pub branch_of : List ℕ → List (List ℕ × Action) → Action
branch_of key [] = skip
branch_of key ((k, a) ∷ rest) = if same_word key k then a else branch_of key rest

-- One line. A key that was not written is undefined to read.
unfoldable pub parse_line : List ℕ → Config → Outcome Config
parse_line line conf = scan line >>= λ (key, value). elim key [
  | none ↦ fault
  | some k ↦ branch_of k branches value conf
]

unfoldable pub parse_lines : List (List ℕ) → Config → Outcome Config
parse_lines [] conf = returned conf
parse_lines (line ∷ rest) conf = parse_line line conf >>= λ conf'. parse_lines rest conf'

-- `parse_conf` on the lines that `getline` reads, `none` if the file cannot be opened.
unfoldable pub parse_conf : Option (List (List ℕ)) → Outcome Config
parse_conf none = exited
parse_conf (some lines) = parse_lines lines init_conf
