-- ===== src/Config/Tests.antt =====
-- A configuration file of four lines.
use libnetpaxos.Prelude.{ℕ, ◌≡◌, refl, List, [], ◌∷◌, ◌++◌, some, returned}
use libnetpaxos.Prelude.Int.{pos}
use libnetpaxos.Config.{Config, init_conf}
use libnetpaxos.Config.Parse.{
  atoi, decimal, in_int, key_comment, key_maxinst, key_num_acceptors, key_vlen, parse_conf,
  parse_line, parse_lines, scan, set_int, skip, word,
}
use libnetpaxos.Config.Parse.Settings.{last_int, parse_conf-last_int}

-- "MAXINST 10", "// VLEN 7", "MAXINST  25" and "NUM_ACCEPTORS 3".
abbrev lines : List (List ℕ)
lines =
    (key_maxinst ++ 32 ∷ 49 ∷ 48 ∷ 10 ∷ [])
    ∷ (key_comment ++ 32 ∷ key_vlen ++ 32 ∷ 55 ∷ 10 ∷ [])
    ∷ (key_maxinst ++ 32 ∷ 32 ∷ 50 ∷ 53 ∷ 10 ∷ [])
    ∷ (key_num_acceptors ++ 32 ∷ 51 ∷ 10 ∷ [])
    ∷ []

abbrev read : Config
read = record init_conf { maxinst = pos 25; num_acceptors = pos 3 }

parsed : parse_conf (some lines) ≡ returned read
unfolding atoi decimal in_int parse_conf parse_line parse_lines scan set_int skip word
parsed = refl

parse_conf-last_int_example :
    (last_int key_maxinst lines (pos 0) ≡ returned (pos 25))
    × (last_int key_vlen lines (pos 0) ≡ returned (pos 0))
    × (last_int key_num_acceptors lines (pos 0) ≡ returned (pos 3))
parse_conf-last_int_example = parse_conf-last_int lines parsed
