-- ===== src/Config/Parse/Settings.antt =====
-- What a configuration file sets.
use libnetpaxos.Prelude.{
  ℕ, ◌≡◌, ◌⊎◌, refl, inl, inr, arith, ap, sym, subst, ◌∙◌, true, false, Option, some, none,
}
use libnetpaxos.Prelude.{List, [], ◌∷◌, ◌++◌, All, if◌then◌else◌, Bool-cases, Outcome-cases}
use libnetpaxos.Prelude.{Outcome, returned, exited, fault, ◌>>=◌, returned_inj}
use libnetpaxos.Prelude.{same_word, same_word-eq}
use libnetpaxos.Prelude.Int.{ℤ, pos}
use libnetpaxos.Config.{Config, init_conf}
use libnetpaxos.Message.Copy.{strcpy}
use libnetpaxos.Config.Parse.{
  Action, atoi, scan, set_int, set_addr, skip, branches, branch_of, parse_line, parse_lines,
  parse_conf, key_maxinst, key_vlen, key_num_acceptors,
}

-- The value that a line gives to a key, the value before where the line is for another key.
unfoldable pub int_of : List ℕ → Option (List ℕ) × Option (List ℕ) → ℤ → Outcome ℤ
int_of key (none, value) n = fault
int_of key (some k, none) n = if same_word k key then fault else returned n
int_of key (some k, some value) n = if same_word k key then atoi value else returned n

-- The value that the last line for a key gives to it.
unfoldable pub last_int : List ℕ → List (List ℕ) → ℤ → Outcome ℤ
last_int key [] n = returned n
last_int key (line ∷ rest) n =
    scan line >>= λ words. int_of key words n >>= λ n'. last_int key rest n'

>>=-assoc :
    {A B C : Type 0} (m : Outcome A) (f : A → Outcome B) (k : B → Outcome C)
    → ((m >>= f) >>= k) ≡ (m >>= λ a. f a >>= k)
>>=-assoc (returned a) f k = refl
>>=-assoc exited f k = refl
>>=-assoc fault f k = refl

abbrev Keeps : (Config → ℤ) → Action → Type 0
Keeps g a =
    (value : Option (List ℕ)) (conf conf' : Config)
    → a value conf ≡ returned conf'
    → g conf' ≡ g conf

module _ (g : Config → ℤ) where
  set_int-Keeps :
      {f : ℤ → Config → Config} → ((n : ℤ) (c : Config) → g (f n c) ≡ g c) → Keeps g (set_int f)
  unfolding set_int
  set_int-Keeps same none conf conf' h = absurd (cc h)
  set_int-Keeps {f} same (some v) conf conf' h = elim (Outcome-cases (atoi v)) [
    | inl (n, e) ↦
        let is = returned_inj (sym (ap (λ o. o >>= λ n. returned (f n conf)) e) ∙ h) in
        ap g (sym is) ∙ same n conf
    | inr bad ↦ absurd (ground arith)
  ]

  set_addr-Keeps :
      (get : Config → List ℕ) {f : List ℕ → Config → Config}
      → ((a : List ℕ) (c : Config) → g (f a c) ≡ g c)
      → Keeps g (set_addr get f)
  unfolding set_addr
  set_addr-Keeps get same none conf conf' h = absurd (cc h)
  set_addr-Keeps get {f} same (some v) conf conf' h =
      elim (Outcome-cases (strcpy (get conf) (v ++ 0 ∷ []))) [
        | inl (a, e) ↦
            let is = returned_inj (sym (ap (λ o. o >>= λ a. returned (f a conf)) e) ∙ h) in
            ap g (sym is) ∙ same a conf
        | inr bad ↦ absurd (ground arith)
      ]

  skip-Keeps : Keeps g skip
  unfolding skip
  skip-Keeps value conf conf' h = ap g (sym (returned_inj h))

  -- A line for another key leaves the member as it was.
  branch_of-Keeps :
      (key k : List ℕ) (table : List (List ℕ × Action))
      → same_word k key ≡ false
      → All (λ (b : List ℕ × Action). (same_word b.0 key ≡ true) ⊎ Keeps g b.1) table
      → Keeps g (branch_of k table)
  branch_of-Keeps key k [] other h value conf conf' r = skip-Keeps value conf conf' r
  branch_of-Keeps key k ((k', a) ∷ rest) other h value conf conf' r =
      elim (Bool-cases (same_word k k')) [
        | inl e ↦
            let taken : a value conf ≡ returned conf' =
              ap (λ b. (if b then a else branch_of k rest) value conf) (sym e) ∙ r in
            elim h.0 [
              | inl own ↦
                  absurd (
                    cc (other, subst (λ w. same_word w key ≡ true) (sym (same_word-eq k k' e)) own))
              | inr keeps ↦ keeps value conf conf' taken
            ]
        | inr e ↦
            branch_of-Keeps key k rest other h.1 value conf conf'
              (ap (λ b. (if b then a else branch_of k rest) value conf) (sym e) ∙ r)
      ]

-- A key and the member that it sets.
record Setting (key : List ℕ) (g : Config → ℤ) : Type 0 where
  assign : ℤ → Config → Config
  own : branch_of key branches ≡ set_int assign
  sets : (n : ℤ) (c : Config) → g (assign n c) ≡ n
  others : All (λ (b : List ℕ × Action). (same_word b.0 key ≡ true) ⊎ Keeps g b.1) branches

module _ {key : List ℕ} {g : Config → ℤ} (s : Setting key g) where
  words_lem :
      (k : List ℕ) (value : Option (List ℕ)) (conf : Config) {conf' : Config}
      → branch_of k branches value conf ≡ returned conf'
      → int_of key (some k, value) (g conf) ≡ returned (g conf')
  unfolding int_of set_int
  words_lem k value conf {conf'} h = elim (Bool-cases (same_word k key)) [
    | inl e ↦
        let mine : set_int s.assign value conf ≡ returned conf' =
          ap (λ a. a value conf) (sym s.own)
          ∙ ap (λ w. branch_of w branches value conf) (sym (same_word-eq k key e))
          ∙ h in
        assigned value e mine
    | inr e ↦
        let kept : g conf' ≡ g conf =
          branch_of-Keeps g key k branches e s.others value conf conf' h in
        other value e kept
  ]
    where
      assigned :
          (value : Option (List ℕ))
          → same_word k key ≡ true
          → set_int s.assign value conf ≡ returned conf'
          → int_of key (some k, value) (g conf) ≡ returned (g conf')
      assigned none e h = absurd (cc h)
      assigned (some v) e h = elim (Outcome-cases (atoi v)) [
        | inl (n, read) ↦
            let is =
              returned_inj (sym (ap (λ o. o >>= λ n. returned (s.assign n conf)) read) ∙ h) in
            rw e (read ∙ ap returned (sym (s.sets n conf) ∙ ap g is))
        | inr bad ↦ absurd (ground arith)
      ]

      other :
          (value : Option (List ℕ))
          → same_word k key ≡ false
          → g conf' ≡ g conf
          → int_of key (some k, value) (g conf) ≡ returned (g conf')
      other none e kept = rw (e, kept)
      other (some v) e kept = rw (e, kept)

  line_lem :
      (line : List ℕ) (conf : Config) {conf' : Config}
      → parse_line line conf ≡ returned conf'
      → (scan line >>= λ words. int_of key words (g conf)) ≡ returned (g conf')
  unfolding parse_line int_of
  line_lem line conf {conf'} h = elim (Outcome-cases (scan line)) [
    | inl ((none, value), e) ↦ absurd (ground arith)
    | inl ((some k, value), e) ↦
        let branch : branch_of k branches value conf ≡ returned conf' = ground arith in
        rw e (words_lem k value conf branch)
    | inr bad ↦ absurd (ground arith)
  ]

  lines_lem :
      (lines : List (List ℕ)) (conf : Config) {conf' : Config}
      → parse_lines lines conf ≡ returned conf'
      → last_int key lines (g conf) ≡ returned (g conf')
  unfolding parse_lines last_int
  lines_lem [] conf h = ap (λ o. o >>= λ c. returned (g c)) h
  lines_lem (line ∷ rest) conf {conf'} h = elim (Outcome-cases (parse_line line conf)) [
    | inl (c, e) ↦
        let tail : parse_lines rest c ≡ returned conf' =
          sym (ap (λ o. o >>= λ c. parse_lines rest c) e) ∙ h in
        sym (>>=-assoc (scan line) (λ words. int_of key words (g conf)) (last_int key rest))
        ∙ ap (λ o. o >>= last_int key rest) (line_lem line conf e)
        ∙ lines_lem rest c tail
    | inr bad ↦ absurd (ground arith)
  ]

maxinst-Setting : Setting key_maxinst (λ c. c.maxinst)
maxinst-Setting = record {
  assign = λ n conf. record conf { maxinst = n };
  own = refl;
  sets = λ n c. refl;
  others = (
    inr (set_int-Keeps _ (λ n c. refl)),
    (
      inr (skip-Keeps _),
      (
        inr (set_int-Keeps _ (λ n c. refl)),
        (
          inr (set_int-Keeps _ (λ n c. refl)),
          (
            inr (set_int-Keeps _ (λ n c. refl)),
            (
              inr (set_addr-Keeps _ _ (λ a c. refl)),
              (
                inr (set_addr-Keeps _ _ (λ a c. refl)),
                (
                  inr (set_addr-Keeps _ _ (λ a c. refl)),
                  (
                    inr (set_addr-Keeps _ _ (λ a c. refl)),
                    (
                      inr (set_int-Keeps _ (λ n c. refl)),
                      (
                        inr (set_int-Keeps _ (λ n c. refl)),
                        (
                          inr (set_int-Keeps _ (λ n c. refl)),
                          (
                            inr (set_int-Keeps _ (λ n c. refl)),
                            (
                              inl refl,
                              (
                                inr (set_int-Keeps _ (λ n c. refl)),
                                (
                                  inr (set_int-Keeps _ (λ n c. refl)),
                                  (
                                    inr (set_int-Keeps _ (λ n c. refl)),
                                    (
                                      inr (set_int-Keeps _ (λ n c. refl)),
                                      (
                                        inr (set_int-Keeps _ (λ n c. refl)),
                                        (inr (set_int-Keeps _ (λ n c. refl)), tt),
                                      ),
                                    ),
                                  ),
                                ),
                              ),
                            ),
                          ),
                        ),
                      ),
                    ),
                  ),
                ),
              ),
            ),
          ),
        ),
      ),
    ),
  );
}

vlen-Setting : Setting key_vlen (λ c. c.vlen)
vlen-Setting = record {
  assign = λ n conf. record conf { vlen = n };
  own = refl;
  sets = λ n c. refl;
  others = (
    inr (set_int-Keeps _ (λ n c. refl)),
    (
      inr (skip-Keeps _),
      (
        inr (set_int-Keeps _ (λ n c. refl)),
        (
          inr (set_int-Keeps _ (λ n c. refl)),
          (
            inr (set_int-Keeps _ (λ n c. refl)),
            (
              inr (set_addr-Keeps _ _ (λ a c. refl)),
              (
                inr (set_addr-Keeps _ _ (λ a c. refl)),
                (
                  inr (set_addr-Keeps _ _ (λ a c. refl)),
                  (
                    inr (set_addr-Keeps _ _ (λ a c. refl)),
                    (
                      inr (set_int-Keeps _ (λ n c. refl)),
                      (
                        inr (set_int-Keeps _ (λ n c. refl)),
                        (
                          inr (set_int-Keeps _ (λ n c. refl)),
                          (
                            inr (set_int-Keeps _ (λ n c. refl)),
                            (
                              inr (set_int-Keeps _ (λ n c. refl)),
                              (
                                inr (set_int-Keeps _ (λ n c. refl)),
                                (
                                  inr (set_int-Keeps _ (λ n c. refl)),
                                  (
                                    inr (set_int-Keeps _ (λ n c. refl)),
                                    (
                                      inr (set_int-Keeps _ (λ n c. refl)),
                                      (inl refl, (inr (set_int-Keeps _ (λ n c. refl)), tt)),
                                    ),
                                  ),
                                ),
                              ),
                            ),
                          ),
                        ),
                      ),
                    ),
                  ),
                ),
              ),
            ),
          ),
        ),
      ),
    ),
  );
}

num_acceptors-Setting : Setting key_num_acceptors (λ c. c.num_acceptors)
num_acceptors-Setting = record {
  assign = λ n conf. record conf { num_acceptors = n };
  own = refl;
  sets = λ n c. refl;
  others = (
    inr (set_int-Keeps _ (λ n c. refl)),
    (
      inr (skip-Keeps _),
      (
        inr (set_int-Keeps _ (λ n c. refl)),
        (
          inr (set_int-Keeps _ (λ n c. refl)),
          (
            inr (set_int-Keeps _ (λ n c. refl)),
            (
              inr (set_addr-Keeps _ _ (λ a c. refl)),
              (
                inr (set_addr-Keeps _ _ (λ a c. refl)),
                (
                  inr (set_addr-Keeps _ _ (λ a c. refl)),
                  (
                    inr (set_addr-Keeps _ _ (λ a c. refl)),
                    (
                      inr (set_int-Keeps _ (λ n c. refl)),
                      (
                        inr (set_int-Keeps _ (λ n c. refl)),
                        (
                          inr (set_int-Keeps _ (λ n c. refl)),
                          (
                            inr (set_int-Keeps _ (λ n c. refl)),
                            (
                              inr (set_int-Keeps _ (λ n c. refl)),
                              (
                                inr (set_int-Keeps _ (λ n c. refl)),
                                (
                                  inr (set_int-Keeps _ (λ n c. refl)),
                                  (
                                    inr (set_int-Keeps _ (λ n c. refl)),
                                    (
                                      inr (set_int-Keeps _ (λ n c. refl)),
                                      (inr (set_int-Keeps _ (λ n c. refl)), (inl refl, tt)),
                                    ),
                                  ),
                                ),
                              ),
                            ),
                          ),
                        ),
                      ),
                    ),
                  ),
                ),
              ),
            ),
          ),
        ),
      ),
    ),
  );
}

-- Where a file is read, the number of instances, the size of the batches and the number of
-- acceptors are those of the last lines for them, and 0 where there is no such line.
pub parse_conf-last_int :
    (lines : List (List ℕ)) {conf : Config}
    → parse_conf (some lines) ≡ returned conf
    → (last_int key_maxinst lines (pos 0) ≡ returned conf.maxinst)
      × (last_int key_vlen lines (pos 0) ≡ returned conf.vlen)
      × (last_int key_num_acceptors lines (pos 0) ≡ returned conf.num_acceptors)
unfolding parse_conf
parse_conf-last_int lines h = (
  lines_lem maxinst-Setting lines init_conf h,
  lines_lem vlen-Setting lines init_conf h,
  lines_lem num_acceptors-Setting lines init_conf h,
)
