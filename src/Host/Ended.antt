-- ===== src/Host/Ended.antt =====
-- How code that makes calls ends: it exits at the first call that fails, or all its calls have worked and
-- it returns with a property of its value and its calls. It never does something undefined.
use libnetpaxos.Prelude.{List, [], ◌∷◌, ◌++◌, returned, exited, All, All-append, ap, sym, ◌∙◌, ◌≡◌}
use mathlib.Core.List.{append_assoc}
use libnetpaxos.Host.{Host, Boot, Call, Worked, ◌>>=◌}

pub data Ended {A : Type 0} (h : Host) (Q : A → List Call → Type 0) : Boot A → Type 0 where
  gave_up :
      (before : List Call) (last : Call) {calls : List Call}
      → All (Worked h) before
      → ¬ (Worked h last)
      → calls ≡ before ++ last ∷ []
      → Ended h Q (exited, calls)
  done :
      (a : A) (calls : List Call) → All (Worked h) calls → Q a calls → Ended h Q (returned a, calls)

pub Ended-bind :
    {A B : Type 0} {h : Host} {Q : A → List Call → Type 0} {R : B → List Call → Type 0} {m : Boot A}
    (f : A → Boot B)
    → Ended h Q m
    → ((a : A) (calls : List Call) → Q a calls → Ended h (λ b more. R b (calls ++ more)) (f a))
    → Ended h R (m >>= f)
Ended-bind f (gave_up before last ok bad e) next = gave_up before last ok bad e
Ended-bind {h} {R} f (done a calls ok q) next = joined calls ok (next a calls q)
  where
    joined :
        {b : Boot _} (calls : List Call)
        → All (Worked h) calls
        → Ended h (λ x more. R x (calls ++ more)) b
        → Ended h R (b.0, calls ++ b.1)
    joined calls ok (gave_up before last ok' bad e) =
        gave_up (calls ++ before) last (All-append (Worked h) calls before ok ok') bad
          (ap (λ l. calls ++ l) e ∙ sym (append_assoc calls before (last ∷ [])))
    joined calls ok (done x more ok' r) =
        done x (calls ++ more) (All-append (Worked h) calls more ok ok') r
