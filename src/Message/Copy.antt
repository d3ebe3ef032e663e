-- ===== src/Message/Copy.antt =====
-- `strcpy` and `memcpy` as the code uses them on the value field of a message. A buffer is the list
-- of its bytes; a copy that would leave either object is a fault.
use libnetpaxos.Prelude.{ℕ, zero, suc, ◌≤◌, ◌<◌, ◌≡◌, refl, List, [], ◌∷◌, ◌++◌, arith}
use libnetpaxos.Prelude.{Outcome, returned, fault, ◌>>=◌, length, take, drop, ap, >>=-eq-returned}

-- `strcpy(dst, src)`: copies up to and with the first zero byte.
unfoldable pub strcpy : List ℕ → List ℕ → Outcome (List ℕ)
strcpy [] src = fault
strcpy (d ∷ dst) [] = fault
strcpy (d ∷ dst) (zero ∷ src) = returned (0 ∷ dst)
strcpy (d ∷ dst) (suc c ∷ src) = strcpy dst src >>= λ rest. returned (suc c ∷ rest)

-- `memcpy(dst, src, n)`.
unfoldable pub memcpy : List ℕ → List ℕ → ℕ → Outcome (List ℕ)
memcpy dst src zero = returned dst
memcpy [] src (suc n) = fault
memcpy (d ∷ dst) [] (suc n) = fault
memcpy (d ∷ dst) (c ∷ src) (suc n) = memcpy dst src n >>= λ rest. returned (c ∷ rest)

-- The bytes before the first zero byte, and the number of them.
abbrev pub c_string : List ℕ → List ℕ
c_string [] = []
c_string (zero ∷ xs) = []
c_string (suc c ∷ xs) = suc c ∷ c_string xs

abbrev pub strlen : List ℕ → ℕ
strlen xs = length (c_string xs)

-- A zero byte ends the string inside the buffer.
abbrev pub IsTerminated : List ℕ → Type 0
IsTerminated xs = strlen xs < length xs

-- The string is copied, and what stood behind it in the destination stays.
pub strcpy_lem :
    (dst src : List ℕ)
    → IsTerminated src
    → strlen src < length dst
    → strcpy dst src ≡ returned (c_string src ++ 0 ∷ drop (suc (strlen src)) dst)
unfolding strcpy
strcpy_lem [] src t f = elim f [ ]
strcpy_lem (d ∷ dst) [] t f = absurd (omega arith)
strcpy_lem (d ∷ dst) (zero ∷ src) t f = refl
strcpy_lem (d ∷ dst) (suc c ∷ src) t f =
    ap (λ o. o >>= λ rest. returned (suc c ∷ rest)) (strcpy_lem dst src (omega arith) (omega arith))

-- Otherwise the copy leaves an object.
pub strcpy_fault : (dst src : List ℕ) → length dst ≤ strlen src → strcpy dst src ≡ fault
unfolding strcpy
strcpy_fault [] src h = refl
strcpy_fault (d ∷ dst) [] h = refl
strcpy_fault (d ∷ dst) (zero ∷ src) h = absurd (omega arith)
strcpy_fault (d ∷ dst) (suc c ∷ src) h =
    ap (λ o. o >>= λ rest. returned (suc c ∷ rest)) (strcpy_fault dst src (omega arith))

pub length-strcpy :
    (dst src : List ℕ) {out : List ℕ} → strcpy dst src ≡ returned out → length out ≡ length dst
unfolding strcpy
length-strcpy [] src h = ground arith
length-strcpy (d ∷ dst) [] h = ground arith
length-strcpy (d ∷ dst) (zero ∷ src) h = ground arith
length-strcpy (d ∷ dst) (suc c ∷ src) {out} h =
    let (rest, e, q) = >>=-eq-returned (strcpy dst src) (λ r. returned (suc c ∷ r)) h in
    ground (arith, length-strcpy dst src e)

pub memcpy_lem :
    (n : ℕ) (dst src : List ℕ)
    → n ≤ length dst
    → n ≤ length src
    → memcpy dst src n ≡ returned (take n src ++ drop n dst)
unfolding memcpy
memcpy_lem zero dst src p q = refl
memcpy_lem (suc n) [] src p q = elim p [ ]
memcpy_lem (suc n) (d ∷ dst) [] p q = elim q [ ]
memcpy_lem (suc n) (d ∷ dst) (c ∷ src) p q =
    ap (λ o. o >>= λ rest. returned (c ∷ rest)) (memcpy_lem n dst src (omega arith) (omega arith))

pub memcpy-eq-take :
    (n : ℕ) (dst src : List ℕ) {out : List ℕ}
    → memcpy dst src n ≡ returned out
    → length dst ≡ n
    → out ≡ take n src
unfolding memcpy
memcpy-eq-take zero [] src h e = ground arith
memcpy-eq-take zero (d ∷ dst) src h e = absurd (omega arith)
memcpy-eq-take (suc n) [] src h e = absurd (omega arith)
memcpy-eq-take (suc n) (d ∷ dst) [] h e = cc
memcpy-eq-take (suc n) (d ∷ dst) (c ∷ src) h e =
    let (rest, q, p) = >>=-eq-returned (memcpy dst src n) (λ r. returned (c ∷ r)) h in
    let ih : rest ≡ take n src = memcpy-eq-take n dst src q (omega arith) in ground arith

pub length-memcpy :
    (n : ℕ) (dst src : List ℕ) {out : List ℕ}
    → memcpy dst src n ≡ returned out
    → length out ≡ length dst
unfolding memcpy
length-memcpy zero dst src h = ground arith
length-memcpy (suc n) [] src h = cc
length-memcpy (suc n) (d ∷ dst) [] h = cc
length-memcpy (suc n) (d ∷ dst) (c ∷ src) h =
    let (rest, q, p) = >>=-eq-returned (memcpy dst src n) (λ r. returned (c ∷ r)) h in
    ground (arith, length-memcpy n dst src q)
