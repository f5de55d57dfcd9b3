-- ===== src/Dns/Answers.antt =====
-- internal/dnsdoh/server.go: the answers to queries over TCP, their size and the deadline.
use outline_gate.Prelude.{
  ℕ, zero, suc, ◌+◌, ◌*◌, ◌/◌, ◌%◌, ◌≤◌, ◌<◌, ◌≡◌, ◌⊎◌, refl, inl, inr, Bool, Bool-cases, true,
  false, [], ◌∷◌, ◌++◌, Option, some, none, arith, ltb, leb, ◌==◌, if◌then◌else◌, if-both, length,
  take, length-append, take-length-append,
}
use outline_gate.Go.Ip.{Bytes}
use outline_gate.Dns.{
  Client, Response, max_message, body_of, answer_of, resolve, servfail, id_of, or_servfail, Times,
  write_frame, answer_frame, handle_tcp,
}

length-take-bound : (n : ℕ) (xs : Bytes) → length (take n xs) ≤ n
length-take-bound zero xs = omega arith
length-take-bound (suc n) [] = omega arith
length-take-bound (suc n) (x ∷ xs) = omega (arith, length-take-bound n xs)

-- The size of a message: its header at least, and at most what is read.
abbrev pub FairSize : Bytes → Type 0
FairSize r = (12 ≤ length r) × (length r ≤ 4096)

servfail-FairSize : (q : Bytes) → FairSize (servfail q)
unfolding servfail
servfail-FairSize [] = (omega arith, omega arith)
servfail-FairSize (a ∷ []) = (omega arith, omega arith)
servfail-FairSize (a ∷ b ∷ q) = (omega arith, omega arith)

abbrev AllFair : Option Bytes → Type 0
AllFair none = Unit {0}
AllFair (some r) = FairSize r

body_of-AllFair : (status : ℕ) (b : Option Bytes) → AllFair (body_of status b)
body_of-AllFair status none = tt
body_of-AllFair status (some b) =
    if-both AllFair (status == 200) _ _ (long_enough (ltb (length (take max_message b)) 12) refl) tt
  where
    long_enough :
        (s : Bool)
        → ltb (length (take max_message b)) 12 ≡ s
        → AllFair (if s then none else some (take max_message b))
    long_enough true e = tt
    long_enough false e = (ground arith, length-take-bound max_message b)

answer_of-AllFair : (o : Option Response) → AllFair (answer_of o)
answer_of-AllFair none = tt
answer_of-AllFair (some r) = body_of-AllFair r.status r.body

resolve-AllFair : (client : Client) (q : Bytes) → AllFair (resolve client q)
unfolding resolve
resolve-AllFair client q =
    if-both AllFair (ltb (length q) 12) none (answer_of (client q)) tt
      (answer_of-AllFair (client q))

or_servfail-FairSize : (q : Bytes) (o : Option Bytes) → AllFair o → FairSize (or_servfail q o)
or_servfail-FairSize q none h = servfail-FairSize q
or_servfail-FairSize q (some r) h = h

or_servfail-cases :
    (q : Bytes) (o : Option Bytes)
    → (o ≡ some (or_servfail q o)) ⊎ ((o ≡ none) × (take 2 (or_servfail q o) ≡ id_of q))
unfolding servfail
or_servfail-cases q (some r) = inl refl
or_servfail-cases [] none = inr (refl, refl)
or_servfail-cases (a ∷ []) none = inr (refl, refl)
or_servfail-cases (a ∷ b ∷ q) none = inr (refl, refl)

size_bytes : (n : ℕ) → n / 256 * 256 + n % 256 ≡ n
size_bytes n = omega arith

answer_frame-whole :
    (timeout : ℕ) (t : Times) (client : Client) (q rest : Bytes)
    → 0 < length q
    → length q ≤ 4096
    → t.query < timeout
    → answer_frame timeout t client (length q) (q ++ rest)
      ≡ write_frame timeout t (or_servfail q (resolve client q))
answer_frame-whole timeout t client q rest some_bytes short read =
    let one : (length q == 0) ≡ false = ground arith in
    let fits : ltb max_message (length q) ≡ false = ground arith in
    let there : ltb (length (q ++ rest)) (length q) ≡ false =
      ground (arith, length-append q rest) in
    let early : leb timeout t.query ≡ false = ground arith in
    rw (one, fits, there, early, take-length-append q rest) refl

-- What the client gets: the frame, or its length alone, or nothing, by the writes that come in time.
abbrev pub Written : ℕ → Times → Bytes → Bytes → Type 0
Written timeout t r out =
    ((t.second_write < timeout) × (out ≡ (length r / 256) ∷ (length r % 256) ∷ r))
    ⊎ ((t.first_write < timeout)
        × (timeout ≤ t.second_write)
        × (out ≡ (length r / 256) ∷ (length r % 256) ∷ []))
    ⊎ ((timeout ≤ t.first_write) × (out ≡ []))

write_frame-Written :
    (timeout : ℕ) (t : Times) (r : Bytes)
    → length r ≤ 4096
    → t.first_write ≤ t.second_write
    → Written timeout t r (write_frame timeout t r)
write_frame-Written timeout t r most ordered =
    let high : length r / 256 % 256 ≡ length r / 256 = omega (arith, most) in
    elim (Bool-cases (leb timeout t.second_write)) [
      | inr soon ↦
          let first : leb timeout t.first_write ≡ false = ground arith in
          inl (ground arith, rw (first, soon, high) refl)
      | inl late ↦ elim (Bool-cases (leb timeout t.first_write)) [
        | inr half ↦ inr (inl (ground arith, ground arith, rw (half, late, high) refl))
        | inl never ↦ inr (inr (ground arith, rw (never, late) refl))
      ]
    ]

-- A query of 1 to 4096 bytes over TCP that is read before the deadline, whatever follows it, has an answer
-- of 12 to 4096 bytes: the message that the client of HTTPS brings, or the failure with the two bytes of the
-- query's identifier. The first write comes no later than the second. If both come before the deadline, the
-- answer is sent behind its length; if only the first does, its length alone; and if neither, nothing is.
pub handle_tcp-framed :
    (timeout : ℕ) (t : Times) (client : Client) (q rest : Bytes)
    → 0 < length q
    → length q ≤ 4096
    → t.header < timeout
    → t.query < timeout
    → t.first_write ≤ t.second_write
    → (r : Bytes) × ((resolve client q ≡ some r)
        ⊎ ((resolve client q ≡ none) × (take 2 r ≡ id_of q)))
      × FairSize r
      × Written timeout t r
          (handle_tcp timeout t client ((length q / 256) ∷ (length q % 256) ∷ (q ++ rest)))
unfolding handle_tcp
handle_tcp-framed timeout t client q rest some_bytes short header read ordered =
    let r : Bytes = or_servfail q (resolve client q) in
    let fair = or_servfail-FairSize q (resolve client q) (resolve-AllFair client q) in
    let early : leb timeout t.header ≡ false = ground arith in
    (
      r,
      or_servfail-cases q (resolve client q),
      fair,
      rw
          (
            early,
            size_bytes (length q),
            answer_frame-whole timeout t client q rest some_bytes short read,
          )
          (write_frame-Written timeout t r fair.1 ordered),
    )
