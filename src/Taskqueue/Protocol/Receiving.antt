-- ===== src/Taskqueue/Protocol/Receiving.antt =====
-- broker/protocol.py: `recv_exactly` over the pieces in which bytes arrive.
use container_platform.Prelude.{
  ℕ, zero, suc, ◌+◌, ◌-◌, ◌≤◌, ◌<◌, min, ◌≡◌, refl, sym, ap, ◌∙◌, inl, inr, false, List, [], ◌∷◌,
  ◌++◌, append-nil, append_assoc, arith, length, take, drop, ltb, Bool-cases, length-append,
  length-take, length-drop, drop-nil,
}
use container_platform.Taskqueue.Protocol.{ok, Socket, available, is_empty, recv_loop, recv_exactly}

take-nil : (n : ℕ) → take {A = ℕ} n [] ≡ []
take-nil zero = refl
take-nil (suc n) = refl

take_split : (c m : ℕ) (bs : List ℕ) → c ≤ m → take c bs ++ take (m - c) (drop c bs) ≡ take m bs
take_split zero m bs h = let q : m - 0 ≡ m = omega arith in rw q refl
take_split (suc c) zero bs h = absurd (omega arith)
take_split (suc c) (suc m) [] h = rw (take-nil (suc m - suc c)) refl
take_split (suc c) (suc m) (b ∷ bs) h =
    let q : suc m - suc c ≡ m - c = omega arith in
    rw q (ap (λ r. b ∷ r) (take_split c m bs (omega arith)))

drop_split : (c m : ℕ) (bs : List ℕ) → c ≤ m → drop (m - c) (drop c bs) ≡ drop m bs
drop_split zero m bs h = let q : m - 0 ≡ m = omega arith in rw q refl
drop_split (suc c) zero bs h = absurd (omega arith)
drop_split (suc c) (suc m) [] h = rw drop-nil refl
drop_split (suc c) (suc m) (b ∷ bs) h =
    let q : suc m - suc c ≡ m - c = omega arith in rw q (drop_split c m bs (omega arith))

is_empty-length : (bs : List ℕ) → 0 < length bs → is_empty bs ≡ false
unfolding is_empty
is_empty-length [] h = absurd (omega arith)
is_empty-length (b ∷ bs) h = refl

recv_loop_lem :
    (fuel n : ℕ) (buf : List ℕ) (s : Socket)
    → n ≤ fuel + length buf
    → length buf ≤ n
    → n ≤ length buf + length s.stream
    → ((recv_loop fuel n buf s).1 ≡ ok (buf ++ take (n - length buf) s.stream))
      × ((recv_loop fuel n buf s).0.stream ≡ drop (n - length buf) s.stream)
unfolding recv_loop
recv_loop_lem zero n buf s few some_left there =
    let done : n - length buf ≡ 0 = omega arith in rw done (ap ok (sym (append-nil buf)), refl)
recv_loop_lem (suc fuel) n buf s few some_left there = elim (Bool-cases (ltb (length buf) n)) [
  | inl more ↦
      let m = n - length buf in
      let some_missing : 0 < m = ground (arith, more) in
      let later = (available s.arrivals).1 in
      let c = min m (suc (available s.arrivals).0) in
      let left : Socket = record { stream = drop c s.stream; arrivals = later } in
      let size : length (take c s.stream) ≡ c = omega (arith, length-take c s.stream) in
      let longer : length (buf ++ take c s.stream) ≡ length buf + c =
        length-append buf (take c s.stream) ∙ ap (λ k. length buf + k) size in
      let rest =
        recv_loop_lem fuel n (buf ++ take c s.stream) left (omega (arith, longer))
          (omega (arith, longer)) (omega (arith, longer, length-drop c s.stream)) in
      let missing : n - length (buf ++ take c s.stream) ≡ m - c = omega (arith, longer) in
      let some_come : is_empty (take c s.stream) ≡ false =
        is_empty-length (take c s.stream) (omega arith) in
      rw more (
        rw some_come (
          rest.0
              ∙ (rw missing (
                  ap ok (
                    append_assoc buf _ _
                    ∙ ap (λ r. buf ++ r) (take_split c m s.stream (omega arith))))),
          rest.1 ∙ (rw missing (drop_split c m s.stream (omega arith))),
        ))
  | inr full ↦
      let done : n - length buf ≡ 0 = ground (arith, full) in
      rw full (rw done (ap ok (sym (append-nil buf)), refl))
]

-- `recv_exactly` gives the next `n` bytes if there are so many, in whatever pieces they arrive.
pub recv_exactly_lem :
    (n : ℕ) (s : Socket)
    → n ≤ length s.stream
    → ((recv_exactly n s).1 ≡ ok (take n s.stream))
      × ((recv_exactly n s).0.stream ≡ drop n s.stream)
unfolding recv_exactly
recv_exactly_lem n s there =
    let q : n - 0 ≡ n = omega arith in
    rw q at (recv_loop_lem n n [] s (omega arith) (omega arith) (omega arith))
