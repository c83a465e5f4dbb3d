-- ===== src/Raft/Client/Reaching.antt =====
-- A client that is given enough attempts reaches the leader.
use Prim.Native.Nat.{◌%◌}
use native.Mathlib.Nat.{mod-eq_of_lt, mod_self}
use mathlib.Core.Option.{some-injective}
use container_platform.Prelude.{
  ℕ, zero, suc, ◌+◌, ◌-◌, ◌<◌, ◌≡◌, refl, sym, ap, ◌∙◌, String, true, false, Option, none, some,
  List, [], ◌∷◌, length, get_elem?, arith, ◌⊎◌, inl, inr, ◌≢◌, subst, str_eq, eq_iff, ltb,
  if◌then◌else◌, Bool-cases, Option-cases,
}
use container_platform.Raft.Service.{WriteReply}
use container_platform.Raft.Client.{
  KvClient, address, rotate, index_of, next_place, moved_to, follow_hint, after_write, is_done,
  ask_at, write_loop, write,
}

-- How often a client rotates from one place to another.
distance : ℕ → ℕ → ℕ → ℕ
distance n i c = if ltb i c then i + n - c else i - c

-- A rotation is a step on, or from the last place to the first.
rotate_cases :
    (n c : ℕ) → c < n → ((c + 1 < n) × ((c + 1) % n ≡ c + 1)) ⊎ ((c + 1 ≡ n) × ((c + 1) % n ≡ 0))
rotate_cases n c h = elim (Bool-cases (ltb (c + 1) n)) [
  | inl inside ↦ inl (ground arith, mod-eq_of_lt (ground arith))
  | inr last ↦ let e : c + 1 ≡ n = ground arith in inr (e, ap (λ k. k % n) e ∙ mod_self n)
]

distance-rotate :
    (n i c : ℕ)
    → c < n
    → i < n
    → c ≢ i
    → ((c + 1) % n < n) × (distance n i ((c + 1) % n) + 1 ≡ distance n i c)
unfolding distance
distance-rotate n i c hc hi other = elim (rotate_cases n c hc) [
  | inl (inside, e) ↦ rw e (omega arith, ground (arith, other))
  | inr (last, e) ↦ rw e (omega arith, ground (arith, other))
]

distance_pos : (n i c : ℕ) → c < n → c ≢ i → 0 < distance n i c
unfolding distance
distance_pos n i c h other = ground (arith, other)

distance_self : (n i : ℕ) → distance n i i ≡ 0
unfolding distance
distance_self n i = ground arith

distance-lt : (n i c : ℕ) → c < n → i < n → distance n i c < n
unfolding distance
distance-lt n i c hc hi = ground arith

get_elem?-index_of :
    (a : String) (bs : List String) (i : ℕ)
    → index_of a bs ≡ some i
    → (get_elem? bs i ≡ some a) × (i < length bs)
unfolding index_of next_place
get_elem?-index_of a [] i h = absurd (cc h)
get_elem?-index_of a (b ∷ bs) i h = elim (Bool-cases (str_eq b a)) [
  | inl same ↦
      let e : 0 ≡ i = some-injective 0 i (rw same at h) in
      subst (λ j. (get_elem? (b ∷ bs) j ≡ some a) × (j < suc (length bs))) e
        (ap some ((eq_iff b a).0 same), omega arith)
  | inr other ↦ elim (Option-cases (index_of a bs)) [
    | inl none_there ↦ absurd (cc (sym (rw (other, none_there) at h)))
    | inr (j, e) ↦
        let (found, inside) = get_elem?-index_of a bs j e in
        let next : suc j ≡ i = some-injective (suc j) i (rw (other, e) at h) in
        subst (λ k. (get_elem? (b ∷ bs) k ≡ some a) × (k < suc (length bs))) next
          (found, omega arith)
  ]
]

-- The answers of a cluster: one address writes, and whoever does not names it or nobody.
module _ (ask : ℕ → String → Option WriteReply) (addrs : List String) (a : String) (i : ℕ)
    (there : index_of a addrs ≡ some i)
    (writes : (k : ℕ) → (r : WriteReply) × (ask k a ≡ some r) × (r.ok ≡ true))
    (hints : (k : ℕ) (b : String) (r : WriteReply)
      → ask k b ≡ some r
      → r.ok ≡ false
      → (r.leader_hint ≡ "") ⊎ (r.leader_hint ≡ a)) where
  at : ℕ → KvClient
  at c = record { addrs = addrs; current = c }

  hint-at :
      (c : ℕ) (hint : String)
      → (hint ≡ "") ⊎ (hint ≡ a)
      → let next = if str_eq hint "" then rotate (at c) else follow_hint hint (at c) in
        (next ≡ at ((c + 1) % length addrs)) ⊎ (next ≡ at i)
  unfolding rotate follow_hint at moved_to
  hint-at c hint told = elim (Bool-cases (str_eq hint "")) [
    | inl empty ↦ rw empty (inl refl)
    | inr full ↦ elim told [
      | inl nobody ↦ absurd (cc ((eq_iff hint "").1 nobody))
      | inr named ↦ rw (full, named, there) (inr refl)
    ]
  ]

  -- After an answer that is not the end the client is one place on, or at the address that writes.
  after_write-at :
      (k c : ℕ) (o : Option String)
      → is_done (ask_at (ask k) o) ≡ false
      → (after_write (ask_at (ask k) o) (at c) ≡ at ((c + 1) % length addrs))
        ⊎ (after_write (ask_at (ask k) o) (at c) ≡ at i)
  unfolding after_write rotate at
  after_write-at k c none h = inl refl
  after_write-at k c (some b) h = elim (Option-cases (ask k b)) [
    | inl e ↦ rw e (inl refl)
    | inr (r, e) ↦ let told = hints k b r e (rw e at h) in rw e (hint-at c r.leader_hint told)
  ]

  -- The address that writes is not the one that was asked.
  place-other : (k c : ℕ) → is_done (ask_at (ask k) (address (at c))) ≡ false → c ≢ i
  unfolding at
  place-other k c h e =
      let (found, inside) = get_elem?-index_of a addrs i there in
      let (r, answer, ok) = writes k in absurd (cc (e, found, answer, ok, h))

  write_loop-at :
      (left c : ℕ)
      → c < length addrs
      → distance (length addrs) i c < left
      → (write_loop ask left (at c)).1 ≡ true
  write_loop-at zero c inside near = absurd (omega arith)
  write_loop-at (suc left) c inside near =
      elim (Bool-cases (is_done (ask_at (ask left) (address (at c))))) [
        | inl is_over ↦ unfold write_loop in rw is_over refl
        | inr goes_on ↦
            let n = length addrs in
            let r = ask_at (ask left) (address (at c)) in
            let other = place-other left c goes_on in
            let there_inside = (get_elem?-index_of a addrs i there).1 in
            let (inside', closer) = distance-rotate n i c inside there_inside other in
            let step : (write_loop ask (suc left) (at c)).1
                ≡ (write_loop ask left (after_write r (at c))).1 =
              unfold write_loop in rw goes_on refl in
            let from = λ (k : KvClient). (write_loop ask left k).1 in
            step ∙ elim (after_write-at left c (address (at c)) goes_on) [
              | inl e ↦ ap from e ∙ write_loop-at left ((c + 1) % n) inside' (omega arith)
              | inr e ↦
                  ap from e
                  ∙ write_loop-at left i there_inside
                      (omega (arith, distance_self n i, distance_pos n i c inside other))
            ]
      ]

-- If one of its addresses writes at every attempt, and the others give no hint or name that address,
-- a client gets its write done, wherever it starts.
pub write_reaches :
    (ask : ℕ → String → Option WriteReply) (c : KvClient) (a : String) (i : ℕ)
    → index_of a c.addrs ≡ some i
    → c.current < length c.addrs
    → ((k : ℕ) → (r : WriteReply) × (ask k a ≡ some r) × (r.ok ≡ true))
    → ((k : ℕ) (b : String) (r : WriteReply)
        → ask k b ≡ some r
        → r.ok ≡ false
        → (r.leader_hint ≡ "") ⊎ (r.leader_hint ≡ a))
    → (write ask c).1 ≡ true
write_reaches ask c a i there inside writes hints =
    let n = length c.addrs in
    let near = distance-lt n i c.current inside (get_elem?-index_of a c.addrs i there).1 in
    unfold write at in write_loop-at ask c.addrs a i there writes hints n c.current inside near
