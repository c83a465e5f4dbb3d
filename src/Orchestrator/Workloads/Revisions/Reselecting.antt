-- ===== src/Orchestrator/Workloads/Revisions/Reselecting.antt =====
-- workloads.py: a rollback selects a set that is there, and creates none.
use mathlib.Core.Option.{some-injective}
use container_platform.Prelude.{
  ℕ, String, ◌≡◌, refl, sym, ap, ◌∙◌, subst, ◌⊎◌, inl, inr, Bool, true, false, ◌||◌, Option, none,
  some, List, [], ◌∷◌, All, length, ltb, leb, str_eq, Bool-cases, arith, eq_iff,
}
use container_platform.Orchestrator.Workloads.{
  ReplicaSet, Deployment, insert_by_revision, by_revision,
}
use container_platform.Orchestrator.Workloads.Revisions.{
  owned_by, find_set, last_or, find_last, target_found, ensure_target, revisions, RollbackError,
  Rollback, restore, restore_found, rollback_to, rollback,
}

-- The templates on record have the hashes of their sets.
abbrev pub IsRecorded : (String → String) → ReplicaSet → Type 0
IsRecorded hash rs = (t : String) → rs.template ≡ some t → hash t ≡ rs.hash

abbrev has_hash : String → List ReplicaSet → Bool
has_hash digest [] = false
has_hash digest (rs ∷ sets) = str_eq rs.hash digest || has_hash digest sets

-- A set of the list, on record.
abbrev IsOneOf : (String → String) → ReplicaSet → List ReplicaSet → Type 0
IsOneOf hash rs sets = IsRecorded hash rs × (has_hash rs.hash sets ≡ true)

later :
    (hash : String → String) (rs x : ReplicaSet) (sets : List ReplicaSet)
    → IsOneOf hash rs sets
    → IsOneOf hash rs (x ∷ sets)
later hash rs x sets (recorded, there) = (recorded, ground (arith, there))

first :
    (hash : String → String) (rs : ReplicaSet) (sets : List ReplicaSet)
    → IsRecorded hash rs
    → IsOneOf hash rs (rs ∷ sets)
first hash rs sets recorded = (recorded, rw ((eq_iff rs.hash rs.hash).1 refl) refl)

find_set-IsOneOf :
    (hash : String → String) (test : ReplicaSet → Bool) (sets : List ReplicaSet) (rs : ReplicaSet)
    → All (IsRecorded hash) sets
    → find_set test sets ≡ some rs
    → IsOneOf hash rs sets
unfolding find_set
find_set-IsOneOf hash test [] rs h e = cc
find_set-IsOneOf hash test (x ∷ sets) rs h e = elim (Bool-cases (test x)) [
  | inl holds ↦
      let q : x ≡ rs = ground (arith, rw holds at e) in
      subst (λ y. IsOneOf hash y (x ∷ sets)) q (first hash x sets h.0)
  | inr other ↦ later hash rs x sets (find_set-IsOneOf hash test sets rs h.1 (rw other at e))
]

last_or-IsOneOf :
    (hash : String → String) (x rs : ReplicaSet) (sets : List ReplicaSet) (o : Option ReplicaSet)
    → IsRecorded hash x
    → ((y : ReplicaSet) → o ≡ some y → IsOneOf hash y sets)
    → last_or x o ≡ some rs
    → IsOneOf hash rs (x ∷ sets)
unfolding last_or
last_or-IsOneOf hash x rs sets none h rest e =
    let q : x ≡ rs = ground (arith, e) in
    subst (λ y. IsOneOf hash y (x ∷ sets)) q (first hash x sets h)
last_or-IsOneOf hash x rs sets (some y) h rest e = later hash rs x sets (rest rs e)

find_last-IsOneOf :
    (hash : String → String) (test : ReplicaSet → Bool) (sets : List ReplicaSet) (rs : ReplicaSet)
    → All (IsRecorded hash) sets
    → find_last test sets ≡ some rs
    → IsOneOf hash rs sets
unfolding find_last
find_last-IsOneOf hash test [] rs h e = cc
find_last-IsOneOf hash test (x ∷ sets) rs h e = elim (Bool-cases (test x)) [
  | inl holds ↦
      last_or-IsOneOf hash x rs sets (find_last test sets) h.0
        (λ y f. find_last-IsOneOf hash test sets y h.1 f) (rw holds at e)
  | inr other ↦ later hash rs x sets (find_last-IsOneOf hash test sets rs h.1 (rw other at e))
]

abbrev template_of : Rollback → Option String
template_of (Rollback.rolled_back revision template) = some template
template_of (Rollback.raises e) = none

restore_template :
    (rs : ReplicaSet) (o : Option String) (revision : ℕ) (template : String)
    → restore rs o ≡ Rollback.rolled_back revision template
    → o ≡ some template
unfolding restore
restore_template rs none revision template e = ap template_of e
restore_template rs (some t) revision template e = elim (Bool-cases (str_eq t "")) [
  | inl empty ↦ let n : none ≡ some template = ap template_of (rw empty at e) in absurd (cc n)
  | inr full ↦ ap template_of (rw full at e)
]

restore_found-has_hash :
    (hash : String → String) (err : RollbackError) (o : Option ReplicaSet) (sets : List ReplicaSet)
    (revision : ℕ) (template : String)
    → ((y : ReplicaSet) → o ≡ some y → IsOneOf hash y sets)
    → restore_found err o ≡ Rollback.rolled_back revision template
    → has_hash (hash template) sets ≡ true
unfolding restore_found
restore_found-has_hash hash err none sets revision template h e =
    let n : none ≡ some template = ap template_of e in cc
restore_found-has_hash hash err (some rs) sets revision template h e =
    let (recorded, there) = h rs refl in
    let same = recorded template (restore_template rs rs.template revision template e) in
    ap (λ k. has_hash k sets) same ∙ there

-- A set that is one of a list.
abbrev pub IsAmong : ReplicaSet → List ReplicaSet → Type 0
IsAmong rs [] = ⊥
IsAmong rs (x ∷ sets) = (x ≡ rs) ⊎ IsAmong rs sets

find_set-IsAmong :
    (test : ReplicaSet → Bool) (sets : List ReplicaSet) (rs : ReplicaSet)
    → find_set test sets ≡ some rs
    → IsAmong rs sets
unfolding find_set
find_set-IsAmong test [] rs e = absurd (cc e)
find_set-IsAmong test (x ∷ sets) rs e = elim (Bool-cases (test x)) [
  | inl holds ↦ inl (some-injective x rs (rw holds at e))
  | inr other ↦ inr (find_set-IsAmong test sets rs (rw other at e))
]

insert_by_revision-IsAmong :
    (x rs : ReplicaSet) (sets : List ReplicaSet)
    → IsAmong rs (insert_by_revision x sets)
    → IsAmong rs (x ∷ sets)
unfolding insert_by_revision
insert_by_revision-IsAmong x rs [] h = h
insert_by_revision-IsAmong x rs (y ∷ sets) h = elim (Bool-cases (leb x.revision y.revision)) [
  | inl low ↦ rw low at h
  | inr high ↦
      let m : IsAmong rs (y ∷ insert_by_revision x sets) = rw high at h in
      elim m [
        | inl e ↦ inr (inl e)
        | inr rest ↦ elim (insert_by_revision-IsAmong x rs sets rest) [
          | inl e ↦ inl e
          | inr there ↦ inr (inr there)
        ]
      ]
]

by_revision-IsAmong :
    (rs : ReplicaSet) (sets : List ReplicaSet) → IsAmong rs (by_revision sets) → IsAmong rs sets
unfolding by_revision
by_revision-IsAmong rs [] h = h
by_revision-IsAmong rs (x ∷ sets) h = elim (insert_by_revision-IsAmong x rs (by_revision sets) h) [
  | inl e ↦ inl e
  | inr there ↦ inr (by_revision-IsAmong rs sets there)
]

owned_by-IsAmong :
    (key : String) (rs : ReplicaSet) (sets : List ReplicaSet)
    → IsAmong rs (owned_by key sets)
    → IsAmong rs sets
unfolding owned_by
owned_by-IsAmong key rs [] h = h
owned_by-IsAmong key rs (x ∷ sets) h = elim (Bool-cases (str_eq x.owner key)) [
  | inl mine ↦
      let m : IsAmong rs (x ∷ owned_by key sets) = rw mine at h in
      elim m [ inl e ↦ inl e | inr rest ↦ inr (owned_by-IsAmong key rs sets rest) ]
  | inr other ↦ inr (owned_by-IsAmong key rs sets (rw other at h))
]

-- A set with the hash is found.
find_hash :
    (digest : String) (sets : List ReplicaSet)
    → has_hash digest sets ≡ true
    → (rs : ReplicaSet) × (find_set (λ x. str_eq x.hash digest) sets ≡ some rs) × (rs.hash ≡ digest)
unfolding find_set
find_hash digest [] e = cc
find_hash digest (x ∷ sets) e = elim (Bool-cases (str_eq x.hash digest)) [
  | inl same ↦ (x, rw same refl, (eq_iff x.hash digest).0 same)
  | inr other ↦ let (rs, f, h) = find_hash digest sets (rw other at e) in (rs, rw other f, h)
]

rollback_to-has_hash :
    (hash : String → String) (current : String) (to : Option ℕ) (sets : List ReplicaSet)
    (revision : ℕ) (template : String)
    → All (IsRecorded hash) sets
    → rollback_to hash current to sets ≡ Rollback.rolled_back revision template
    → has_hash (hash template) sets ≡ true
unfolding rollback_to
rollback_to-has_hash hash current none sets revision template h e =
    restore_found-has_hash hash _ (find_last _ sets) sets revision template
      (λ y f. find_last-IsOneOf hash _ sets y h f) e
rollback_to-has_hash hash current (some r) sets revision template h e =
    restore_found-has_hash hash _ (find_set _ sets) sets revision template
      (λ y f. find_set-IsOneOf hash _ sets y h f) e

-- When the templates on record have the hashes of their sets, a rollback gives a template for which
-- `_ensure_target` finds one of the sets that are there, unchanged and with the hash of the template,
-- and creates none.
pub ensure_target-rollback :
    (name : String) (hash : String → String) (d : Deployment) (to : Option ℕ)
    (sets : List ReplicaSet) (revision : ℕ) (template : String)
    → All (IsRecorded hash) (revisions d.key sets)
    → rollback hash d to sets ≡ Rollback.rolled_back revision template
    → ((ensure_target name hash (record d { template = template }) sets).1 ≡ sets)
      × ((ensure_target name hash (record d { template = template }) sets).0.hash ≡ hash template)
      × IsAmong (ensure_target name hash (record d { template = template }) sets).0 sets
unfolding rollback ensure_target target_found revisions
ensure_target-rollback name hash d to sets revision template h e =
    let history = by_revision (owned_by d.key sets) in
    elim (Bool-cases (ltb (length history) 2)) [
      | inl few ↦ let n : none ≡ some template = ap template_of (rw few at e) in cc
      | inr enough ↦
          let there =
            rollback_to-has_hash hash d.template to history revision template h (rw enough at e) in
          let (rs, found, same) = find_hash (hash template) history there in
          (
            ap (λ o. (target_found name hash (record d { template = template }) o history sets).1)
                found,
            ap
                  (λ o.
                    (target_found name hash (record d { template = template }) o history
                      sets).0.hash)
                  found
                ∙ same,
            subst (λ (rs : ReplicaSet). IsAmong rs sets)
                (sym (
                  ap
                    (λ o.
                      (target_found name hash (record d { template = template }) o history sets).0)
                    found))
                (owned_by-IsAmong d.key rs sets (
                  by_revision-IsAmong rs (owned_by d.key sets)
                    (find_set-IsAmong (λ x. str_eq x.hash (hash template)) history rs found))),
          )
    ]
