-- ===== src/Raft/Store/Commands.antt =====
-- What the store holds after the commands that the server proposes.
use container_platform.Prelude.{
  ℕ, suc, String, ◌≡◌, refl, ap, ◌∙◌, Bool, false, ◌||◌, none, some, [], ◌∷◌, arith, str_eq,
  if◌then◌else◌,
}
use container_platform.Prelude.Dict.{Dict, lookup-insert, lookup-remove}
use container_platform.Raft.Store.{
  is_space, cut, split, store_parts, apply, get, spaced, set_command, del_command,
}

-- No character of the text is a space.
unfoldable pub has_space : String → Bool
has_space String.[] = false
has_space (String.◌∷◌ c s) = is_space c || has_space s

cut-spaced : (w s : String) → has_space w ≡ false → cut (spaced w s) ≡ (w, some s)
unfolding cut spaced has_space
cut-spaced String.[] s h = refl
cut-spaced (String.◌∷◌ c w) s h = ground (arith, cut-spaced w s)

spaced_assoc : (a b c : String) → spaced (spaced a b) c ≡ spaced a (spaced b c)
unfolding spaced
spaced_assoc String.[] b c = refl
spaced_assoc (String.◌∷◌ x a) b c = ap (String.◌∷◌ x) (spaced_assoc a b c)

cut-plain : (w : String) → has_space w ≡ false → cut w ≡ (w, none)
unfolding cut has_space
cut-plain String.[] h = refl
cut-plain (String.◌∷◌ c w) h = ground (arith, cut-plain w)

split-more : (n : ℕ) (s w r : String) → cut s ≡ (w, some r) → split (suc n) s ≡ w ∷ split n r
unfolding split
split-more n s w r h = rw (h, split) (ap (λ p. p.0 ∷ split n r) h)

split-one : (n : ℕ) (s w : String) → cut s ≡ (w, none) → split (suc n) s ≡ w ∷ []
unfolding split
split-one n s w h = rw (h, split) (ap (λ p. p.0 ∷ []) h)

split-zero : (s : String) → split 0 s ≡ s ∷ []
unfolding split
split-zero s = refl

split-set : (k v : String) → has_space k ≡ false → split 2 (set_command k v) ≡ "SET" ∷ k ∷ v ∷ []
split-set k v h =
    let first : cut (set_command k v) ≡ ("SET", some (spaced k v)) =
      unfold set_command in cut-spaced "SET" (spaced k v) (unfold has_space in refl) in
    split-more 1 _ _ _ first
    ∙ ap (λ r. "SET" ∷ r) (split-more 0 _ _ _ (cut-spaced k v h) ∙ ap (λ r. k ∷ r) (split-zero v))

split-del : (k : String) → has_space k ≡ false → split 2 (del_command k) ≡ "DEL" ∷ k ∷ []
split-del k h =
    let first : cut (del_command k) ≡ ("DEL", some k) =
      unfold del_command in cut-spaced "DEL" k (unfold has_space in refl) in
    split-more 1 _ _ _ first ∙ ap (λ r. "DEL" ∷ r) (split-one 0 _ _ (cut-plain k h))

apply_lem : (command : String) (d : Dict String) → apply command d ≡ store_parts (split 2 command) d
unfolding apply
apply_lem command d = refl

-- The command of `Set`, for a key without a space, writes the value at that key and changes no
-- other.
pub get-apply-set :
    (k v j : String) (d : Dict String)
    → has_space k ≡ false
    → get j (apply (set_command k v) d) ≡ (if str_eq k j then some v else get j d)
get-apply-set k v j d h =
    rw (apply_lem, split-set k v h) (unfold store_parts get in lookup-insert k j v d)

-- The command of `Del`, for a key without a space, removes that key and changes no other.
pub get-apply-del :
    (k j : String) (d : Dict String)
    → has_space k ≡ false
    → get j (apply (del_command k) d) ≡ (if str_eq k j then none else get j d)
get-apply-del k j d h =
    rw (apply_lem, split-del k h) (unfold store_parts get in lookup-remove k j d)

-- `Set` at a key that has a space writes another key: the part of it before the first space.
pub get-apply-set_space :
    (a b v j : String) (d : Dict String)
    → has_space a ≡ false
    → get j (apply (set_command (spaced a b) v) d)
      ≡ (if str_eq a j then some (spaced b v) else get j d)
get-apply-set_space a b v j d h =
    let same : set_command (spaced a b) v ≡ set_command a (spaced b v) =
      unfold set_command in ap (spaced "SET") (spaced_assoc a b v) in
    rw same (get-apply-set a (spaced b v) j d h)
