-- ===== src/Container/Netlink/Attributes.antt =====
-- netlink.py: attributes that are put one after the other are read back.
use container_platform.Prelude.{
  ℕ, zero, suc, ◌+◌, ◌-◌, ◌*◌, ◌/◌, ◌%◌, ◌≤◌, ◌<◌, ◌≡◌, refl, ap, ◌∙◌, sym, true, false, ◌||◌, ◌&&◌,
  Option, none, some, ◌==◌, ==_iff, inl, inr, Bool-cases, if◌then◌else◌, [], ◌∷◌, ◌++◌,
  append_assoc, arith, All, length, length-append, take, drop, take-append, drop-append, ltb, ◌>>=◌,
}
use container_platform.Container.Netlink.{
  Bytes, align, zeros, attribute, Attributes, set_attribute, parse_from, parse_attributes,
}

length-zeros : (n : ℕ) → length (zeros n) ≡ n
length-zeros zero = refl
length-zeros (suc n) = ap suc (length-zeros n)

-- The attributes of a message, put one after the other.
unfoldable pub attributes : Attributes → Option Bytes
unfolding attribute
attributes [] = some []
attributes ((kind, payload) ∷ more) = do
  first ← attribute kind payload
  rest ← attributes more
  some (first ++ rest)

unfoldable pub set_all : Attributes → Attributes → Attributes
unfolding set_attribute
set_all [] out = out
set_all ((kind, payload) ∷ more) out = set_all more (set_attribute kind payload out)

-- Where an attribute stands in front, the loop takes it and goes on behind its padding.
parse_first :
    (fuel kind : ℕ) (payload rest : Bytes) (out : Attributes)
    → length payload + 4 < 65536
    → kind < 65536
    → parse_from
        (suc fuel)
        ((length payload + 4) % 256
          ∷ (length payload + 4) / 256
          ∷ kind % 256
          ∷ kind / 256
          ∷ ((payload ++ zeros (align (length payload + 4) - (length payload + 4))) ++ rest))
        out
      ≡ parse_from fuel rest (set_attribute kind payload out)
unfolding parse_from
parse_first fuel kind payload rest out small fits =
    let n = length payload + 4 in
    let pad = zeros (align n - n) in
    let e : n % 256 + 256 * (n / 256) ≡ n = omega arith in
    let k : kind % 256 + 256 * (kind / 256) ≡ kind = omega arith in
    let body = (payload ++ pad) ++ rest in
    let padded : n ≤ align n = unfold align in omega arith in
    let whole : length (payload ++ pad) ≡ align n - 4 =
      omega (arith, length-append payload pad, length-zeros (align n - n), padded) in
    let big : (ltb n 4 || ltb (length body + 4) n) ≡ false =
      let l = length-append (payload ++ pad) rest in ground (arith, l, whole, padded) in
    let cut : n - 4 ≡ length payload = omega arith in
    let taken : take (n - 4) body ≡ payload =
      ap (λ i. take i body) cut
      ∙ ap (take (length payload)) (append_assoc payload pad rest)
      ∙ take-append payload (pad ++ rest) in
    let left : drop (align n - 4) body ≡ rest =
      ap (λ i. drop i body) (sym whole) ∙ drop-append (payload ++ pad) rest in
    rw (e, k, big, taken, left) refl

attribute_fits :
    (kind : ℕ) (payload : Bytes)
    → length payload + 4 < 65536
    → kind < 65536
    → attribute kind payload
      ≡ some (
          (length payload + 4) % 256
          ∷ (length payload + 4) / 256
          ∷ kind % 256
          ∷ kind / 256
          ∷ (payload ++ zeros (align (length payload + 4) - (length payload + 4))))
unfolding attribute
attribute_fits kind payload small fits =
    let both : (ltb (length payload + 4) 65536 && ltb kind 65536) ≡ true = ground arith in
    rw both refl

-- Kinds and lengths fit in 16 bits.
abbrev pub Fits : Attributes → Type 0
Fits attrs = All (λ a. (length a.1 + 4 < 65536) × (a.0 < 65536)) attrs

parse_nothing : (fuel : ℕ) (out : Attributes) → parse_from fuel [] out ≡ out
unfolding parse_from
parse_nothing zero out = refl
parse_nothing (suc fuel) out = refl

enough_fuel :
    (fuel kind : ℕ) (payload rest : Bytes) (out more : Attributes)
    → length payload + 4 < 65536
    → kind < 65536
    → ((left : ℕ)
        → length rest ≤ left
        → parse_from left rest (set_attribute kind payload out)
          ≡ set_all more (set_attribute kind payload out))
    → length (
        (length payload + 4) % 256
        ∷ (length payload + 4) / 256
        ∷ kind % 256
        ∷ kind / 256
        ∷ ((payload ++ zeros (align (length payload + 4) - (length payload + 4))) ++ rest))
      ≤ fuel
    → parse_from fuel
        ((length payload + 4) % 256
          ∷ (length payload + 4) / 256
          ∷ kind % 256
          ∷ kind / 256
          ∷ ((payload ++ zeros (align (length payload + 4) - (length payload + 4))) ++ rest))
        out
      ≡ set_all more (set_attribute kind payload out)
enough_fuel zero kind payload rest out more small fits reads enough = absurd (omega (arith, enough))
enough_fuel (suc fuel) kind payload rest out more small fits reads enough =
    let l =
      length-append (payload ++ zeros (align (length payload + 4) - (length payload + 4))) rest in
    parse_first fuel kind payload rest out small fits ∙ reads fuel (omega (arith, l, enough))

parse_all :
    (attrs : Attributes) (out : Attributes)
    → Fits attrs
    → (buffer : Bytes) × (attributes attrs ≡ some buffer)
      × ((fuel : ℕ) → length buffer ≤ fuel → parse_from fuel buffer out ≡ set_all attrs out)
unfolding attributes set_all
parse_all [] out fits = ([], refl, λ fuel enough. parse_nothing fuel out)
parse_all ((kind, payload) ∷ more) out ((small, kind_fits), fits) =
    let n = length payload + 4 in
    let pad = zeros (align n - n) in
    let (rest, e, reads) = parse_all more (set_attribute kind payload out) fits in
    (
      n % 256 ∷ n / 256 ∷ kind % 256 ∷ kind / 256 ∷ ((payload ++ pad) ++ rest),
      ap (λ o. o >>= λ first. attributes more >>= λ r. some (first ++ r))
            (attribute_fits kind payload small kind_fits)
          ∙ ap
              (λ o. o >>= λ r.
                some ((n % 256 ∷ n / 256 ∷ kind % 256 ∷ kind / 256 ∷ (payload ++ pad)) ++ r))
              e,
      λ fuel enough. enough_fuel fuel kind payload rest out more small kind_fits reads enough,
    )

-- out.get(kind)
abbrev pub get_attribute : ℕ → Attributes → Option Bytes
get_attribute kind [] = none
get_attribute kind ((k, p) ∷ out) = if k == kind then some p else get_attribute kind out

-- The payload of the last attribute of a kind, or what is given for want of one.
abbrev pub last_of : ℕ → Attributes → Option Bytes → Option Bytes
last_of kind [] o = o
last_of kind ((k, p) ∷ more) o = last_of kind more (if k == kind then some p else o)

get-set_attribute :
    (kind k : ℕ) (p : Bytes) (out : Attributes)
    → get_attribute kind (set_attribute k p out)
      ≡ (if k == kind then some p else get_attribute kind out)
unfolding set_attribute
get-set_attribute kind k p [] = refl
get-set_attribute kind k p ((j, q) ∷ out) =
    let ih = get-set_attribute kind k p out in
    elim (Bool-cases (j == k)) [
      | inl same ↦ let e : j ≡ k = (==_iff j k).0 same in rw (same, e) (ground arith)
      | inr other ↦ rw other (ground (arith, ih, other))
    ]

get-set_all :
    (kind : ℕ) (attrs out : Attributes)
    → get_attribute kind (set_all attrs out) ≡ last_of kind attrs (get_attribute kind out)
unfolding set_all
get-set_all kind [] out = refl
get-set_all kind ((k, p) ∷ more) out =
    get-set_all kind more (set_attribute k p out)
    ∙ ap (last_of kind more) (get-set_attribute kind k p out)

-- Attributes whose kinds and lengths fit in 16 bits are written, and `parse_attributes` of what they
-- make, with the padding between them, has at each kind the payload of the last attribute of that
-- kind, and nothing at the other kinds.
pub parse_attributes-attributes :
    (attrs : Attributes)
    → Fits attrs
    → (buffer : Bytes) × (attributes attrs ≡ some buffer)
      × ((kind : ℕ) → get_attribute kind (parse_attributes buffer) ≡ last_of kind attrs none)
unfolding parse_attributes
parse_attributes-attributes attrs fits =
    let (buffer, e, reads) = parse_all attrs [] fits in
    (
      buffer,
      e,
      λ kind.
          ap (get_attribute kind) (reads (length buffer) (omega arith)) ∙ get-set_all kind attrs [],
    )
