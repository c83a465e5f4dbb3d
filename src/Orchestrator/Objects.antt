-- ===== src/Orchestrator/Objects.antt =====
-- objects.py: what the stores hold. The spec and the status are JSON values, of any type `V` here:
-- the stores copy them and compare two specs. A time is a natural number, zero if it is not set.
-- `copy` has no counterpart: a value of the model is never shared and then changed.
use container_platform.Prelude.Dict
use container_platform.Prelude.Dict.{Dict}
use container_platform.Prelude.{
  ℕ, String, Bool, true, false, ◌&&◌, Option, none, some, [], ◌∷◌, str_eq, ◌≡◌, refl,
}

pub record Meta : Type 0 where
  pub name : String
  pub namespace : String
  pub uid : String
  pub resource_version : ℕ
  pub generation : ℕ
  pub labels : Dict String
  pub annotations : Dict String
  pub owner : String
  pub created_at : ℕ
  pub deleted_at : ℕ

pub record Object (V : Type 0) : Type 0 where
  pub kind : String
  pub meta : Meta
  pub spec : V
  pub status : V

-- `f"{w}/{s}"`
unfoldable pub slashed : String → String → String
slashed String.[] s = String.◌∷◌ "/" s
slashed (String.◌∷◌ c w) s = String.◌∷◌ c (slashed w s)

-- The errors of the stores, with the key that they name. `resync` is the `ConflictError` of
-- `events_since`, with the revision that was asked for and the oldest that is kept.
pub data StoreError : Type 0 where
  conflict : String → StoreError
  resync : ℕ → ℕ → StoreError
  not_found : String → StoreError
  already_exists : String → StoreError

pub data Result (A : Type 0) : Type 0 where
  ok : A → Result A
  err : StoreError → Result A

label_is : Option String → String → Bool
label_is none v = false
label_is (some w) v = str_eq w v

module _ {V : Type 0} where
  unfoldable pub key : Object V → String
  unfolding slashed
  key o = slashed o.kind (slashed o.meta.namespace o.meta.name)

  unfoldable pub matches : Dict String → Object V → Bool
  unfolding label_is
  matches [] o = true
  matches ((k, v) ∷ selector) o = label_is (Dict.lookup k o.meta.labels) v && matches selector o

  -- `new_object`; the uid and the time are those that it reads.
  pub new_object : String → String → V → V → String → Dict String → String → String → ℕ → Object V
  new_object kind name spec empty namespace labels owner uid now = record {
    kind = kind;
    meta = record {
      name = name;
      namespace = namespace;
      uid = uid;
      resource_version = 0;
      generation = 1;
      labels = labels;
      annotations = [];
      owner = owner;
      created_at = now;
      deleted_at = 0;
    };
    spec = spec;
    status = empty;
  }

-- The JSON form of the metadata, as `from_json` reads it: keys may be missing.
pub record RawMeta : Type 0 where
  pub name : Option String
  pub namespace : Option String
  pub uid : Option String
  pub resource_version : Option ℕ
  pub generation : Option ℕ
  pub labels : Option (Dict String)
  pub annotations : Option (Dict String)
  pub owner : Option String
  pub created_at : Option ℕ
  pub deleted_at : Option ℕ

abbrev or_else {ℓ} : {A : Type ℓ} → Option A → A → A
or_else none d = d
or_else (some a) d = a

pub meta_to_json : Meta → RawMeta
meta_to_json m = record {
  name = some m.name;
  namespace = some m.namespace;
  uid = some m.uid;
  resource_version = some m.resource_version;
  generation = some m.generation;
  labels = some m.labels;
  annotations = some m.annotations;
  owner = some m.owner;
  created_at = some m.created_at;
  deleted_at = some m.deleted_at;
}

-- `none` is the `KeyError` for a missing name.
pub meta_from_json : RawMeta → Option Meta
meta_from_json r = elim r.name [
  | none ↦ none
  | some name ↦ some (record {
    name = name;
    namespace = or_else r.namespace "default";
    uid = or_else r.uid "";
    resource_version = or_else r.resource_version 0;
    generation = or_else r.generation 1;
    labels = or_else r.labels [];
    annotations = or_else r.annotations [];
    owner = or_else r.owner "";
    created_at = or_else r.created_at 0;
    deleted_at = or_else r.deleted_at 0;
  })
]

-- The metadata survives the way through JSON.
pub meta_from_json-meta_to_json : (m : Meta) → meta_from_json (meta_to_json m) ≡ some m
unfolding meta_from_json meta_to_json
meta_from_json-meta_to_json m = refl
