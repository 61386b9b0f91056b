-- ===== src/Schema.antt =====
-- src/resgraph/schema.py and the label rule of src/resgraph/graph/schema.py: update messages, the
-- validators that a parsed message has passed, and the type that an id's prefix names.
use Prim.Native.Char.{code}
use resgraph.Prelude.{
  ℕ, String, ◌≡◌, Bool, true, false, ◌&&◌, ◌||◌, not, Option, none, some, List, [], ◌∷◌, any, all,
  str_eq, ◌==◌, refl, arith, eq_iff, and_right, if◌then◌else◌,
}

pub data Op : Type 0 where
  delete upsert : Op

pub data ResourceType : Type 0 where
  asg container db host lb sg vm : ResourceType

pub data RelType : Type 0 where
  runs_on attached_to routes_to member_of : RelType

-- `str | int | float | bool`: an integer by its magnitude and sign, a float by its digits, its
-- sign and its exponent. Attributes are stored and compared, never computed with.
pub data Value : Type 0 where
  text : String → Value
  int : (negative : Bool) (magnitude : ℕ) → Value
  float : (negative : Bool) (digits exponent : ℕ) → Value
  bool : Bool → Value

abbrev pub Attrs : Type 0
Attrs = List (String × Value)

pub record Relationship : Type 0 where
  pub rel_type : RelType
  pub target_id : String

pub record UpdateMessage : Type 0 where
  pub event_time : ℕ
  pub sequence : ℕ
  pub op : Op
  pub resource_type : ResourceType
  pub resource_id : String
  pub attrs : Attrs
  pub relationships : List Relationship

-- `resource_id.split("-", 1)[0]`
unfoldable pub prefix_of : String → String
prefix_of String.[] = String.[]
prefix_of (String.◌∷◌ c s) =
    let rest = prefix_of s in if code c == b'-' then String.[] else String.◌∷◌ c rest

-- `ResourceType(...)`'s value, and the node label.
abbrev pub type_name : ResourceType → String
type_name asg = "asg"
type_name container = "container"
type_name db = "db"
type_name host = "host"
type_name lb = "lb"
type_name sg = "sg"
type_name vm = "vm"

-- `_TYPE_PREFIXES`, in alphabetical order.
abbrev pub all_types : List ResourceType
all_types = asg ∷ container ∷ db ∷ host ∷ lb ∷ sg ∷ vm ∷ []

find_type : String → List ResourceType → Option ResourceType
find_type p [] = none
find_type p (t ∷ ts) = if str_eq (type_name t) p then some t else find_type p ts

-- `none` is the `ValueError` of an id whose prefix is no known type.
unfoldable pub label_for : String → Option ResourceType
unfolding prefix_of find_type
label_for resource_id = find_type (prefix_of resource_id) all_types

abbrev pub reserved_attr_keys : List String
reserved_attr_keys = "id" ∷ "applied_seq" ∷ "deleted" ∷ "deleted_seq" ∷ "phantom" ∷ []

abbrev is_none : {A : Type 0} → Option A → Bool
is_none none = true
is_none (some _) = false

abbrev is_empty : {A : Type 0} → List A → Bool
is_empty [] = true
is_empty (_ ∷ _) = false

-- `Relationship._target_prefix_is_a_known_type`
unfoldable pub target_prefix_is_a_known_type : Relationship → Bool
target_prefix_is_a_known_type r = not (is_none (label_for r.target_id))

abbrev is_delete : Op → Bool
is_delete delete = true
is_delete upsert = false

-- `UpdateMessage._delete_carries_no_payload`
unfoldable pub delete_carries_no_payload : UpdateMessage → Bool
delete_carries_no_payload m =
    not (is_delete m.op && (not (is_empty m.attrs) || not (is_empty m.relationships)))

-- `UpdateMessage._attrs_avoid_reserved_keys`
unfoldable pub attrs_avoid_reserved_keys : UpdateMessage → Bool
attrs_avoid_reserved_keys m = not (any (λ kv. any (λ k. str_eq k kv.0) reserved_attr_keys) m.attrs)

-- `UpdateMessage._id_prefix_matches_type`
unfoldable pub id_prefix_matches_type : UpdateMessage → Bool
id_prefix_matches_type m = str_eq (prefix_of m.resource_id) (type_name m.resource_type)

-- The validators of a message and of each of its relationships.
unfoldable pub model_validate : UpdateMessage → Bool
model_validate m =
    all target_prefix_is_a_known_type m.relationships
    && delete_carries_no_payload m
    && attrs_avoid_reserved_keys m
    && id_prefix_matches_type m

abbrev pub IsValid : UpdateMessage → Type 0
IsValid m = model_validate m ≡ true

find_type-type_name : (t : ResourceType) → find_type (type_name t) all_types ≡ some t
unfolding find_type
find_type-type_name asg = refl
find_type-type_name container = refl
find_type-type_name db = refl
find_type-type_name host = refl
find_type-type_name lb = refl
find_type-type_name sg = refl
find_type-type_name vm = refl

-- A validated message names a resource whose label can be derived.
pub label_for-IsValid :
    (m : UpdateMessage) → IsValid m → label_for m.resource_id ≡ some m.resource_type
unfolding label_for model_validate id_prefix_matches_type
label_for-IsValid m h =
    let same = (eq_iff (prefix_of m.resource_id) (type_name m.resource_type)).0 (and_right _ _ h) in
    rw same (find_type-type_name m.resource_type)

-- So does each of its relationships.
pub relationships-IsValid :
    (m : UpdateMessage) → IsValid m → all target_prefix_is_a_known_type m.relationships ≡ true
unfolding model_validate
relationships-IsValid m h = ground arith

pub known_label :
    (r : Relationship)
    → target_prefix_is_a_known_type r ≡ true
    → (t : ResourceType) × (label_for r.target_id ≡ some t)
unfolding target_prefix_is_a_known_type
known_label r h = ground arith
