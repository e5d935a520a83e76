-- ===== src/Base/Json.antt =====
-- The values that `json.Unmarshal` makes of a text; a number is its text. The fields of an object
-- have an order here, which Go leaves open, and the first of a name counts.
use Prim.Native.String.{String}
use mathlib.Core.Path.{◌≡◌, refl}
use mathlib.Core.Bool.{Bool}
use mathlib.Core.Option.{Option, none, some}
use native.Mathlib.Omega.{arith}
use package.text.Mathlib.Text.{◌==◌}
use package.text.Mathlib.TextEquality.{eq_iff}
use copilot_pool_gateway.Base.Tests.{if◌then◌else◌}

mutual
  pub data Json : Type 0 where
    null : Json
    boolean : Bool → Json
    number : String → Json
    text : String → Json
    array : Items → Json
    object : Fields → Json

  pub data Items : Type 0 where
    nil : Items
    cons : Json → Items → Items

  pub data Fields : Type 0 where
    end : Fields
    field : String → Json → Fields → Fields

-- `m[k]`
unfoldable pub field_of : String → Fields → Option Json
field_of k end = none
field_of k (field j v fs) = if j == k then some v else field_of k fs

-- `m[k] = v`
unfoldable pub set_field : String → Json → Fields → Fields
set_field k v end = field k v end
set_field k v (field j w fs) =
    let rest = set_field k v fs in if j == k then field j v fs else field j w rest

-- `delete(m, k)`
unfoldable pub delete_field : String → Fields → Fields
delete_field k end = end
delete_field k (field j w fs) =
    let rest = delete_field k fs in if j == k then rest else field j w rest

abbrev pub text_or_empty : Option Json → String
text_or_empty (some (text s)) = s
text_or_empty _ = ""

-- `s, _ := m[k].(string)`
abbrev pub text_field : String → Fields → String
text_field k fs = text_or_empty (field_of k fs)

pub field_of-set_field :
    (k j : String) (v : Json) (fs : Fields)
    → field_of j (set_field k v fs) ≡ (if k == j then some v else field_of j fs)
unfolding field_of set_field
field_of-set_field k j v end = refl
field_of-set_field k j v (field i w fs) =
    ground (arith, eq_iff k j, eq_iff i k, eq_iff i j, field_of-set_field k j v fs)

pub field_of-delete_field :
    (k j : String) (fs : Fields)
    → field_of j (delete_field k fs) ≡ (if k == j then none else field_of j fs)
unfolding field_of delete_field
field_of-delete_field k j end = ground arith
field_of-delete_field k j (field i w fs) =
    ground (arith, eq_iff k j, eq_iff i k, eq_iff i j, field_of-delete_field k j fs)

-- Setting a field again to the value that it has.
pub set_field-set_field :
    (k : String) (v : Json) (fs : Fields) → set_field k v (set_field k v fs) ≡ set_field k v fs
unfolding set_field
set_field-set_field k v end = ground (arith, eq_iff k k)
set_field-set_field k v (field i w fs) = ground (arith, eq_iff i k, set_field-set_field k v fs)
