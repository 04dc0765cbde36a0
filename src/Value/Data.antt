-- ===== src/Value/Data.antt =====
-- The dynamic values and the operations on `map[string]any`.
use integration_efi.Base.{
  ℕ, suc, ℤ, String, Bool, false, Option, none, some, List, [], ◌∷◌, ◌≡◌, refl, arith, ◌==◌, eq_iff,
  eq_refl, if◌then◌else◌, is_some,
}
use integration_efi.Value.Numbers.{Float}

mutual
  pub data Value : Type 0 where
    null : Value
    bool : Bool → Value
    int : ℤ → Value
    int64 : ℤ → Value
    float64 : Float → Value
    number : String → Value  -- json.Number
    string : String → Value
    texts : List String → Value  -- []string
    array : Values → Value  -- []any
    object : Fields → Value  -- map[string]any
    objects : Objects → Value  -- []map[string]any

  pub data Values : Type 0 where
    nil : Values
    cons : Value → Values → Values

  pub data Fields : Type 0 where
    end : Fields
    field : String → Value → Fields → Fields

  pub data Objects : Type 0 where
    none_left : Objects
    entry : Fields → Objects → Objects

-- m[k], with the second result of the two-valued form
unfoldable pub get : Fields → String → Option Value
get end k = none
get (field j v m) k = if j == k then some v else get m k

-- m[k] = v
unfoldable pub put : Fields → String → Value → Fields
put end k v = field k v end
put (field j w m) k v = if j == k then field j v m else field j w (put m k v)

-- The entries of a map but those under one key.
unfoldable pub without : Fields → String → Fields
without end k = end
without (field j w m) k = let rest = without m k in if j == k then rest else field j w rest

abbrev pub has : Fields → String → Bool
has m k = is_some (get m k)

-- len(m)
unfoldable pub size : Fields → ℕ
size end = 0
size (field j v m) = suc (size m)

unfoldable pub entries : Values → List Value
entries nil = []
entries (cons v vs) = v ∷ entries vs

unfoldable pub count_values : Values → ℕ
count_values nil = 0
count_values (cons v vs) = suc (count_values vs)

unfoldable pub rows_of : Objects → List Fields
rows_of none_left = []
rows_of (entry m ms) = m ∷ rows_of ms

unfoldable pub from_rows : List Fields → Objects
from_rows [] = none_left
from_rows (m ∷ ms) = entry m (from_rows ms)

-- v.(string)
abbrev pub as_string : Value → Option String
as_string (string s) = some s
as_string _ = none

-- v.(map[string]any)
abbrev pub as_object : Value → Option Fields
as_object (object m) = some m
as_object _ = none

-- v.([]any)
abbrev pub as_array : Value → Option Values
as_array (array vs) = some vs
as_array _ = none

-- v.(bool)
abbrev pub as_bool : Value → Option Bool
as_bool (bool b) = some b
as_bool _ = none

-- A missing key reads as nil.
unfoldable pub value_at : Fields → String → Value
unfolding get
value_at m k = elim (get m k) [ none ↦ null | some v ↦ v ]

-- s, ok := m[k].(string)
unfoldable pub string_at : Fields → String → Option String
unfolding value_at
string_at m k = as_string (value_at m k)

-- s, _ := m[k].(string)
unfoldable pub text_at : Fields → String → String
unfolding string_at
text_at m k = elim (string_at m k) [ none ↦ "" | some s ↦ s ]

-- fmt.Sprint(v) == "": nil prints as "<nil>", and a map or a list has its brackets
unfoldable pub sprints_empty : Value → Bool
sprints_empty (string s) = s == ""
sprints_empty (number s) = s == ""
sprints_empty _ = false

-- for _, k := range keys { if v, ok := from[k]; ok { to[k] = v } }
unfoldable pub copy_keys : List String → Fields → Fields → Fields
copy_keys [] from to = to
copy_keys (k ∷ ks) from to =
    copy_keys ks from (elim (get from k) [ none ↦ to | some v ↦ put to k v ])

-- A nil map reads as an empty one.
abbrev pub or_end : Option Fields → Fields
or_end none = end
or_end (some m) = m

-- for k, v := range from { to[k] = v }
unfoldable pub union : Fields → Fields → Fields
union to end = to
union to (field k v from) = union (put to k v) from

unfoldable pub object_at : Fields → String → Option Fields
unfolding value_at
object_at m k = as_object (value_at m k)

-- The entries of a list that are maps.
unfoldable pub members_of : Values → List Fields
members_of nil = []
members_of (cons (object m) vs) = m ∷ members_of vs
members_of (cons _ vs) = members_of vs

pub get-put :
    (m : Fields) (k j : String) (v : Value)
    → get (put m k v) j ≡ (if k == j then some v else get m j)
unfolding get put
get-put end k j v = refl
get-put (field i w m) k j v = ground (arith, eq_iff k j, eq_iff i k, eq_iff i j, get-put m k j v)

pub get-put_self : (m : Fields) (k : String) (v : Value) → get (put m k v) k ≡ some v
get-put_self m k v = simp (get-put, eq_refl)

pub get-without :
    (m : Fields) (k j : String) → get (without m k) j ≡ (if k == j then none else get m j)
unfolding get without
get-without end k j = ground arith
get-without (field i w m) k j =
    ground (arith, eq_iff k j, eq_iff i k, eq_iff i j, get-without m k j)
