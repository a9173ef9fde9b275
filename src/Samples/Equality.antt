-- ===== src/Samples/Equality.antt =====
-- An equality of documents, for the places where the theorems take that of the database: it compares
-- them part by part, fields in their order.
use run_state.Base.{Bool, true, false, not, ◌&&◌, str_eq, ◌≡◌, refl, eq_refl}
use run_state.Task.Json.{
  Json, null, boolean, number, string, array, object, Items, nil, item, Fields, end, field,
}

abbrev bool_eq : Bool → Bool → Bool
bool_eq true b = b
bool_eq false b = not b

unfoldable mutual
  pub json_eq : Json → Json → Bool
  json_eq null null = true
  json_eq (boolean a) (boolean b) = bool_eq a b
  json_eq (number a) (number b) = str_eq a b
  json_eq (string a) (string b) = str_eq a b
  json_eq (array a) (array b) = items_eq a b
  json_eq (object a) (object b) = fields_eq a b
  json_eq _ _ = false

  pub items_eq : Items → Items → Bool
  items_eq nil nil = true
  items_eq (item a rest) (item b more) = json_eq a b && items_eq rest more
  items_eq _ _ = false

  pub fields_eq : Fields → Fields → Bool
  fields_eq end end = true
  fields_eq (field k a rest) (field l b more) = str_eq k l && json_eq a b && fields_eq rest more
  fields_eq _ _ = false

bool_eq_refl : (a : Bool) → bool_eq a a ≡ true
bool_eq_refl true = refl
bool_eq_refl false = refl

mutual
  unfolding json_eq items_eq fields_eq

  pub json_eq_refl : (a : Json) → json_eq a a ≡ true
  json_eq_refl null = refl
  json_eq_refl (boolean a) = bool_eq_refl a
  json_eq_refl (number a) = eq_refl a
  json_eq_refl (string a) = eq_refl a
  json_eq_refl (array a) = items_eq_refl a
  json_eq_refl (object a) = fields_eq_refl a

  pub items_eq_refl : (a : Items) → items_eq a a ≡ true
  items_eq_refl nil = refl
  items_eq_refl (item a rest) = rw (json_eq_refl a) (items_eq_refl rest)

  pub fields_eq_refl : (a : Fields) → fields_eq a a ≡ true
  fields_eq_refl end = refl
  fields_eq_refl (field k a rest) = rw (eq_refl k, json_eq_refl a) (fields_eq_refl rest)
