-- ===== src/Questions/Json.antt =====
-- The JSON values that the queues carry, and how Python reads them: truth, `str`, `float`, `int`,
-- iteration, and the test `in {None, ""}`. What `str`, `float` and `int` make of values of other
-- types is the platform's.
use meeting_overlay_assistan.Base.{
  ℕ, String, Bool, true, false, not, Option, none, some, List, [], ◌∷◌, Eq, ◌==◌, ◌!=◌,
  if◌then◌else◌, string_eq, nat_eq,
}
use meeting_overlay_assistan.Base.Text.{is_empty}
use meeting_overlay_assistan.Base.Outcome.{Result, ok, err, type_error, ◌>>=◌}

mutual
  pub data Json (F : Type 0) : Type 0 where
    null : Json F
    flag : Bool → Json F
    text : String → Json F
    whole : ℕ → Json F
    real : F → Json F
    array : Items F → Json F
    object : Fields F → Json F

  pub data Items (F : Type 0) : Type 0 where
    no_items : Items F
    item : Json F → Items F → Items F

  pub data Fields (F : Type 0) : Type 0 where
    no_fields : Fields F
    field : String → Json F → Fields F → Fields F

pub record Python (F : Type 0) : Type 0 where
  pub zero : F
  pub float_eq : Eq F
  pub to_str : Json F → String
  pub to_float : Json F → Result F
  pub to_int : Json F → Result ℕ

module _ {F : Type 0} where
  -- `payload.get(key)`
  unfoldable pub get : String → Fields F → Json F
  get key no_fields = null
  get key (field k v rest) = let later = get key rest in if k == key then v else later

  abbrev pub is_true : Python F → Json F → Bool
  is_true py null = false
  is_true py (flag b) = b
  is_true py (text s) = not (is_empty s)
  is_true py (whole n) = n != 0
  is_true py (real x) = ◌!=◌ ⦃e = py.float_eq⦄ x py.zero
  is_true py (array no_items) = false
  is_true py (array (item v vs)) = true
  is_true py (object no_fields) = false
  is_true py (object (field k v vs)) = true

  abbrev pub str : Python F → Json F → String
  str py (text s) = s
  str py v = py.to_str v

  abbrev pub float : Python F → Json F → Result F
  float py (real x) = ok x
  float py v = py.to_float v

  abbrev pub int : Python F → Json F → Result ℕ
  int py (whole n) = ok n
  int py v = py.to_int v

  -- `str(v or "")`
  abbrev pub text_of : Python F → Json F → String
  text_of py v = if is_true py v then str py v else ""

  -- `float(v or 0.0)`
  abbrev pub float_of : Python F → Json F → Result F
  float_of py v = if is_true py v then float py v else ok py.zero

  -- `int(v or now)`
  abbrev pub int_or : Python F → ℕ → Json F → Result ℕ
  int_or py now v = if is_true py v then int py v else ok now

  -- `int(v) if v is not None else None`
  abbrev pub int_given : Python F → Json F → Result (Option ℕ)
  int_given py null = ok none
  int_given py v = int py v >>= λ n. ok (some n)

  -- `str(v) if v not in {None, ""} else None`; a list and a dict have no hash.
  abbrev pub text_given : Python F → Json F → Result (Option String)
  text_given py null = ok none
  text_given py (text String.[]) = ok none
  text_given py (text (String.◌∷◌ c s)) = ok (some (String.◌∷◌ c s))
  text_given py (array vs) = err type_error
  text_given py (object fs) = err type_error
  text_given py v = ok (some (str py v))

  abbrev pub characters : String → Items F
  characters String.[] = no_items
  characters (String.◌∷◌ c s) = item (text (String.◌∷◌ c String.[])) (characters s)

  abbrev pub keys : Fields F → Items F
  keys no_fields = no_items
  keys (field k v rest) = item (text k) (keys rest)

  abbrev pub iterate : Json F → Result (Items F)
  iterate (array vs) = ok vs
  iterate (text s) = ok (characters s)
  iterate (object fs) = ok (keys fs)
  iterate v = err type_error

  -- `for item in (v or [])`
  abbrev pub iterate_or_none : Python F → Json F → Result (Items F)
  iterate_or_none py v = if is_true py v then iterate v else ok no_items

  -- `tuple(str(item) for item in items if item not in {None, ""})`
  unfoldable pub texts_of : Python F → Items F → Result (List String)
  texts_of py no_items = ok []
  texts_of py (item v vs) = do
    first ← text_given py v
    rest ← texts_of py vs
    ok (elim first [ none ↦ rest | some s ↦ s ∷ rest ])

  -- `tuple(read(item) for item in items if isinstance(item, dict))`
  unfoldable pub dicts_of : {A : Type 0} → (Fields F → Result A) → Items F → Result (List A)
  dicts_of read no_items = ok []
  dicts_of read (item (object fs) vs) = do
    first ← read fs
    rest ← dicts_of read vs
    ok (first ∷ rest)
  dicts_of read (item v vs) = dicts_of read vs

  -- `None` becomes null.
  abbrev pub text_or_null : Option String → Json F
  text_or_null none = null
  text_or_null (some s) = text s

  abbrev pub whole_or_null : Option ℕ → Json F
  whole_or_null none = null
  whole_or_null (some n) = whole n

  unfoldable pub text_items : List String → Items F
  text_items [] = no_items
  text_items (s ∷ ss) = item (text s) (text_items ss)

  -- `[item.to_payload() for item in items]`
  unfoldable pub object_items : {A : Type 0} → (A → Fields F) → List A → Items F
  object_items write [] = no_items
  object_items write (a ∷ rest) = item (object (write a)) (object_items write rest)
