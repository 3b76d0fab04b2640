-- ===== src/Audit/Json.antt =====
-- The values that extensions/audit/contracts.py puts on the wire, and Python's access to them. An
-- integer there counts things or nanoseconds. A float is its bit pattern, as nothing computes with
-- it. Where the code would carry on with a value of another type than the annotated one, the model
-- has the error `untyped`.
use sagittarius_engine.Prelude.{
  ℕ, ◌≡◌, refl, String, string_eq, Bool, Option, none, some, List, [], ◌∷◌, ◌==◌, ap, sym,
  Bool-cases, inl, inr, string_eq, nat_eq, ==_iff, arith, if◌then◌else◌, All,
}

mutual
  pub data Json : Type 0 where
    null : Json
    bool : Bool → Json
    int : ℕ → Json
    float : ℕ → Json
    text : String → Json
    arr : Items → Json
    obj : Fields → Json

  pub data Items : Type 0 where
    nil : Items
    cons : Json → Items → Items

  pub data Fields : Type 0 where
    end : Fields
    field : String → Json → Fields → Fields

pub data WireError : Type 0 where
  key_error : String → WireError
  value_error : String → WireError
  protocol_mismatch : ℕ → WireError
  untyped : WireError

pub data Result {ℓ} (A : Type ℓ) : Type ℓ where
  ok : A → Result A
  err : WireError → Result A

infixl 5 ◌>>=◌ ◌>>◌
abbrev pub ◌>>=◌ {ℓ κ} : {A : Type ℓ} {B : Type κ} → Result A → (A → Result B) → Result B
ok a >>= f = f a
err e >>= f = err e

abbrev pub ◌>>◌ {ℓ} : {A : Type ℓ} → Result (Unit {0}) → Result A → Result A
m >> k = m >>= λ _. k

-- `data.get(key)`.
unfoldable pub get : String → Fields → Option Json
get k end = none
get k (field j v d) = if j == k then some v else get k d

-- `out[key] = value`.
unfoldable pub put : String → Json → Fields → Fields
put k v end = field k v end
put k v (field j w d) = let rest = put k v d in if j == k then field k v d else field j w rest

pub get-put :
    (k j : String) (v : Json) (d : Fields)
    → get j (put k v d) ≡ (if k == j then some v else get j d)
unfolding get put
get-put k j v end = refl
get-put k j v (field i w d) = ground (arith, ==_iff k j, ==_iff i k, ==_iff i j, get-put k j v d)

-- `if …: out[key] = value`: with `none` where the test fails.
unfoldable pub put_some : String → Option Json → Fields → Fields
put_some k none d = d
put_some k (some v) d = put k v d

unfoldable pub or_else : Option Json → Option Json → Option Json
or_else none other = other
or_else (some v) other = some v

pub or_else-none : (o : Option Json) → or_else o none ≡ o
unfolding or_else
or_else-none none = refl
or_else-none (some v) = refl

pub get-put_some :
    (k j : String) (o : Option Json) (d : Fields)
    → get j (put_some k o d) ≡ (if k == j then or_else o (get j d) else get j d)
unfolding put_some or_else
get-put_some k j none d = ground arith
get-put_some k j (some v) d = get-put k j v d

abbrev pub required : String → Option Json → Result Json
required k none = err (key_error k)
required k (some v) = ok v

-- `data[key]`.
abbrev pub item : String → Fields → Result Json
item k d = required k (get k d)

abbrev pub default : Json → Option Json → Json
default v o = elim o [ none ↦ v | some w ↦ w ]

-- `data.get(key, default)`.
abbrev pub item_or : String → Json → Fields → Json
item_or k v d = default v (get k d)

abbrev pub as_bool : Json → Result Bool
as_bool (bool b) = ok b
as_bool _ = err untyped

abbrev pub as_int : Json → Result ℕ
as_int (int n) = ok n
as_int _ = err untyped

abbrev pub as_float : Json → Result ℕ
as_float (float x) = ok x
as_float _ = err untyped

abbrev pub as_text : Json → Result String
as_text (text s) = ok s
as_text _ = err untyped

abbrev pub as_dict : Json → Result Fields
as_dict (obj d) = ok d
as_dict _ = err untyped

module _ {A : Type 0} where
  -- `[write(x) for x in xs]`.
  unfoldable pub write_each : (A → Json) → List A → Items
  write_each write [] = nil
  write_each write (x ∷ xs) = cons (write x) (write_each write xs)

-- What is written of a string, a number or a list if it is not empty or zero, and of a value if it
-- is not `None`.
unfoldable pub text_field : String → Option Json
text_field s = if s == "" then none else some (text s)

unfoldable pub int_field : ℕ → Option Json
int_field n = if n == 0 then none else some (int n)

unfoldable pub list_field : {A : Type 0} → (A → Json) → List A → Option Json
list_field write [] = none
list_field write (x ∷ xs) = some (arr (write_each write (x ∷ xs)))

unfoldable pub option_field : {A : Type 0} → (A → Json) → Option A → Option Json
option_field write none = none
option_field write (some a) = some (write a)

-- A string or `None`.
abbrev pub text_or_null : Option String → Json
text_or_null none = null
text_or_null (some s) = text s

-- `[name, t]`, and `(str(name), int(t))` of what can be unpacked.
abbrev pub write_pair : String × ℕ → Json
write_pair p = arr (cons (text p.0) (cons (int p.1) nil))

abbrev pub read_pair : Json → Result (String × ℕ)
read_pair (arr (cons a (cons b nil))) = do name ← as_text a; t ← as_int b; ok (name, t)
read_pair (arr _) = err (value_error "unpack")
read_pair _ = err untyped

module _ {A : Type 0} where
  -- The record that a dict stands for.
  abbrev pub as_record : (Fields → Result A) → Json → Result A
  as_record read v = as_dict v >>= read

  -- `None if value is None else read(value)`.
  abbrev pub as_optional : (Json → Result A) → Json → Result (Option A)
  as_optional read null = ok none
  as_optional read v = do a ← read v; ok (some a)

  -- `tuple(read(v) for v in values)`.
  unfoldable pub read_each : (Json → Result A) → Items → Result (List A)
  read_each read nil = ok []
  read_each read (cons v vs) = do a ← read v; rest ← read_each read vs; ok (a ∷ rest)

  abbrev pub as_list : (Json → Result A) → Json → Result (List A)
  as_list read (arr vs) = read_each read vs
  as_list read _ = err untyped

  -- Values that are read back as they were written, also in a list. `P` says which values.
  pub read_each-write_each :
      (read : Json → Result A) (write : A → Json) (P : A → Type 0)
      → ((a : A) → P a → read (write a) ≡ ok a)
      → (xs : List A) → All P xs
      → read_each read (write_each write xs) ≡ ok xs
  unfolding read_each write_each
  read_each-write_each read write P h [] p = refl
  read_each-write_each read write P h (x ∷ xs) p =
      rw (h x p.0, read_each-write_each read write P h xs p.1)

  pub as_list-write_each :
      (read : Json → Result A) (write : A → Json)
      → ((a : A) → read (write a) ≡ ok a)
      → (xs : List A) → read_each read (write_each write xs) ≡ ok xs
  unfolding read_each write_each
  as_list-write_each read write h [] = refl
  as_list-write_each read write h (x ∷ xs) = rw (h x, as_list-write_each read write h xs)

pub text_or_null_lem : (s : Option String) → as_optional as_text (text_or_null s) ≡ ok s
text_or_null_lem none = refl
text_or_null_lem (some s) = refl

pub text_field_lem : (s : String) → as_text (default (text "") (text_field s)) ≡ ok s
unfolding text_field
text_field_lem s = elim (Bool-cases (s == "")) [
  | inl empty ↦ rw empty (ap ok (sym ((==_iff s "").0 empty)))
  | inr full ↦ rw full
]

pub int_field_lem : (n : ℕ) → as_int (default (int 0) (int_field n)) ≡ ok n
unfolding int_field
int_field_lem n = ground arith

module _ {A : Type 0} where
  pub list_field_lem :
      (read : Json → Result A) (write : A → Json) (xs : List A)
      → read_each read (write_each write xs) ≡ ok xs
      → as_list read (default (arr nil) (list_field write xs)) ≡ ok xs
  unfolding list_field write_each read_each
  list_field_lem read write [] h = refl
  list_field_lem read write (x ∷ xs) h = h

  -- A dict is read as a record, and is not `None`.
  pub option_field_lem :
      (read : Fields → Result A) (write : A → Fields) (o : Option A)
      → ((a : A) → read (write a) ≡ ok a)
      → as_optional (as_record read) (default null (option_field (λ a. obj (write a)) o)) ≡ ok o
  unfolding option_field
  option_field_lem read write none h = refl
  option_field_lem read write (some a) h = rw (h a)

pub option_text_lem :
    (o : Option String) → as_optional as_text (default null (option_field text o)) ≡ ok o
unfolding option_field
option_text_lem none = refl
option_text_lem (some s) = refl
