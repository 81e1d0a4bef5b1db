-- ===== src/Runtime/Request/Valid.antt =====
-- What the normal form of a payload satisfies.
use student_mentor_allocatio.Base.{
  ℕ, ◌-◌, ◌≤◌, ◌≡◌, ◌≢◌, refl, sym, inl, inr, Bool, true, false, not, ◌||◌, Option, none, some,
  List, [], ◌∷◌, length, drop, ltb, arith, Bool-cases, if◌then◌else◌,
}
use student_mentor_allocatio.Base.Int.{ℤ, pos, negsuc}
use student_mentor_allocatio.Base.Text.{Text}
use student_mentor_allocatio.Python.{Unicode, PyValue, int}
use student_mentor_allocatio.Runtime.Script.{Normalized}
use student_mentor_allocatio.Runtime.Request.{
  Payload, is_empty, allowed_center, allowed_gender, code_map_get, normalize_student_id,
  normalize_int_field, checked_code, derived_code, code_of, code_for, parsed_field, non_empty,
  ◌>>=◌, normalize_payload,
}

pub record IsNormal (isdigit : Text → Bool) (n : Normalized) : Type 0 where
  pub two : length n.year_code ≡ 2
  pub digits : isdigit n.year_code ≡ true
  pub center : n.center ≤ 2
  pub named : n.student_id ≢ []

-- What a result says of the steps before it.
bind_some :
    {A B : Type 0} (o : Option A) (f : A → Option B) (b : B)
    → o >>= f ≡ some b
    → (a : A) × ((o ≡ some a) × (f a ≡ some b))
bind_some none f b e = absurd (ground (arith, e))
bind_some (some a) f b e = (a, (refl, e))

some_of_if :
    {A : Type 0} (t : Bool) (o : Option A) (a : A) → (if t then o else none) ≡ some a → o ≡ some a
some_of_if true o a e = e
some_of_if false o a e = absurd (ground (arith, e))

some_of_else :
    {A : Type 0} (t : Bool) (o : Option A) (a : A) → (if t then none else o) ≡ some a → o ≡ some a
some_of_else true o a e = absurd (ground (arith, e))
some_of_else false o a e = e

non_empty_lem : (s t : Text) → non_empty s ≡ some t → t ≢ []
non_empty_lem [] t e f = absurd (ground (arith, e))
non_empty_lem (c ∷ s) t e f = absurd (ground (arith, e, f))

allowed_center-bound : (z : ℤ) (c : ℕ) → allowed_center z ≡ some c → c ≤ 2
allowed_center-bound (pos n) c e = ground (arith, e)
allowed_center-bound (negsuc n) c e = absurd (ground (arith, e))

module _ (u : Unicode) (isdigit : Text → Bool) where
  checked_code_lem :
      (raw code : Text)
      → checked_code u isdigit raw ≡ some code
      → (length code ≡ 2) × (isdigit code ≡ true)
  checked_code_lem raw code e = (ground (arith, e), ground (arith, e))

  derived_code_lem :
      (year code : Text)
      → derived_code u isdigit year ≡ some code
      → (length code ≡ 2) × (isdigit code ≡ true)
  derived_code_lem year code e = elim (Bool-cases (ltb (length year) 4)) [
    | inl t ↦ absurd (ground (arith, rw t at e))
    | inr f ↦ checked_code_lem (drop (length year - 2) year) code (rw f at e)
  ]

  year_code_lem :
      (o : Option Text) (year code : Text)
      → elim o [ some c ↦ checked_code u isdigit c | none ↦ derived_code u isdigit year ]
        ≡ some code
      → (length code ≡ 2) × (isdigit code ≡ true)
  year_code_lem none year code e = derived_code_lem year code e
  year_code_lem (some c) year code e = checked_code_lem c code e

  code_of_lem :
      (code_map : List (Text × Text)) (year code : Text)
      → code_of u isdigit code_map year ≡ some code
      → (length code ≡ 2) × (isdigit code ≡ true)
  code_of_lem code_map year code e =
      year_code_lem (code_map_get code_map year) year code
        (some_of_else (is_empty year || not (isdigit year)) _ code e)

  pub code_for_lem :
      (code_map : List (Text × Text)) (year : PyValue) (code : Text)
      → code_for u isdigit code_map year ≡ some code
      → (length code ≡ 2) × (isdigit code ≡ true)
  unfolding code_for
  code_for_lem code_map year code e = code_of_lem code_map _ code e

  parsed_center :
      (normalized : Text) (c : ℕ)
      → parsed_field u isdigit allowed_center normalized ≡ some c
      → c ≤ 2
  parsed_center normalized c e =
      let (z, o) =
        bind_some (int u normalized) allowed_center c (some_of_if (isdigit normalized) _ c e) in
      allowed_center-bound z c o.1

  center_lem :
      (value : PyValue) (c : ℕ)
      → normalize_int_field u isdigit allowed_center value ≡ some c
      → c ≤ 2
  unfolding normalize_int_field
  center_lem value c e = parsed_center _ c e

  student_id_lem :
      (value : PyValue) (s : Text) → normalize_student_id u isdigit value ≡ some s → s ≢ []
  unfolding normalize_student_id
  student_id_lem value s e = non_empty_lem _ s e

  -- A payload that is accepted has a year code of two characters that `isdigit` accepts, a centre
  -- of at most 2 and a student id that is not empty.
  pub normalize_payload-IsNormal :
      (code_map : List (Text × Text)) (payload : Payload) (n : Normalized)
      → normalize_payload u isdigit code_map payload ≡ some n
      → IsNormal isdigit n
  unfolding normalize_payload
  normalize_payload-IsNormal code_map payload n e =
      let (gender, eg) =
        bind_some (normalize_int_field u isdigit allowed_gender payload.gender) _ n e in
      let (center, ec) =
        bind_some (normalize_int_field u isdigit allowed_center payload.center) _ n eg.1 in
      let (student_id, es) =
        bind_some (normalize_student_id u isdigit payload.student_id) _ n ec.1 in
      let (year_code, ey) = bind_some (code_for u isdigit code_map payload.year) _ n es.1 in
      let code = code_for_lem code_map payload.year year_code ey.0 in
      let same : record {
        year_code = year_code;
        gender = gender;
        center = center;
        student_id = student_id;
      }
          ≡ n =
        cc in
      rw (sym same) (record {
        two = code.0;
        digits = code.1;
        center = center_lem payload.center center ec.0;
        named = student_id_lem payload.student_id student_id es.0;
      })
