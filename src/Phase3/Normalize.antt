-- ===== src/Phase3/Normalize.antt =====
-- src/sma/phase3_allocation/policy.py, the normalisers of single values. `_normalize_int` is two
-- functions: `normalize_int` for `allow_none=False`, and `normalize_optional_int` for
-- `allow_none=True`, whose result may be `None`.
pub mod Values
use student_mentor_allocatio.Base.{
  ℕ, String, Bool, true, false, not, Option, none, some, List, [], ◌∷◌, map, any, if◌then◌else◌,
}
use student_mentor_allocatio.Base.Int.{ℤ}
use student_mentor_allocatio.Base.Text.{
  Text, codes, text_eq, strip, remove_chars, fold_digit, fold_letter,
}
use student_mentor_allocatio.Python.{Unicode, PyValue, str, int}
use student_mentor_allocatio.Phase3.Contracts.{
  RuleCode, Message, Detail, Details, Normalized, ok, err,
}
use student_mentor_allocatio.Phase3.Rules.{has_number, has_text}

-- `str(value) if value is not None else ""`
abbrev pub text_of : PyValue → Text
text_of PyValue.nothing = []
text_of (PyValue.boolean b) = str (PyValue.boolean b)
text_of (PyValue.integer z) = str (PyValue.integer z)
text_of (PyValue.text s) = s

abbrev pub zero_width_chars : List ℕ
zero_width_chars = 0x200c ∷ 0x200f ∷ 0x200e ∷ 0xfeff ∷ []

-- Folding the digits of a text that has none changes nothing, so the source's test of that is left
-- out.
unfoldable pub normalize_text : PyValue → Text
normalize_text value =
    map fold_digit (map fold_letter (remove_chars zero_width_chars (strip (text_of value))))

abbrev pub raise : {A : Type 0} → RuleCode → Message → Details → Normalized A
raise rule_code message details =
    err (record { rule_code = rule_code; message = message; details = details })

abbrev is_empty : Text → Bool
is_empty [] = true
is_empty (c ∷ s) = false

module _ (u : Unicode) (rule_code : RuleCode) (field_name : String) where
  abbrev int_of_text : Text → Normalized ℤ
  int_of_text text = elim (int u text) [
    | none ↦
        raise rule_code (Message.not_a_number field_name)
          (("field", Detail.word field_name) ∷ ("value", Detail.text text) ∷ [])
    | some z ↦ ok z
  ]

  abbrev int_of_some : PyValue → Normalized ℤ
  int_of_some value =
      let text = normalize_text value in
      if is_empty text
      then raise rule_code (Message.value_empty field_name) (("field", Detail.word field_name) ∷ [])
      else int_of_text text

  unfoldable pub normalize_int : PyValue → Normalized ℤ
  normalize_int PyValue.nothing =
      raise rule_code (Message.value_invalid field_name)
        (("field", Detail.word field_name) ∷ ("value", Detail.raw PyValue.nothing) ∷ [])
  normalize_int (PyValue.boolean b) = int_of_some (PyValue.boolean b)
  normalize_int (PyValue.integer z) = int_of_some (PyValue.integer z)
  normalize_int (PyValue.text s) = int_of_some (PyValue.text s)

  abbrev some_int : Normalized ℤ → Normalized (Option ℤ)
  some_int (ok z) = ok (some z)
  some_int (err e) = err e

  abbrev optional_int_of_some : Option ℤ → PyValue → Normalized (Option ℤ)
  optional_int_of_some default value =
      let text = normalize_text value in
      if is_empty text then ok default else some_int (int_of_text text)

  unfoldable pub normalize_optional_int : Option ℤ → PyValue → Normalized (Option ℤ)
  normalize_optional_int default PyValue.nothing = ok default
  normalize_optional_int default (PyValue.boolean b) =
      optional_int_of_some default (PyValue.boolean b)
  normalize_optional_int default (PyValue.integer z) =
      optional_int_of_some default (PyValue.integer z)
  normalize_optional_int default (PyValue.text s) = optional_int_of_some default (PyValue.text s)

  -- The test that `_normalize_enum` and `_normalize_optional_enum` make of the number.
  abbrev require_allowed : List ℤ → Normalized ℤ → Normalized ℤ
  require_allowed allowed (err e) = err e
  require_allowed allowed (ok z) =
      if not (has_number z allowed)
      then raise rule_code (Message.out_of_range field_name) (
          ("field", Detail.word field_name)
          ∷ ("value", Detail.number z)
          ∷ ("allowed", Detail.numbers allowed)
          ∷ [])
      else ok z

  unfoldable pub normalize_enum : List ℤ → PyValue → Normalized ℤ
  unfolding normalize_int
  normalize_enum allowed value = require_allowed allowed (normalize_int value)

  abbrev optional_enum_of_some : List ℤ → ℤ → PyValue → Normalized ℤ
  optional_enum_of_some allowed default value =
      if is_empty (normalize_text value)
      then ok default
      else require_allowed allowed (normalize_int value)

  unfoldable pub normalize_optional_enum : List ℤ → ℤ → PyValue → Normalized ℤ
  unfolding normalize_int
  normalize_optional_enum allowed default PyValue.nothing = ok default
  normalize_optional_enum allowed default (PyValue.boolean b) =
      optional_enum_of_some allowed default (PyValue.boolean b)
  normalize_optional_enum allowed default (PyValue.integer z) =
      optional_enum_of_some allowed default (PyValue.integer z)
  normalize_optional_enum allowed default (PyValue.text s) =
      optional_enum_of_some allowed default (PyValue.text s)

abbrev pub true_words : List Text
true_words = codes "true" ∷ codes "1" ∷ codes "yes" ∷ codes "y" ∷ codes "on" ∷ []

abbrev pub false_words : List Text
false_words = codes "false" ∷ codes "0" ∷ codes "no" ∷ codes "n" ∷ codes "off" ∷ []

module _ (u : Unicode) (field_name : String) where
  abbrev bool_of_text : PyValue → Normalized Bool
  bool_of_text value =
      let text = u.lower (normalize_text value) in
      if has_text text true_words
      then ok true
      else if has_text text false_words
      then ok false
      else raise RuleCode.capacity_available (Message.not_a_bool field_name)
          (("field", Detail.word field_name) ∷ ("value", Detail.raw value) ∷ [])

  unfoldable pub normalize_bool : PyValue → Normalized Bool
  normalize_bool PyValue.nothing = bool_of_text PyValue.nothing
  normalize_bool (PyValue.boolean b) = ok b
  normalize_bool (PyValue.integer z) = bool_of_text (PyValue.integer z)
  normalize_bool (PyValue.text s) = bool_of_text (PyValue.text s)
