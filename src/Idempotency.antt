-- ===== src/Idempotency.antt =====
-- src/sma/phase3_allocation/idempotency.py: normal forms of identifiers, and the key and event id
-- that are derived from them. SHA-256, UUID5 and the JSON encoder belong to the interpreter's
-- library and come in as functions. Identifiers that are floats or bytes are not modelled: the
-- requests carry texts and ints.
pub mod Material
mod Tests
use student_mentor_allocatio.Base.{
  ℕ, Bool, true, false, not, Option, none, some, List, [], ◌∷◌, ◌++◌, map, keep, any, ◌==◌,
  if◌then◌else◌,
}
use student_mentor_allocatio.Base.Int.{ℤ}
use student_mentor_allocatio.Base.Text.{Text, strip, remove_chars, fold_digit, fold_letter}
use student_mentor_allocatio.Python.{Unicode, PyValue, str}

abbrev pub zero_width : List ℕ
zero_width = 0x200c ∷ 0x200d ∷ 0xfeff ∷ []

-- What the interpreter's library supplies: the Unicode tables, `hashlib.sha256(...).hexdigest()`,
-- `str(uuid5(IDEMPOTENCY_NAMESPACE, ...))` and `json.dumps` of a request's payload.
pub record Hashes : Type 1 where
  pub unicode : Unicode
  pub Json : Type 0
  pub sha256 : Text → Text
  pub uuid5 : Text → Text
  pub dumps : Json → Text

-- `_normalize_string`
unfoldable pub normalize_string : Unicode → Text → Text
normalize_string u value =
    strip (remove_chars zero_width (map fold_letter (map fold_digit (u.nfkc value))))

unfoldable pub normalize_identifier : Unicode → PyValue → Text
unfolding normalize_string
normalize_identifier u PyValue.nothing = []
normalize_identifier u (PyValue.boolean b) = normalize_string u (str (PyValue.boolean b))
normalize_identifier u (PyValue.integer z) = normalize_string u (str (PyValue.integer z))
normalize_identifier u (PyValue.text s) = normalize_string u s

-- `"|".join(parts)`
unfoldable pub join_parts : List Text → Text
join_parts [] = []
join_parts (part ∷ []) = part
join_parts (part ∷ next ∷ rest) = part ++ 124 ∷ join_parts (next ∷ rest)

-- The last part of the key's material: the request id, or the payload if that is empty.
abbrev pub last_part : Text → Text → Text
last_part [] payload = payload
last_part (c ∷ request) payload = c ∷ request

module _ (h : Hashes) where
  unfoldable pub key_material : PyValue → PyValue → PyValue → h.Json → Text
  unfolding join_parts
  key_material student_id mentor_id request_id payload = join_parts (
      normalize_identifier h.unicode student_id
      ∷ normalize_identifier h.unicode mentor_id
      ∷ last_part (normalize_identifier h.unicode request_id) (h.dumps payload)
      ∷ [])

  unfoldable pub derive_idempotency_key : PyValue → PyValue → PyValue → h.Json → Text
  unfolding key_material
  derive_idempotency_key student_id mentor_id request_id payload =
      h.sha256 (key_material student_id mentor_id request_id payload)

  unfoldable pub derive_event_id : Text → Text
  derive_event_id idempotency_key = h.uuid5 idempotency_key
