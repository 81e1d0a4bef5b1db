-- ===== src/Idempotency/Tests.antt =====
-- The theorem on key material at two spellings of one request.
use student_mentor_allocatio.Base.{◌≡◌, refl, [], ◌∷◌, arith}
use student_mentor_allocatio.Base.Int.{pos}
use student_mentor_allocatio.Base.Text.{codes, is_space, strip, fold_digit, fold_letter}
use student_mentor_allocatio.Base.Text.Decimal.{decimal}
use student_mentor_allocatio.Python.{PyValue, str}
use student_mentor_allocatio.Python.Database.{ascii}
use student_mentor_allocatio.Idempotency.{
  Hashes, normalize_identifier, normalize_string, last_part, key_material, join_parts,
}
use student_mentor_allocatio.Idempotency.Material.{key_material-injective}

abbrev hashes : Hashes
hashes = record { unicode = ascii; Json = PyValue; sha256 = λ s. s; uuid5 = λ s. s; dumps = str }

abbrev spelled : PyValue
spelled = PyValue.text (codes " 77 ")

abbrev other_spelled : PyValue
other_spelled = PyValue.text (0x6f7 ∷ 0x200c ∷ 0x6f7 ∷ [])

key_material-injective_example :
    (normalize_identifier ascii spelled ≡ normalize_identifier ascii other_spelled)
    × (normalize_identifier ascii (PyValue.integer (pos 5))
        ≡ normalize_identifier ascii (PyValue.text (codes "5")))
    × (last_part (normalize_identifier ascii (PyValue.text (codes "r1"))) (codes "x")
        ≡ last_part (normalize_identifier ascii (PyValue.text (codes "r1 "))) (codes "y"))
unfolding key_material normalize_identifier normalize_string str strip fold_digit fold_letter
    is_space decimal join_parts
key_material-injective_example =
    key_material-injective hashes spelled (PyValue.integer (pos 5)) (PyValue.text (codes "r1"))
      (PyValue.text (codes "x")) other_spelled (PyValue.text (codes "5"))
      (PyValue.text (codes "r1 ")) (PyValue.text (codes "y")) (omega arith, (omega arith, tt))
      (omega arith, (omega arith, tt)) (omega arith, tt) (omega arith, tt) refl
