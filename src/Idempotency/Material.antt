-- ===== src/Idempotency/Material.antt =====
-- The material of an idempotency key separates its parts.
use student_mentor_allocatio.Base.{◌≡◌, ◌≢◌, refl, [], ◌∷◌, ◌++◌, All}
use student_mentor_allocatio.Base.Text.{Text}
use student_mentor_allocatio.Python.{PyValue}
use student_mentor_allocatio.Idempotency.{Hashes, normalize_identifier, last_part, key_material}

-- A text without the separator.
abbrev pub HasNoBar : Text → Type 0
HasNoBar = All (λ c. c ≢ 124)

split_bar :
    (s t x y : Text) → HasNoBar s → HasNoBar t → s ++ 124 ∷ x ≡ t ++ 124 ∷ y → (s ≡ t) × (x ≡ y)
split_bar [] [] x y hs ht e = (refl, cc)
split_bar [] (d ∷ t) x y hs ht e = absurd (ht.0 cc)
split_bar (c ∷ s) [] x y hs ht e = absurd (hs.0 cc)
split_bar (c ∷ s) (d ∷ t) x y hs ht e = let (es, ex) = split_bar s t x y hs.1 ht.1 cc in (cc, ex)

module _ (h : Hashes) where
  abbrev part : PyValue → Text
  part = normalize_identifier h.unicode

  -- Two requests have the same key material only if their students, their mentors and their request
  -- ids (or payloads) have the same normal forms, provided that no student or mentor id contains
  -- the separator.
  pub key_material-injective :
      (s m r : PyValue) (p : h.Json) (s' m' r' : PyValue) (p' : h.Json)
      → HasNoBar (part s)
      → HasNoBar (part s')
      → HasNoBar (part m)
      → HasNoBar (part m')
      → key_material h s m r p ≡ key_material h s' m' r' p'
      → (part s ≡ part s')
        × (part m ≡ part m')
        × (last_part (part r) (h.dumps p) ≡ last_part (part r') (h.dumps p'))
  unfolding key_material
  key_material-injective s m r p s' m' r' p' hs hs' hm hm' e =
      let (es, rest) = split_bar (part s) (part s') _ _ hs hs' e in
      let (em, er) = split_bar (part m) (part m') _ _ hm hm' rest in (es, em, er)
