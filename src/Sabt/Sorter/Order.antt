-- ===== src/Sabt/Sorter/Order.antt =====
-- The order of the keys is total and transitive.
use student_mentor_allocatio.Base.{
  ◌≡◌, refl, sym, ◌∙◌, ap, inl, inr, true, false, [], ◌∷◌, arith, Bool-cases,
}
use student_mentor_allocatio.Base.Sort.{IsOrder}
use student_mentor_allocatio.Base.Text.{Text, text_eq, text_eq_refl, text_eq→eq}
use student_mentor_allocatio.Sabt.Sorter.{Key, text_le, key_le, entry_le}

text_le_total : (s t : Text) → text_le s t ≡ false → text_le t s ≡ true
text_le_total [] t e = absurd (ground (arith, e))
text_le_total (a ∷ s) [] e = refl
text_le_total (a ∷ s) (b ∷ t) e = ground (arith, e, text_le_total s t)

text_le_trans : (s t v : Text) → text_le s t ≡ true → text_le t v ≡ true → text_le s v ≡ true
text_le_trans [] t v e f = refl
text_le_trans (a ∷ s) [] v e f = absurd (ground (arith, e))
text_le_trans (a ∷ s) (b ∷ t) [] e f = absurd (ground (arith, f))
text_le_trans (a ∷ s) (b ∷ t) (c ∷ v) e f = ground (arith, e, f, text_le_trans s t v)

text_le_antisym : (s t : Text) → text_le s t ≡ true → text_le t s ≡ true → text_eq s t ≡ true
unfolding text_eq
text_le_antisym [] [] e f = refl
text_le_antisym [] (b ∷ t) e f = absurd (ground (arith, f))
text_le_antisym (a ∷ s) [] e f = absurd (ground (arith, e))
text_le_antisym (a ∷ s) (b ∷ t) e f = ground (arith, e, f, text_le_antisym s t)

text_eq_sym : (s t : Text) → text_eq s t ≡ false → text_eq t s ≡ false
text_eq_sym s t e = elim (Bool-cases (text_eq t s)) [
  | inl f ↦ absurd (ground (arith, e, rw (text_eq→eq t s f) at e, text_eq_refl s))
  | inr f ↦ f
]

key_le_total : (k l : Key) → key_le k l ≡ false → key_le l k ≡ true
key_le_total [] l e = absurd (ground (arith, e))
key_le_total (s ∷ k) [] e = refl
key_le_total (s ∷ k) (t ∷ l) e = elim (Bool-cases (text_eq s t)) [
  | inl q ↦
      let same : text_eq t s ≡ true = rw (text_eq→eq s t q) (text_eq_refl t) in
      rw same (key_le_total k l (rw q at e))
  | inr d ↦ rw (text_eq_sym s t d) (text_le_total s t (rw d at e))
]

-- Keys by their first components.
key_le_same : (s : Text) (k l : Key) → key_le (s ∷ k) (s ∷ l) ≡ key_le k l
key_le_same s k l = rw (text_eq_refl s) refl

key_le_differ :
    (s t : Text) (k l : Key) → text_eq s t ≡ false → key_le (s ∷ k) (t ∷ l) ≡ text_le s t
key_le_differ s t k l d = rw d refl

apart_trans :
    (s t v : Text)
    → text_eq s t ≡ false
    → text_le s t ≡ true
    → text_le t v ≡ true
    → text_eq s v ≡ false
apart_trans s t v d e f = elim (Bool-cases (text_eq s v)) [
  | inl q ↦
      let back : text_le t s ≡ true = rw (sym (text_eq→eq s v q)) at f in
      absurd (ground (arith, d, text_le_antisym s t e back))
  | inr g ↦ g
]

key_le_trans : (k l m : Key) → key_le k l ≡ true → key_le l m ≡ true → key_le k m ≡ true
key_le_trans [] l m e f = refl
key_le_trans (s ∷ k) [] m e f = absurd (ground (arith, e))
key_le_trans (s ∷ k) (t ∷ l) [] e f = absurd (ground (arith, f))
key_le_trans (s ∷ k) (t ∷ l) (v ∷ m) e f = elim (Bool-cases (text_eq s t)) [
  | inl q ↦ elim (Bool-cases (text_eq t v)) [
    | inl r ↦
        let st : s ≡ t = text_eq→eq s t q in
        let tv : t ≡ v = text_eq→eq t v r in
        ap (λ x. key_le (x ∷ k) (v ∷ m)) (st ∙ tv)
        ∙ (key_le_same v k m ∙ key_le_trans k l m (rw q at e) (rw r at f))
    | inr d ↦
        let st : s ≡ t = text_eq→eq s t q in
        ap (λ x. key_le (x ∷ k) (v ∷ m)) st ∙ (key_le_differ t v k m d ∙ (rw d at f))
  ]
  | inr d ↦ elim (Bool-cases (text_eq t v)) [
    | inl r ↦
        let tv : t ≡ v = text_eq→eq t v r in
        ap (λ x. key_le (s ∷ k) (x ∷ m)) (sym tv) ∙ (key_le_differ s t k m d ∙ (rw d at e))
    | inr g ↦
        let a : text_le s t ≡ true = rw d at e in
        let b : text_le t v ≡ true = rw g at f in
        key_le_differ s v k m (apart_trans s t v d a b) ∙ text_le_trans s t v a b
  ]
]

pub entry_le-IsOrder : IsOrder entry_le
entry_le-IsOrder = record {
  total = λ e f. key_le_total e.key f.key;
  trans = λ e f g. key_le_trans e.key f.key g.key;
}
