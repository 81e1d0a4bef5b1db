-- ===== src/Repository/Reserve/Invariant.antt =====
-- The counters of the students and the numbers of the sequences through a session.
use student_mentor_allocatio.Base.{
  ℕ, ◌≤◌, ◌≡◌, ◌≢◌, sym, ◌∙◌, ap, inl, inr, false, none, some, arith, Bool-cases,
}
use student_mentor_allocatio.Base.Text.{Text, text_eq, text_eq_refl, text_eq→eq}
use student_mentor_allocatio.Python.{Unicode}
use student_mentor_allocatio.Counter.{Gender, counter_code}
use student_mentor_allocatio.Repository.Validation.{fine, ensure_counter_format}
use student_mentor_allocatio.Repository.Reserve.{CounterDb}
use student_mentor_allocatio.Repository.Reserve.Effects.{Reserved, kept, bound}
use student_mentor_allocatio.Repository.Reserve.Rows.{
  held, counter_at, last_number, counter_at-set, counter_at-other, not_taken-held,
}
use student_mentor_allocatio.Repository.Reserve.Numbers.{Counted-grows, Counted-bounded}

pub record IsConsistent (db : CounterDb) : Type 0 where
  pub unique :
      (nid nid' counter : Text)
      → counter_at db nid ≡ some counter
      → counter_at db nid' ≡ some counter
      → nid ≡ nid'
  pub bounded : (year_code prefix : Text) → last_number db year_code prefix ≤ 9999

-- What no session takes back.
pub record Extends (db work : CounterDb) : Type 0 where
  pub keeps :
      (nid counter : Text) → counter_at db nid ≡ some counter → counter_at work nid ≡ some counter
  pub grows :
      (year_code prefix : Text)
      → last_number db year_code prefix ≤ last_number work year_code prefix

pub Extends-refl : (db : CounterDb) → Extends db db
Extends-refl db = record { keeps = λ n c e. e; grows = λ y p. omega arith }

pub Extends-trans : (a b c : CounterDb) → Extends a b → Extends b c → Extends a c
Extends-trans a b c f g = record {
  keeps = λ n t e. g.keeps n t (f.keeps n t e);
  grows = λ y p. omega (arith, f.grows y p, g.grows y p);
}

-- The student of a national id shows a counter: as it is stored, or in the form of the one stored.
pub data Shows (u : Unicode) (db : CounterDb) (nid counter : Text) : Type 0 where
  stored : counter_at db nid ≡ some counter → Shows u db nid counter
  formatted :
      (raw : Text)
      → counter_at db nid ≡ some raw
      → ensure_counter_format u raw ≡ fine counter
      → Shows u db nid counter

-- One counter is added that no other student holds.
module _ (db work : CounterDb) (nid counter : Text)
    (free : (x : Text) → x ≢ nid → counter_at db x ≢ some counter)
    (others : (x : Text) → x ≢ nid → counter_at work x ≡ counter_at db x)
    (own : counter_at work nid ≡ some counter) where
  apart : (x : Text) → text_eq x nid ≡ false → x ≢ nid
  apart x f e = absurd (ground (arith, rw e at f, text_eq_refl nid))

  clash :
      (x y t : Text)
      → y ≡ nid
      → x ≢ nid
      → counter_at work y ≡ some t
      → counter_at work x ≡ some t
      → ⊥
  clash x y t e d hy hx =
      let same : some t ≡ some counter = sym hy ∙ (ap (counter_at work) e ∙ own) in
      free x d (sym (others x d) ∙ (hx ∙ same))

  added_unique :
      ((a b t : Text) → counter_at db a ≡ some t → counter_at db b ≡ some t → a ≡ b)
      → (a b t : Text) → counter_at work a ≡ some t
      → counter_at work b ≡ some t
      → a ≡ b
  added_unique before a b t ha hb = elim (Bool-cases (text_eq a nid)) [
    | inl ea ↦ elim (Bool-cases (text_eq b nid)) [
      | inl eb ↦ text_eq→eq a nid ea ∙ sym (text_eq→eq b nid eb)
      | inr fb ↦ absurd (clash b a t (text_eq→eq a nid ea) (apart b fb) ha hb)
    ]
    | inr fa ↦ elim (Bool-cases (text_eq b nid)) [
      | inl eb ↦ absurd (clash a b t (text_eq→eq b nid eb) (apart a fa) hb ha)
      | inr fb ↦ before a b t (sym (others a (apart a fa)) ∙ ha) (sym (others b (apart b fb)) ∙ hb)
    ]
  ]

  added-keeps :
      counter_at db nid ≡ none
      → (x t : Text) → counter_at db x ≡ some t
      → counter_at work x ≡ some t
  added-keeps none_yet x t h = elim (Bool-cases (text_eq x nid)) [
    | inl e ↦
        absurd (ground (arith, sym none_yet ∙ (ap (counter_at db) (sym (text_eq→eq x nid e)) ∙ h)))
    | inr f ↦ others x (apart x f) ∙ h
  ]

-- What a session that gives `counter` does to the tables.
pub record IsAssigned (u : Unicode) (db : CounterDb) (nid counter : Text) (work : CounterDb)
    : Type 0 where
  pub consistent : IsConsistent db → IsConsistent work
  pub extends : Extends db work
  pub shows : Shows u work nid counter

pub Reserved-IsAssigned :
    (u : Unicode) (max_retries : ℕ) (refusal : Text) (db : CounterDb) (nid : Text) (gender : Gender)
    (year_code counter : Text) (work : CounterDb)
    → Reserved u max_retries refusal db nid gender year_code counter work
    → IsAssigned u db nid counter work
Reserved-IsAssigned u max_retries refusal db nid gender year_code counter _ (kept s raw _ e h f) =
    record {
      consistent = λ c. c;
      extends = Extends-refl db;
      shows = formatted raw (ap held e ∙ h) f;
    }
Reserved-IsAssigned u max_retries refusal db nid gender year_code counter work
      (bound s q _ numbered _ e h n f t m ws wq) =
    let own = counter_at-set db work nid counter s e m ws in
    let free : (x : Text) → x ≢ nid → counter_at db x ≢ some counter =
      λ x d. not_taken-held db.students nid x counter t d in
    let others : (x : Text) → x ≢ nid → counter_at work x ≡ counter_at db x =
      λ x d. counter_at-other db work nid x counter ws d in
    record {
      consistent = λ c. record {
        unique = added_unique db work nid counter free others own c.unique;
        bounded = λ y p.
            rw wq (Counted-bounded db numbered year_code (counter_code gender) q n c.bounded y p);
      };
      extends = record {
        keeps = added-keeps db work nid counter free others own (ap held e ∙ h);
        grows = λ y p. rw wq (Counted-grows db numbered year_code (counter_code gender) q n y p);
      };
      shows = stored own;
    }
