-- ===== src/Export/Redis.antt =====
-- src/sma/phase6_import_to_sabt/job_runner.py, `DeterministicRedis`: its three dictionaries and its
-- operations, each of which holds the lock of the store. The helper `get_ttl` of its tests is left out.
use student_mentor_allocatio.Base.{
  ℕ, ◌≡◌, refl, inl, inr, Bool, true, false, Option, none, some, List, [], ◌∷◌, Bool-cases,
  if◌then◌else◌,
}
use student_mentor_allocatio.Base.Text.{Text, text_eq, text_eq→eq, text_eq_refl}

abbrev pub Dict : Type 0 → Type 0
Dict V = Text → Option V

abbrev pub empty : {V : Type 0} → Dict V
empty k = none

abbrev pub insert : {V : Type 0} → Text → V → Dict V → Dict V
insert k v d j = if text_eq k j then some v else d j

abbrev pub pop : {V : Type 0} → Text → Dict V → Dict V
pop k d j = if text_eq k j then none else d j

pub insert-here : {V : Type 0} (k : Text) (v : V) (d : Dict V) → insert k v d k ≡ some v
insert-here k v d = rw (text_eq_refl k) refl

pub text_eq_of_ne : (k j : Text) → (k ≡ j → ⊥) → text_eq k j ≡ false
text_eq_of_ne k j h = elim (Bool-cases (text_eq k j)) [
  | inl t ↦ absurd (h (text_eq→eq k j t))
  | inr f ↦ f
]

pub insert-there :
    {V : Type 0} (k j : Text) (v : V) (d : Dict V) → (k ≡ j → ⊥) → insert k v d j ≡ d j
insert-there k j v d h = rw (text_eq_of_ne k j h) refl

-- `d.update(mapping)`
abbrev pub insert_all : List (Text × Text) → Dict Text → Dict Text
insert_all [] d = d
insert_all ((k, v) ∷ mapping) d = insert_all mapping (insert k v d)

pub record DeterministicRedis : Type 0 where
  pub strings : Dict Text
  pub hashes : Dict (Dict Text)
  pub ttls : Dict (Option ℕ)

abbrev pub flushdb : DeterministicRedis
flushdb = record { strings = empty; hashes = empty; ttls = empty }

abbrev pub set_new :
    Text → Text → Option ℕ → DeterministicRedis → Option Text → Bool × DeterministicRedis
set_new key value ex r (some old) = (false, r)
set_new key value ex r none =
    (true, record r { strings = insert key value r.strings; ttls = insert key ex r.ttls })

unfoldable pub setnx : Text → Text → Option ℕ → DeterministicRedis → Bool × DeterministicRedis
setnx key value ex r = set_new key value ex r (r.strings key)

unfoldable pub delete : Text → DeterministicRedis → DeterministicRedis
delete key r = record {
  strings = pop key r.strings;
  hashes = pop key r.hashes;
  ttls = pop key r.ttls;
}

abbrev pub or_empty : Option (Dict Text) → Dict Text
or_empty none = empty
or_empty (some fields) = fields

unfoldable pub hgetall : Text → DeterministicRedis → Dict Text
hgetall key r = or_empty (r.hashes key)

unfoldable pub hset : Text → List (Text × Text) → DeterministicRedis → DeterministicRedis
unfolding hgetall
hset key mapping r = record r { hashes = insert key (insert_all mapping (hgetall key r)) r.hashes }

abbrev pub expire_at : Text → ℕ → DeterministicRedis → Option Text → DeterministicRedis
expire_at key ttl r none = r
expire_at key ttl r (some value) = record r { ttls = insert key (some ttl) r.ttls }

unfoldable pub expire : Text → ℕ → DeterministicRedis → DeterministicRedis
expire key ttl r = expire_at key ttl r (r.strings key)

pub hgetall-hset_here :
    (key : Text) (mapping : List (Text × Text)) (r : DeterministicRedis)
    → hgetall key (hset key mapping r) ≡ insert_all mapping (hgetall key r)
unfolding hset
hgetall-hset_here key mapping r =
    rw (insert-here key (insert_all mapping (hgetall key r)) r.hashes) refl

pub hgetall-hset_there :
    (key k : Text) (mapping : List (Text × Text)) (r : DeterministicRedis)
    → (key ≡ k → ⊥)
    → hgetall k (hset key mapping r) ≡ hgetall k r
unfolding hset
hgetall-hset_there key k mapping r h = rw (text_eq_of_ne key k h) refl

expire_at_same :
    (key : Text) (ttl : ℕ) (r : DeterministicRedis) (o : Option Text)
    → ((expire_at key ttl r o).strings ≡ r.strings) × ((expire_at key ttl r o).hashes ≡ r.hashes)
expire_at_same key ttl r none = (refl, refl)
expire_at_same key ttl r (some value) = (refl, refl)

-- `expire` changes nothing but a time to live.
pub expire_same :
    (key : Text) (ttl : ℕ) (r : DeterministicRedis)
    → ((expire key ttl r).strings ≡ r.strings) × ((expire key ttl r).hashes ≡ r.hashes)
unfolding expire
expire_same key ttl r = expire_at_same key ttl r (r.strings key)
