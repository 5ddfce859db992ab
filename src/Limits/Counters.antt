-- ===== src/Limits/Counters.antt =====
-- The store under the two scripts, as equations about the number of every key, and what the calls
-- do when no command fails.
use mizan.Prelude.{
  ℕ, ◌+◌, ◌-◌, ◌≡◌, refl, Bool, true, false, Option-cases, inl, inr, Option, none, some, List, [],
  ◌∷◌, Text, text_eq, text_eq_iff, text_eq_refl, arith, if◌then◌else◌, sub_ℕ, pos, is_some,
}
use mizan.Core.Error.{ok}
use mizan.Limits.Redis.{
  Counter, Redis, get, put, del, count, ttl_of, value_of, increment, decrement, connect,
  increment_window_counter, release_key,
}
use mizan.Limits.Acquire.{release_keys}

get-put :
    (j k : Text) (c : Counter) (m : List (Text × Counter))
    → get j (put k c m) ≡ (if text_eq k j then some c else get j m)
unfolding get put
get-put j k c [] = refl
get-put j k c ((i, e) ∷ m) =
    ground (arith, text_eq_iff k j, text_eq_iff i k, text_eq_iff i j, get-put j k c m)

get-del :
    (j k : Text) (m : List (Text × Counter))
    → get j (del k m) ≡ (if text_eq k j then none else get j m)
unfolding get del
get-del j k [] = ground arith
get-del j k ((i, e) ∷ m) =
    ground (arith, text_eq_iff k j, text_eq_iff i k, text_eq_iff i j, get-del j k m)

count-if :
    (b : Bool) (c : Counter) (o : Option Counter)
    → count (if b then some c else o) ≡ (if b then c.value else count o)
count-if true c o = refl
count-if false c o = refl

pub value_of-increment :
    (j k : Text) (ttl amount : ℕ) (m : List (Text × Counter))
    → value_of j (increment k ttl amount m)
      ≡ (if text_eq k j then value_of k m + amount else value_of j m)
unfolding increment
value_of-increment j k ttl amount m = rw get-put (count-if (text_eq k j) _ _)

-- A missing counter stays missing, one at 0 or 1 is dropped, and any other goes down by one.
pub value_of-decrement :
    (j k : Text) (m : List (Text × Counter))
    → value_of j (decrement k m) ≡ (if text_eq k j then value_of k m - 1 else value_of j m)
unfolding decrement
value_of-decrement j k m = elim (Option-cases (get k m)) [
  | inl missing ↦ ground (arith, text_eq_iff k j)
  | inr (c, there) ↦
      let lowered : Counter = record { value = value_of k m - 1; expires_in = ttl_of (get k m) } in
      ground (arith, there, get-put j k lowered m, get-del j k m, text_eq_iff k j)
]

abbrev pub decrement_all : List Text → List (Text × Counter) → List (Text × Counter)
decrement_all [] m = m
decrement_all (k ∷ ks) m = decrement_all ks (decrement k m)

module _ (r : Redis) (calm : r.faults ≡ []) where
  pub connect_calm : connect r ≡ (ok tt, r)
  unfolding connect
  connect_calm = rw calm

  pub increment_window_counter_calm :
      (k : Text) (ttl amount : ℕ)
      → increment_window_counter k ttl amount r ≡ (
        ok (value_of k r.counters + amount),
        record r { counters = increment k ttl amount r.counters },
      )
  unfolding increment_window_counter
  increment_window_counter_calm k ttl amount =
      rw calm (rw (value_of-increment k k ttl amount r.counters, text_eq_refl k) refl)

  pub release_key_calm :
      (k : Text)
      → release_key k r ≡ (
        ok (if is_some (get k r.counters) then sub_ℕ (value_of k r.counters) 1 else pos 0),
        record r { counters = decrement k r.counters },
      )
  unfolding release_key
  release_key_calm k = rw calm refl

pub release_keys_calm :
    (ks : List Text) (r : Redis)
    → r.faults ≡ []
    → release_keys ks r ≡ (ok tt, record r { counters = decrement_all ks r.counters })
unfolding release_keys
release_keys_calm [] r calm = refl
release_keys_calm (k ∷ ks) r calm = cc (
  release_key_calm r calm k,
  release_keys_calm ks (record r { counters = decrement k r.counters }) calm,
)
