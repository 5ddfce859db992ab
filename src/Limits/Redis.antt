-- ===== src/Limits/Redis.antt =====
-- The store, and the two scripts of the source, `increment_window_counter` and `release_key`. A
-- counter is a number with the seconds to live that EXPIRE gave it; time passes outside the model,
-- as a step that drops keys. The scripts never store a number below 1, so a counter is a natural.
use mizan.Prelude.{
  ℕ, ◌+◌, ◌-◌, Option, none, some, is_some, List, [], ◌∷◌, Text, text_eq, ℤ, pos, sub_ℕ, ltb, ◌==◌,
  max, if◌then◌else◌,
}
use mizan.Core.Error.{infrastructure}
use mizan.Core.Exec.{Exec, Faults, meet, ◌>>=◌, ◌>>◌, pure, gets, modify}

pub record Counter : Type 0 where
  pub value : ℕ
  pub expires_in : Option ℕ

pub record Redis : Type 0 where
  pub counters : List (Text × Counter)
  pub faults : Faults

abbrev pub M : Type 0 → Type 0
M = Exec Redis

unfoldable pub get : Text → List (Text × Counter) → Option Counter
get key [] = none
get key ((k, c) ∷ m) = if text_eq k key then some c else get key m

unfoldable pub put : Text → Counter → List (Text × Counter) → List (Text × Counter)
put key c [] = (key, c) ∷ []
put key c ((k, e) ∷ m) = if text_eq k key then (k, c) ∷ m else (k, e) ∷ put key c m

-- DEL, of every entry with the key.
unfoldable pub del : Text → List (Text × Counter) → List (Text × Counter)
del key [] = []
del key ((k, e) ∷ m) = if text_eq k key then del key m else (k, e) ∷ del key m

abbrev pub count : Option Counter → ℕ
count none = 0
count (some c) = c.value

-- The number that a key stands for; a missing key counts 0.
abbrev pub value_of : Text → List (Text × Counter) → ℕ
value_of key m = count (get key m)

abbrev pub ttl_of : Option Counter → Option ℕ
ttl_of none = none
ttl_of (some c) = c.expires_in

-- INCRBY, and EXPIRE where the sum is the amount itself.
unfoldable pub increment : Text → ℕ → ℕ → List (Text × Counter) → List (Text × Counter)
increment key ttl_seconds amount m =
    let current = value_of key m + amount in
    put key
      (record {
        value = current;
        expires_in = if current == amount then some (max ttl_seconds 1) else ttl_of (get key m);
      })
      m

-- DECR of a key that exists, and DEL where the result is not above 0.
unfoldable pub decrement : Text → List (Text × Counter) → List (Text × Counter)
decrement key m =
    if is_some (get key m)
    then (if ltb 1 (value_of key m)
        then put key (record { value = value_of key m - 1; expires_in = ttl_of (get key m) }) m
        else del key m)
    else m

attempt : M (Unit {0})
attempt r = meet (λ r fs. record r { faults = fs }) infrastructure r.faults r

unfoldable pub connect : M (Unit {0})
unfolding attempt
connect = attempt

-- INCRBY of more than a signed 64-bit number holds is a command that fails.
unfoldable pub increment_window_counter : Text → ℕ → ℕ → M ℕ
unfolding attempt
increment_window_counter key ttl_seconds amount = do
  attempt
  modify (λ r. record r { counters = increment key ttl_seconds amount r.counters })
  gets (λ r. value_of key r.counters)

-- The result is 0 for a missing key, and else the number after DECR.
unfoldable pub release_key : Text → M ℤ
unfolding attempt
release_key key = do
  attempt
  current ←
      gets (λ r. if is_some (get key r.counters) then sub_ℕ (value_of key r.counters) 1 else pos 0)
  modify (λ r. record r { counters = decrement key r.counters })
  pure current
