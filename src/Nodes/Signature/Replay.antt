-- ===== src/Nodes/Signature/Replay.antt =====
-- A signed request that was accepted is not accepted again, whatever the daemons send in between.
use mathlib.Core.Path.{subst}
use mizan.Prelude.{
  ℕ, ◌≤◌, ◌≡◌, refl, ap, ◌∙◌, Bool, true, false, Bool-cases, List, [], ◌∷◌, ◌++◌, Text, codes,
  text_eq_refl, leb, length, All, ℤ, pos, ◌≤ℤ◌, leb_ℤ, +ℤ_parts, -ℤ_parts, ◌⊎◌, inl, inr, arith,
  if◌then◌else◌,
}
use mizan.Core.Id.{Uuid}
use mizan.Core.Error.{ErrorEnvelope}
use mizan.Nodes.Signature.{
  HttpResult, and_then, require, header_value, timestamp_header, timestamp_of, age_seconds,
  nonce_expiry, signature_ttl_seconds, Nonces, prune_stale_nonces, contains_key, prune_threshold,
  remember_nonce, SignedRequest, checked_nonce, remembered, validate_daemon_request_signature,
}

abbrev pub IsAccepted : {A : Type 0} → HttpResult A → Type 0
IsAccepted (inl refusal) = ⊥
IsAccepted (inr a) = Unit {0}

-- What a chain that succeeded went through.
and_then-inr :
    {A B : Type 0} (m : HttpResult A) (f : A → HttpResult B) {b : B}
    → and_then m f ≡ inr b
    → (a : A) × (m ≡ inr a) × (f a ≡ inr b)
unfolding and_then
and_then-inr (inl refusal) f e = cc
and_then-inr (inr a) f e = (a, refl, e)

-- What the checks found in the headers of a request that passed them.
pub record Passed (uuid_text : Uuid → Text) (r : SignedRequest) (key : Text) (expiry : ℤ)
    : Type 0 where
  pub timestamp_raw : Text
  pub nonce : Text
  pub timestamp : ℤ
  pub age : ℕ
  pub raw_is : header_value r.headers timestamp_header ≡ inr timestamp_raw
  pub nonce_is : header_value r.headers (codes "x-mizan-daemon-nonce") ≡ inr nonce
  pub timestamp_is : timestamp_of timestamp_raw ≡ inr timestamp
  pub age_is : age_seconds r.now timestamp ≡ inr age
  pub young : require (leb age signature_ttl_seconds) ≡ inr tt
  pub expiry_is : nonce_expiry timestamp ≡ inr expiry
  pub key_is : uuid_text r.identity.node_id ++ codes "::" ++ nonce ≡ key

pair_fst :
    {A B : Type 0} {a a' : A} {b b' : B}
    → ◌≡◌ {A = HttpResult (A × B)} (inr (a, b)) (inr (a', b'))
    → a ≡ a'
pair_fst e = cc

pair_snd :
    {A B : Type 0} {a a' : A} {b b' : B}
    → ◌≡◌ {A = HttpResult (A × B)} (inr (a, b)) (inr (a', b'))
    → b ≡ b'
pair_snd e = cc

module _ (sha256_hex : Text → Text) (uuid_text : Uuid → Text) where
  checked_nonce-Passed :
      (r : SignedRequest) (key : Text) (expiry : ℤ)
      → checked_nonce sha256_hex uuid_text r ≡ inr (key, expiry)
      → Passed uuid_text r key expiry
  unfolding checked_nonce
  checked_nonce-Passed r key expiry passed =
      let (raw, raw_is, e1) = and_then-inr _ _ passed in
      let (nonce, nonce_is, e2) = and_then-inr _ _ e1 in
      let (signature, _, e3) = and_then-inr _ _ e2 in
      let (_, _, e4) = and_then-inr _ _ e3 in
      let (timestamp, timestamp_is, e5) = and_then-inr _ _ e4 in
      let (age, age_is, e6) = and_then-inr _ _ e5 in
      let (_, young, e7) = and_then-inr _ _ e6 in
      let (expiry', expiry_is, e8) = and_then-inr _ _ e7 in
      let (_, _, e9) = and_then-inr _ _ e8 in
      record {
        timestamp_raw = raw;
        nonce = nonce;
        timestamp = timestamp;
        age = age;
        raw_is = raw_is;
        nonce_is = nonce_is;
        timestamp_is = timestamp_is;
        age_is = age_is;
        young = young;
        expiry_is = expiry_is ∙ ap inr (pair_snd e9);
        key_is = pair_fst e9;
      }

  -- A timestamp that is young enough has not expired.
  in_time :
      (now age : ℕ) (timestamp expiry : ℤ)
      → age_seconds now timestamp ≡ inr age
      → require (leb age signature_ttl_seconds) ≡ inr tt
      → nonce_expiry timestamp ≡ inr expiry
      → pos now ≤ℤ expiry
  unfolding age_seconds nonce_expiry
  in_time now age timestamp expiry age_is young expiry_is =
      ground (arith, -ℤ_parts (pos now) timestamp, +ℤ_parts timestamp (pos signature_ttl_seconds))

-- The cache holds the nonce until the expiry.
abbrev pub Holds : Text → ℤ → Nonces → Type 0
Holds key expiry [] = ⊥
Holds key expiry ((k, x) ∷ nonces) = ((k ≡ key) × (x ≡ expiry)) ⊎ Holds key expiry nonces

contains_key-Holds :
    (key : Text) (expiry : ℤ) (nonces : Nonces)
    → Holds key expiry nonces
    → contains_key key nonces ≡ true
unfolding contains_key
contains_key-Holds key expiry [] holds = elim holds [ ]
contains_key-Holds key expiry ((k, x) ∷ nonces) (inl (same, _)) = rw (same, text_eq_refl key) refl
contains_key-Holds key expiry ((k, x) ∷ nonces) (inr later) =
    ground (arith, contains_key-Holds key expiry nonces later)

prune_stale_nonces-Holds :
    (now : ℕ) (key : Text) (expiry : ℤ) (nonces : Nonces)
    → pos now ≤ℤ expiry
    → Holds key expiry nonces
    → Holds key expiry (prune_stale_nonces now nonces)
unfolding prune_stale_nonces
prune_stale_nonces-Holds now key expiry [] live holds = elim holds [ ]
prune_stale_nonces-Holds now key expiry ((k, x) ∷ nonces) live (inl (same, at)) =
    let kept : leb_ℤ (pos now) x ≡ true = rw at (ground arith) in rw kept (inl (same, at))
prune_stale_nonces-Holds now key expiry ((k, x) ∷ nonces) live (inr later) =
    let rest = prune_stale_nonces-Holds now key expiry nonces live later in
    elim (Bool-cases (leb_ℤ (pos now) x)) [
      | inl kept ↦ rw kept (inr rest)
      | inr stale ↦ rw stale rest
    ]

remember_nonce-Holds :
    (now : ℕ) (entry : Text × ℤ) (key : Text) (expiry : ℤ) (nonces : Nonces)
    → pos now ≤ℤ expiry
    → Holds key expiry nonces
    → Holds key expiry (remember_nonce now entry nonces).1
unfolding remember_nonce
remember_nonce-Holds now (k, x) key expiry nonces live holds =
    let pruned = prune_stale_nonces-Holds now key expiry nonces live holds in
    elim (Bool-cases (leb prune_threshold (length nonces))) [
      | inl full ↦ elim (Bool-cases (contains_key k (prune_stale_nonces now nonces))) [
        | inl known ↦ rw (full, known) pruned
        | inr unknown ↦ rw (full, unknown) (inr pruned)
      ]
      | inr free ↦ elim (Bool-cases (contains_key k nonces)) [
        | inl known ↦ rw (free, known) holds
        | inr unknown ↦ rw (free, unknown) (inr holds)
      ]
    ]

-- A nonce that the cache holds in time is refused.
remember_nonce_refused :
    (now : ℕ) (key : Text) (expiry : ℤ) (nonces : Nonces)
    → pos now ≤ℤ expiry
    → Holds key expiry nonces
    → IsAccepted (remember_nonce now (key, expiry) nonces).0
    → ⊥
unfolding remember_nonce
remember_nonce_refused now key expiry nonces live holds accepted =
    let pruned = prune_stale_nonces-Holds now key expiry nonces live holds in
    let there = contains_key-Holds key expiry nonces holds in
    let there' = contains_key-Holds key expiry (prune_stale_nonces now nonces) pruned in
    elim (Bool-cases (leb prune_threshold (length nonces))) [
      | inl full ↦ ground (arith, full, there')
      | inr free ↦ ground (arith, free, there)
    ]

inserted :
    (known : Bool) (refusal : ℕ × ErrorEnvelope) (key : Text) (expiry : ℤ) (kept : Nonces)
    → (let out : HttpResult (Unit {0}) × Nonces =
          if known then (inl refusal, kept) else (inr tt, (key, expiry) ∷ kept) in
        IsAccepted out.0 → Holds key expiry out.1)
inserted true refusal key expiry kept accepted = elim accepted [ ]
inserted false refusal key expiry kept accepted = inl (refl, refl)

remember_nonce_accepted :
    (now : ℕ) (key : Text) (expiry : ℤ) (nonces : Nonces)
    → IsAccepted (remember_nonce now (key, expiry) nonces).0
    → Holds key expiry (remember_nonce now (key, expiry) nonces).1
unfolding remember_nonce
remember_nonce_accepted now key expiry nonces accepted =
    let kept =
      if leb prune_threshold (length nonces) then prune_stale_nonces now nonces else nonces in
    inserted (contains_key key kept) _ key expiry kept accepted

sum-cases : {A B : Type 0} (s : A ⊎ B) → ((a : A) × (s ≡ inl a)) ⊎ ((b : B) × (s ≡ inr b))
sum-cases (inl a) = inl (a, refl)
sum-cases (inr b) = inr (b, refl)

module _ (sha256_hex : Text → Text) (uuid_text : Uuid → Text) where
  abbrev pub validate : SignedRequest → Nonces → HttpResult (Unit {0}) × Nonces
  validate = validate_daemon_request_signature sha256_hex uuid_text

  -- The cache after some requests.
  abbrev pub after_all : List SignedRequest → Nonces → Nonces
  after_all [] nonces = nonces
  after_all (r ∷ rs) nonces = after_all rs (validate r nonces).1

  validate-Holds :
      (r : SignedRequest) (key : Text) (expiry : ℤ) (nonces : Nonces)
      → pos r.now ≤ℤ expiry
      → Holds key expiry nonces
      → Holds key expiry (validate r nonces).1
  unfolding validate_daemon_request_signature
  validate-Holds r key expiry nonces live holds =
      elim (sum-cases (checked_nonce sha256_hex uuid_text r)) [
        | inl (refusal, refused) ↦ rw refused holds
        | inr (entry, passed) ↦
            rw passed (remember_nonce-Holds r.now entry key expiry nonces live holds)
      ]

  after_all-Holds :
      (rs : List SignedRequest) (now : ℕ) (key : Text) (expiry : ℤ) (nonces : Nonces)
      → All (λ r. r.now ≤ now) rs
      → pos now ≤ℤ expiry
      → Holds key expiry nonces
      → Holds key expiry (after_all rs nonces)
  after_all-Holds [] now key expiry nonces before live holds = holds
  after_all-Holds (r ∷ rs) now key expiry nonces before live holds =
      after_all-Holds rs now key expiry _ before.1 live
        (validate-Holds r key expiry nonces (omega (arith, before.0)) holds)

  -- A request that passed the checks and was accepted is in the cache.
  validate_accepted :
      (r : SignedRequest) (nonces : Nonces)
      → IsAccepted (validate r nonces).0
      → (key : Text) × (expiry : ℤ) × Passed uuid_text r key expiry
        × Holds key expiry (validate r nonces).1
  unfolding validate_daemon_request_signature
  validate_accepted r nonces accepted = elim (sum-cases (checked_nonce sha256_hex uuid_text r)) [
    | inl (refusal, refused) ↦ absurd (
        subst (λ m. IsAccepted (remembered sha256_hex uuid_text r.now m nonces).0) refused accepted)
    | inr ((key, expiry), passed) ↦ (
      key,
      expiry,
      checked_nonce-Passed sha256_hex uuid_text r key expiry passed,
      rw passed (
          remember_nonce_accepted r.now key expiry nonces (
            subst (λ m. IsAccepted (remembered sha256_hex uuid_text r.now m nonces).0) passed
              accepted)),
    )
  ]

  same_entry :
      (r replay : SignedRequest) (key key' : Text) (expiry expiry' : ℤ)
      → replay.headers ≡ r.headers
      → replay.identity.node_id ≡ r.identity.node_id
      → Passed uuid_text r key expiry
      → Passed uuid_text replay key' expiry'
      → (key ≡ key') × (expiry ≡ expiry')
  same_entry r replay key key' expiry expiry' headers node p p' = (cc, cc)

  -- A request that was accepted is refused when its headers come again for the same node, on any path and
  -- at any time, after any requests that ran no later than that, pruning of the cache included.
  pub validate-replay :
      (r replay : SignedRequest) (between : List SignedRequest) (nonces : Nonces)
      → IsAccepted (validate r nonces).0
      → replay.headers ≡ r.headers
      → replay.identity.node_id ≡ r.identity.node_id
      → All (λ b. b.now ≤ replay.now) between
      → ¬ IsAccepted (validate replay (after_all between (validate r nonces).1)).0
  unfolding validate_daemon_request_signature
  validate-replay r replay between nonces accepted headers node before again =
      let cache = after_all between (validate r nonces).1 in
      let (key, expiry, p, holds) = validate_accepted r nonces accepted in
      elim (sum-cases (checked_nonce sha256_hex uuid_text replay)) [
        | inl (refusal, refused) ↦
            subst (λ m. IsAccepted (remembered sha256_hex uuid_text replay.now m cache).0) refused
              again
        | inr ((key', expiry'), passed) ↦
            let p' = checked_nonce-Passed sha256_hex uuid_text replay key' expiry' passed in
            let live : pos replay.now ≤ℤ expiry' =
              in_time sha256_hex uuid_text replay.now p'.age p'.timestamp expiry' p'.age_is p'.young
                p'.expiry_is in
            let (same_key, same_expiry) =
              same_entry r replay key key' expiry expiry' headers node p p' in
            let there : Holds key' expiry' cache =
              after_all-Holds between replay.now key' expiry' (validate r nonces).1 before live (
                subst (λ k. Holds k expiry' (validate r nonces).1) same_key
                  (subst (λ x. Holds key x (validate r nonces).1) same_expiry holds)) in
            remember_nonce_refused replay.now key' expiry' cache live there (
              subst (λ m. IsAccepted (remembered sha256_hex uuid_text replay.now m cache).0) passed
                again)
      ]
