-- ===== src/Transfer/Quota/Boundary.antt =====
-- The quota boundary over sequences of operations.
use tdrive.Base.{ℕ, ◌<◌, ◌≡◌, subst, true}
use tdrive.Base.Int.{pos_part}
use tdrive.Transfer.Quota.{QuotaKey, same_key, Stored, ensure_loaded}
use tdrive.Transfer.Quota.Ledger.{
  Granted, same_key_sound, Desk, Step, granted, refused, reported, released, Steps, stop, next,
}
use tdrive.Transfer.Quota.Balance.{after_grant, after_refusal}
use tdrive.Transfer.Quota.Crossing.{
  AtMostExpected, IsBounded, loaded-IsBounded, claim-IsBounded, reported-IsBounded,
  released-IsBounded,
}

module _ (stored : Stored) (limit_of : QuotaKey → ℕ) (k : QuotaKey)
    (positive : 0 < limit_of k) where
  own_limit :
      (key : QuotaKey) (n used reserved : ℕ)
      → Granted (limit_of key) n used reserved
      → same_key key k ≡ true
      → Granted (limit_of k) n used reserved
  own_limit key n used reserved g e =
      subst (λ x. Granted (limit_of x) n used reserved) (same_key_sound key k e) g

  step-IsBounded :
      (d e : Desk)
      → IsBounded (limit_of k) k d
      → Step stored limit_of AtMostExpected d e
      → IsBounded (limit_of k) k e
  step-IsBounded d e h (granted key size t t_after r rs eq) =
      let (a, b, g) = after_grant stored key (limit_of key) size t t_after r eq in
      let l = ensure_loaded stored (key.account_id) (key.date) t in
      rw (a, b)
        (claim-IsBounded (limit_of k) k key (pos_part size) l rs positive
          (loaded-IsBounded (limit_of k) k stored (key.account_id) (key.date) t rs h)
          (own_limit key (pos_part size) (l.used key) (l.reserved key) g))
  step-IsBounded d e h (refused key size t t_after rs eq) =
      rw (after_refusal stored key (limit_of key) size t t_after eq)
        (loaded-IsBounded (limit_of k) k stored (key.account_id) (key.date) t rs h)
  step-IsBounded d e h (reported bytes t before r rest ok) =
      reported-IsBounded (limit_of k) k bytes t before r rest ok h
  step-IsBounded d e h (released t before r rest) =
      released-IsBounded (limit_of k) k t before r rest h

  -- For a key with a positive limit whose day is loaded: whatever sequence of reserve, of setActual with
  -- no more than the expected bytes and of commit runs, for this key and any others, at every point the
  -- used bytes and the bytes of the open reservations are together within the limit, or at most one of
  -- the open reservations under the key expects any bytes.
  pub steps-IsBounded :
      (d e : Desk)
      → IsBounded (limit_of k) k d
      → Steps stored limit_of AtMostExpected d e
      → IsBounded (limit_of k) k e
  steps-IsBounded d e h (stop _) = h
  steps-IsBounded d e h (next _ m _ s rest) = steps-IsBounded m e (step-IsBounded d m h s) rest
