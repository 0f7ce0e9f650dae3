-- ===== src/Cmd/Users.antt =====
-- Whom the supervisor answers, by the user that the process finds.
use wireguard_bgp.Base.{
  Bool, ℕ, zero, suc, true, false, ◌≡◌, refl, ◌⊎◌, inl, inr, none, some, [], ◌∷◌, arith,
}
use wireguard_bgp.Text.{Text}
use wireguard_bgp.Strconv.{ℤ, pos, negsuc, atoi}
use wireguard_bgp.Supervisor.World.{Answer, ok, err}
use wireguard_bgp.Supervisor.Dispatch.{authorize}
use wireguard_bgp.Cmd.{app_uid, numeric}

-- The peer is the user that was found; or there is none to find; or the text of the user's number
-- is 0 or less.
pub data IsAdmitted (raw : Text) (user : Answer Text) (peer : Answer ℕ) : Type 0 where
  own :
      (n : ℕ) → app_uid raw user ≡ some (pos (suc n)) → peer ≡ ok (suc n) → IsAdmitted raw user peer
  no_user : (e : Text) → raw ≡ [] → user ≡ err e → IsAdmitted raw user peer
  not_positive :
      (text : Text) (z : ℤ)
      → (raw ≡ text) ⊎ (user ≡ ok text)
      → atoi text ≡ (z, true)
      → (z ≡ pos 0) ⊎ ((n : ℕ) × (z ≡ negsuc n))
      → IsAdmitted raw user peer

numeric_lem : (o : ℤ × Bool) (z : ℤ) → numeric o ≡ some z → o ≡ (z, true)
numeric_lem (y, true) z h = ground arith
numeric_lem (y, false) z h = cc

number_of :
    (raw : Text) (user : Answer Text) (z : ℤ) (peer : Answer ℕ)
    → app_uid raw user ≡ some z
    → (z ≡ pos 0) ⊎ ((n : ℕ) × (z ≡ negsuc n))
    → IsAdmitted raw user peer
unfolding app_uid
number_of [] (err e) z peer h low = no_user e refl refl
number_of [] (ok uid) z peer h low = not_positive uid z (inr refl) (numeric_lem (atoi uid) z h) low
number_of (c ∷ raw) user z peer h low =
    not_positive (c ∷ raw) z (inl refl) (numeric_lem (atoi (c ∷ raw)) z h) low

-- With the number that `appUID` finds as `AllowedUID`, the supervisor answers a peer only if it is
-- a process of that user, unless no variable APP_UID is set and the user `app` does not exist, or
-- the number is not positive: then `authorize` lets every peer in.
pub authorize-app_uid :
    (raw : Text) (user : Answer Text) (z : ℤ) (peer : Answer ℕ)
    → app_uid raw user ≡ some z
    → authorize z peer ≡ none
    → IsAdmitted raw user peer
unfolding authorize
authorize-app_uid raw user (pos zero) peer h a = number_of raw user (pos zero) peer h (inl refl)
authorize-app_uid raw user (negsuc n) peer h a =
    number_of raw user (negsuc n) peer h (inr (n, refl))
authorize-app_uid raw user (pos (suc n)) (err e) h a = cc
authorize-app_uid raw user (pos (suc n)) (ok uid) h a = own n h (ground arith)
