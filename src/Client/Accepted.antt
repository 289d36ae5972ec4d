-- ===== src/Client/Accepted.antt =====
-- About the registrations and logins of ClientCore.cpp, as AuthHandler.cpp checks them.
use improject.Base.{[], ◌∷◌, true, ◌||◌, Bytes, ◌≡◌, refl, arith, within, all_of}
use improject.Wire.{utf8_truncate}
use improject.Sha256.{sha256_hex}
use improject.Sha256.Hex.{is_hex_digit, all_of-sha256_hex, length-sha256_hex}
use improject.Client.{Client}
use improject.Client.Send.{login_request, register_request}
use improject.Handlers.Auth.{valid_mainland_mobile, valid_sha256_proof}

all_of-weaken :
    (xs : Bytes)
    → all_of is_hex_digit xs ≡ true
    → all_of (λ c. within 48 57 c || within 97 102 c || within 65 70 c) xs ≡ true
all_of-weaken [] h = refl
all_of-weaken (x ∷ xs) h = ground (arith, all_of-weaken xs, h)

proof_lem : (pass : Bytes) → valid_sha256_proof (sha256_hex pass) ≡ true
unfolding valid_sha256_proof
proof_lem pass =
    ground (arith, length-sha256_hex pass, all_of-weaken (sha256_hex pass) (all_of-sha256_hex pass))

short_lem : (tel : Bytes) → valid_mainland_mobile tel ≡ true → utf8_truncate tel 14 ≡ tel
unfolding valid_mainland_mobile utf8_truncate
short_lem tel h = ground (arith, h)

-- Whatever the password, what the client sends of it passes the server's check of a proof, in a
-- login and in a registration; and a phone number that the server takes arrives in both as it was
-- given.
pub login_request-Valid :
    (nick tel pass : Bytes) (c : Client)
    → valid_mainland_mobile tel ≡ true
    → let login = login_request tel pass c in
      let registration = register_request nick tel pass in
      (valid_sha256_proof login.pass ≡ true)
      × (valid_sha256_proof registration.pass ≡ true)
      × (login.tel ≡ tel)
      × (registration.tel ≡ tel)
unfolding login_request register_request
login_request-Valid nick tel pass c h =
    (proof_lem pass, proof_lem pass, short_lem tel h, short_lem tel h)
