-- ===== src/Tests/Signatures.antt =====
-- Signed requests and their nonces at a concrete request.
use insight_collector.Prelude.{
  ◌+◌, ◌≤◌, true, none, some, [], ◌∷◌, ok, ◌≡◌, ◌≢◌, ◌↔◌, refl, inr, arith, eq_iff,
}
use insight_collector.Text.Integers.{parse_int}
use insight_collector.Auth.Registry.{
  load_public_key, cache_key, add_client, load_clients, get_client_info, get_client_secret_key,
}
use insight_collector.Auth.Nonces.{window_time, in_window, in_window_iff}
use insight_collector.Auth.Signature.{
  SignedRequest, get_hash_function, check_request, generate_hmac_signature, verify_signature,
}
use insight_collector.Auth.Signature.Verified.{IsAccepted}
use insight_collector.Auth.Signature.Accepts.{verify_signature_iff, generate-verify_signature}
use insight_collector.Auth.Signature.Replay.{request, tick, run, no_replay, unsigned_uses_nonce}
use insight_collector.Tests.Data.{hmac_client, state, crypto, signed_request, decodes}

verify_signature_iff_example :
    ((verify_signature crypto "HS256" 1000 signed_request state).0 ≡ ok hmac_client)
    ↔ IsAccepted crypto "HS256" 1000 signed_request state hmac_client
verify_signature_iff_example =
    verify_signature_iff crypto "HS256" 1000 signed_request state hmac_client

in_window_iff_example :
    (in_window 1000 970 ≡ true) ↔ ((1000 ≤ 970 + window_time) × (970 ≤ 1000 + window_time))
in_window_iff_example = in_window_iff 1000 970 (omega arith) (omega arith)

parsed : parse_int signed_request.timestamp_str ≡ some 1000
unfolding parse_int
parsed = refl

on_time : in_window 1000 1000 ≡ true
unfolding in_window
on_time = refl

known : get_client_info signed_request.client_id state.registry ≡ some (none, hmac_client)
unfolding get_client_info load_clients add_client cache_key load_public_key
known = refl

stored : get_client_secret_key signed_request.client_id state.registry ≡ some "s3cret"
unfolding get_client_secret_key load_clients add_client cache_key load_public_key
stored = refl

generated :
    generate_hmac_signature crypto "HS256"
      (record {
        client_id = "shop";
        timestamp = 1000;
        nonce = "n1";
        method = "GET";
        path = "/v1/logs";
        body = "";
      })
      "s3cret"
    ≡ ok signed_request.signature_str
unfolding generate_hmac_signature get_hash_function
generated = refl

generate-verify_signature_example :
    (verify_signature crypto "HS256" 1000 signed_request state).0 ≡ ok hmac_client
generate-verify_signature_example =
    generate-verify_signature crypto "HS256" 1000 1000 signed_request state hmac_client "s3cret"
      decodes generated parsed on_time known refl refl stored (inr refl)

accepted : (verify_signature crypto "HS256" 1000 signed_request state).0 ≡ ok hmac_client
accepted =
    generate-verify_signature crypto "HS256" 1000 1000 signed_request state hmac_client "s3cret"
      decodes generated parsed on_time known refl refl stored (inr refl)

checked : check_request 1000 signed_request state.registry ≡ ok (1000, hmac_client)
unfolding check_request parse_int in_window get_client_info load_clients add_client cache_key
    load_public_key
checked = refl

-- The same signature by a sender who knows neither the secret key nor the id's owner
abbrev unsigned_request : SignedRequest
unsigned_request = record signed_request { signature_str = "b" }

unsigned_checked : check_request 1000 unsigned_request state.registry ≡ ok (1000, hmac_client)
unfolding check_request parse_int in_window get_client_info load_clients add_client cache_key
    load_public_key
unsigned_checked = refl

given : signed_request.nonce ≢ ""
given e = ground (arith, eq_iff "n1" "")

no_replay_example :
    (verify_signature crypto "HS256" 1400 signed_request (
      run crypto "HS256"
        (request 1001 unsigned_request ∷ tick 1301 ∷ [])
        (verify_signature crypto "HS256" 1000 signed_request state).1)).0
    ≢ ok hmac_client
no_replay_example =
    no_replay crypto "HS256" 1000 1400 signed_request signed_request state hmac_client hmac_client
      (request 1001 unsigned_request ∷ tick 1301 ∷ []) accepted given refl refl
      (omega arith, (omega arith, omega arith)) (omega arith)

unsigned_uses_nonce_example :
    (verify_signature crypto "HS256" 1001 signed_request
      (verify_signature crypto "HS256" 1000 unsigned_request state).1).0
    ≢ ok hmac_client
unsigned_uses_nonce_example =
    unsigned_uses_nonce crypto "HS256" 1000 1001 1000 unsigned_request signed_request state
      hmac_client hmac_client unsigned_checked given refl refl
