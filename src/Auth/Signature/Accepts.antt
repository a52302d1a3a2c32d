-- ===== src/Auth/Signature/Accepts.antt =====
-- When VerifySignature accepts: exactly the signed requests, among them those that the signature
-- command prepares.
use insight_collector.Prelude.{
  ℕ, String, true, Option, none, some, ok, ◌≡◌, ◌↔◌, ◌⊎◌, inl, inr, refl, arith, eq_iff,
  Result-cases,
}
use insight_collector.Text.Integers.{parse_int}
use insight_collector.Auth.Config.{ClientConfig}
use insight_collector.Auth.Registry.{Registry, get_client_info, get_client_secret_key}
use insight_collector.Auth.Nonces.{in_window, register_total}
use insight_collector.Auth.Service.{AuthState}
use insight_collector.Auth.Signature.{
  Bytes, Crypto, SignedRequest, to_payload, get_hash_function, check_signature, verify_signature,
  generate_hmac_signature,
}
use insight_collector.Auth.Signature.Verified.{
  same_bytes_iff, IsSigned, IsAccepted, check_request_ok, verify_signature-IsAccepted,
}

module _ {Key : Type 0} (crypto : Crypto Key) (algorithm : String) where
  signed_passes :
      (timestamp : ℕ) (key : Option Key) (client : ClientConfig) (q : SignedRequest)
      (r : Registry Key) (signature : Bytes)
      → get_client_info q.client_id r ≡ some (key, client)
      → crypto.decode q.signature_str ≡ some signature
      → IsSigned crypto algorithm key client (to_payload q timestamp) q.client_id signature r
      → check_signature crypto algorithm timestamp client q r ≡ ok client
  unfolding check_signature
  signed_passes timestamp key client q r signature known decoded
        (hash, good, inl (rsa, (k, is_key, verified))) =
      ground (arith, eq_iff client.auth_type "rsa")
  signed_passes timestamp key client q r signature known decoded
        (hash, good, inr (hmac, (secret, found, same))) =
      ground (
        arith,
        eq_iff client.auth_type "rsa",
        eq_iff client.auth_type "hmac",
        eq_iff "hmac" "rsa",
        same_bytes_iff signature
            (crypto.hmac hash secret (crypto.marshal (to_payload q timestamp))),
      )

  accepted_verifies :
      (now : ℕ) (q : SignedRequest) (s : AuthState Key) (client : ClientConfig)
      → IsAccepted crypto algorithm now q s client
      → (verify_signature crypto algorithm now q s).0 ≡ ok client
  unfolding verify_signature
  accepted_verifies now q s client a =
      let checked =
        check_request_ok now q s.registry a.timestamp a.key client a.parsed a.on_time a.known
          a.active in
      let (used, registered) = register_total q.nonce a.timestamp s.used_nonces a.fresh in
      let passed =
        signed_passes a.timestamp a.key client q s.registry a.signature a.known a.decoded
          a.signed in
      ground arith

  -- VerifySignature accepts a request for a client exactly when the timestamp parses and is in the
  -- window, the client id is known and its client active, the nonce is empty or unused, and the
  -- decoded signature is the client's (RSA or HMAC by the client's type) for the configured
  -- algorithm over the payload of the request.
  pub verify_signature_iff :
      (now : ℕ) (q : SignedRequest) (s : AuthState Key) (client : ClientConfig)
      → ((verify_signature crypto algorithm now q s).0 ≡ ok client)
        ↔ IsAccepted crypto algorithm now q s client
  verify_signature_iff now q s client = (
    verify_signature-IsAccepted crypto algorithm now q s client,
    accepted_verifies now q s client,
  )

  -- A request that carries the signature generated for its payload with the client's secret key
  -- is accepted, if base64 decodes what it has encoded, the timestamp parses and is in the window,
  -- the id belongs to an active HMAC client, and the nonce is empty or unused.
  pub generate-verify_signature :
      (now timestamp : ℕ) (q : SignedRequest) (s : AuthState Key) (client : ClientConfig)
      (secret : String)
      → ((bytes : Bytes) → crypto.decode (crypto.encode bytes) ≡ some bytes)
      → generate_hmac_signature crypto algorithm (to_payload q timestamp) secret
        ≡ ok q.signature_str
      → parse_int q.timestamp_str ≡ some timestamp
      → in_window now timestamp ≡ true
      → get_client_info q.client_id s.registry ≡ some (none, client)
      → client.active ≡ true
      → client.auth_type ≡ "hmac"
      → get_client_secret_key q.client_id s.registry ≡ some secret
      → (q.nonce ≡ "") ⊎ (s.used_nonces q.nonce ≡ none)
      → (verify_signature crypto algorithm now q s).0 ≡ ok client
  unfolding generate_hmac_signature
  generate-verify_signature now timestamp q s client secret decodes generated parsed on_time known
        active hmac stored fresh =
      elim (Result-cases (get_hash_function algorithm)) [
        | inr (x, bad) ↦ absurd (ground arith)
        | inl (hash, good) ↦
            let signature = crypto.hmac hash secret (crypto.marshal (to_payload q timestamp)) in
            let encoded : crypto.encode signature ≡ q.signature_str = ground arith in
            accepted_verifies now q s client (record {
              timestamp = timestamp;
              key = none;
              signature = signature;
              parsed = parsed;
              on_time = on_time;
              known = known;
              active = active;
              fresh = fresh;
              decoded = rw encoded at (decodes signature);
              signed = (hash, good, inr (hmac, (secret, stored, refl)));
            })
      ]
