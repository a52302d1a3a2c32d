-- ===== src/Auth/Signature/Verified.antt =====
-- What VerifySignature has established when it accepts a request, and when it accepts one.
use insight_collector.Prelude.{
  ℕ, String, true, Option, none, some, [], ◌∷◌, ok, ◌≡◌, ◌↔◌, ◌⊎◌, inl, inr, refl, arith,
  Option-cases, Result-cases, text_cases,
}
use insight_collector.Text.Integers.{parse_int}
use insight_collector.Auth.Config.{ClientConfig}
use insight_collector.Auth.Registry.{Registry, get_client_info, get_client_secret_key}
use insight_collector.Auth.Nonces.{in_window, register_nonce, register_fresh}
use insight_collector.Auth.Service.{AuthState}
use insight_collector.Auth.Signature.{
  Bytes, SignaturePayload, Hash, Crypto, SignedRequest, to_payload, get_hash_function, same_bytes,
  verify_rsa_signature, verify_hmac_signature, check_request, check_signature, verify_signature,
}

-- hmac.Equal decides equality.
pub same_bytes_iff : (xs ys : Bytes) → (same_bytes xs ys ≡ true) ↔ (xs ≡ ys)
unfolding same_bytes
same_bytes_iff [] [] = (λ _. refl, λ _. refl)
same_bytes_iff [] (y ∷ ys) = (λ h. cc, λ h. cc)
same_bytes_iff (x ∷ xs) [] = (λ h. cc, λ h. cc)
same_bytes_iff (x ∷ xs) (y ∷ ys) = ground (arith, same_bytes_iff xs ys)

module _ {Key : Type 0} where
  pub check_request-eq-ok :
      (now : ℕ) (q : SignedRequest) (r : Registry Key) (timestamp : ℕ) (client : ClientConfig)
      → check_request now q r ≡ ok (timestamp, client)
      → (parse_int q.timestamp_str ≡ some timestamp)
        × (in_window now timestamp ≡ true)
        × ((key : Option Key) × (get_client_info q.client_id r ≡ some (key, client)))
        × (client.active ≡ true)
  unfolding check_request
  check_request-eq-ok now q r timestamp client e =
      elim (Option-cases (get_client_info q.client_id r)) [
        | inl missing ↦ absurd (ground arith)
        | inr ((key, c), found) ↦ (ground arith, ground arith, (key, ground arith), ground arith)
      ]

  pub check_request_ok :
      (now : ℕ) (q : SignedRequest) (r : Registry Key) (timestamp : ℕ) (key : Option Key)
      (client : ClientConfig)
      → parse_int q.timestamp_str ≡ some timestamp
      → in_window now timestamp ≡ true
      → get_client_info q.client_id r ≡ some (key, client)
      → client.active ≡ true
      → check_request now q r ≡ ok (timestamp, client)
  unfolding check_request
  check_request_ok now q r timestamp key client p w k a = ground arith

module _ {Key : Type 0} (crypto : Crypto Key) (algorithm : String) where
  -- The signature that came with the payload is the client's.
  abbrev pub IsSigned :
      Option Key → ClientConfig → SignaturePayload → String → Bytes → Registry Key → Type 0
  IsSigned key client payload id signature r =
      (hash : Hash) × (get_hash_function algorithm ≡ ok hash)
      × (((client.auth_type ≡ "rsa")
            × ((k : Key) × (key ≡ some k)
                × (crypto.rsa_verify k hash (crypto.digest hash (crypto.marshal payload)) signature
                    ≡ true)))
          ⊎ ((client.auth_type ≡ "hmac")
              × ((secret : String) × (get_client_secret_key id r ≡ some secret)
                  × (signature ≡ crypto.hmac hash secret (crypto.marshal payload)))))

  pub record IsAccepted (now : ℕ) (q : SignedRequest) (s : AuthState Key) (client : ClientConfig)
      : Type 0 where
    pub timestamp : ℕ
    pub key : Option Key
    pub signature : Bytes
    pub parsed : parse_int q.timestamp_str ≡ some timestamp
    pub on_time : in_window now timestamp ≡ true
    pub known : get_client_info q.client_id s.registry ≡ some (key, client)
    pub active : client.active ≡ true
    pub fresh : (q.nonce ≡ "") ⊎ (s.used_nonces q.nonce ≡ none)
    pub decoded : crypto.decode q.signature_str ≡ some signature
    pub signed : IsSigned key client (to_payload q timestamp) q.client_id signature s.registry

  rsa_signed :
      (payload : SignaturePayload) (signature : Bytes) (id : String) (r : Registry Key)
      (key : Option Key) (client : ClientConfig)
      → get_client_info id r ≡ some (key, client)
      → verify_rsa_signature crypto algorithm payload signature id r ≡ ok tt
      → (hash : Hash) × (get_hash_function algorithm ≡ ok hash)
        × ((k : Key) × (key ≡ some k)
            × (crypto.rsa_verify k hash (crypto.digest hash (crypto.marshal payload)) signature
                ≡ true))
  unfolding verify_rsa_signature
  rsa_signed payload signature id r key client known e = ground arith

  hmac_signed :
      (payload : SignaturePayload) (signature : Bytes) (id : String) (r : Registry Key)
      → verify_hmac_signature crypto algorithm payload signature id r ≡ ok tt
      → (hash : Hash) × (get_hash_function algorithm ≡ ok hash)
        × ((secret : String) × (get_client_secret_key id r ≡ some secret)
            × (signature ≡ crypto.hmac hash secret (crypto.marshal payload)))
  unfolding verify_hmac_signature
  hmac_signed payload signature id r e = elim (Option-cases (get_client_secret_key id r)) [
    | inl missing ↦ absurd (ground arith)
    | inr (secret, found) ↦ elim (Result-cases (get_hash_function algorithm)) [
      | inr (x, bad) ↦ absurd (ground arith)
      | inl (hash, good) ↦ (hash, good, (secret, found, (same_bytes_iff _ _).0 (ground arith)))
    ]
  ]

  check_signature-eq-ok :
      (timestamp : ℕ) (key : Option Key) (client c : ClientConfig) (q : SignedRequest)
      (r : Registry Key)
      → get_client_info q.client_id r ≡ some (key, client)
      → check_signature crypto algorithm timestamp client q r ≡ ok c
      → (c ≡ client)
        × ((signature : Bytes) × (crypto.decode q.signature_str ≡ some signature)
            × IsSigned key client (to_payload q timestamp) q.client_id signature r)
  unfolding check_signature
  check_signature-eq-ok timestamp key client c q r known e =
      elim (Option-cases (crypto.decode q.signature_str)) [
        | inl missing ↦ absurd (ground arith)
        | inr (signature, decoded) ↦ (
          ground arith,
          (
            signature,
            decoded,
            elim (text_cases client.auth_type "rsa") [
              | inl (rsa, t) ↦
                  let (hash, good, proof) =
                    rsa_signed (to_payload q timestamp) signature q.client_id r key client known
                      (ground arith) in
                  (hash, good, inl (rsa, proof))
              | inr (other, t) ↦ elim (text_cases client.auth_type "hmac") [
                | inl (hmac, u) ↦
                    let (hash, good, proof) =
                      hmac_signed (to_payload q timestamp) signature q.client_id r (ground arith) in
                    (hash, good, inr (hmac, proof))
                | inr (neither, u) ↦ absurd (ground arith)
              ]
            ],
          ),
        )
      ]

  pub verify_signature-IsAccepted :
      (now : ℕ) (q : SignedRequest) (s : AuthState Key) (client : ClientConfig)
      → (verify_signature crypto algorithm now q s).0 ≡ ok client
      → IsAccepted now q s client
  unfolding verify_signature
  verify_signature-IsAccepted now q s client e =
      elim (Result-cases (check_request now q s.registry)) [
        | inr (x, bad) ↦ absurd (ground arith)
        | inl ((timestamp, c), checked) ↦
            let (parsed, on_time, (key, known), active) =
              check_request-eq-ok now q s.registry timestamp c checked in
            elim (Option-cases (register_nonce q.nonce timestamp s.used_nonces)) [
              | inl replay ↦ absurd (ground arith)
              | inr (used, registered) ↦
                  let (same, (signature, decoded, signed)) =
                    check_signature-eq-ok timestamp key c client q s.registry known
                      (ground arith) in
                  record {
                    timestamp = timestamp;
                    key = key;
                    signature = signature;
                    parsed = parsed;
                    on_time = on_time;
                    known = rw same known;
                    active = rw same active;
                    fresh = register_fresh q.nonce timestamp s.used_nonces used registered;
                    decoded = decoded;
                    signed = rw same signed;
                  }
            ]
      ]
