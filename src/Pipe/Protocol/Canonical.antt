-- ===== src/Pipe/Protocol/Canonical.antt =====
-- The parsers accept nothing but what the serialisers write.
use librova.Pipe.Wire.Laws.{read_u32-inv, read_u64-inv, read_string-inv}
use librova.Pipe.Protocol.{
  known, deserialize_request, protocol_version, RequestEnvelope, deserialize_response,
  serialize_request, ResponseEnvelope, IsRequest, serialize_response, IsResponse, request_magic,
  response_magic, to_method, to_status, method_code, status_code,
}
use librova.Base.{
  List, Option, ℕ, String, All, ◌≡◌, length, some, drop, [], length-zero, arith, length-drop, ◌<◌,
  none, ◌^◌, ◌++◌, ◌∙◌, ap, ◌==◌, ==→eq, ap₂, sym, ◌∷◌, append_assoc, append-nil,
}
use librova.Pipe.Protocol.RoundTrip.{
  framed, header, serialize_request-eq-header, serialize_response-eq-header, method_code-to_method,
  status_code-to_status, deserialize_request-header_trailing,
}
use librova.Base.Outcome.{ok, >>=-eq-ok, require-eq-ok, ok-injective, err}
use librova.Pipe.Wire.{IsByte, read_u32, read_u64, le_bytes, read_string}

known-eq-ok {ℓ} :
    {A : Type ℓ} (o : Option A) (message : String) {a : A} → known o message ≡ ok a → o ≡ some a
unfolding known
known-eq-ok none message h = cc
known-eq-ok (some a) message h = cc

-- What is read at 0, 4, 8 and 16 is the header.
module _ (bytes : List ℕ) (bytes_are : All IsByte bytes) (magic version id code n1 n2 n3 n4 : ℕ)
    (r1 : read_u32 bytes 0 ≡ ok (magic, n1)) (r2 : read_u32 bytes n1 ≡ ok (version, n2))
    (is_version : version ≡ protocol_version) (r3 : read_u64 bytes n2 ≡ ok (id, n3))
    (r4 : read_u32 bytes n3 ≡ ok (code, n4)) where
  header_of : (bytes ≡ header magic id code (drop n4 bytes)) × (id < 2 ^ 64) × (n4 ≡ 20)
  unfolding header
  header_of =
      let (a1, d1, _, _) = read_u32-inv bytes 0 bytes_are r1 in
      let (a2, d2, _, _) = read_u32-inv bytes n1 bytes_are r2 in
      let (a3, d3, fits) = read_u64-inv bytes n2 bytes_are r3 in
      let (a4, d4, _, _) = read_u32-inv bytes n3 bytes_are r4 in
      (
        d1
            ∙ ap (◌++◌ (le_bytes 4 magic)) (
                d2
                ∙ ap₂ (λ v rest. le_bytes 4 v ++ rest) is_version
                    (d3 ∙ ap (◌++◌ (le_bytes 8 id)) d4)),
        fits,
        omega (arith, a1, a2, a3, a4),
      )

drop_all : (bytes : List ℕ) (n : ℕ) → n ≡ length bytes → drop n bytes ≡ []
drop_all bytes n e = length-zero _ (omega (arith, length-drop n bytes, e))

-- Every byte string that parses as a request is the serialisation of the request that it gives.
pub serialize-deserialize_request :
    (bytes : List ℕ) {e : RequestEnvelope}
    → All IsByte bytes
    → deserialize_request bytes ≡ ok e
    → (serialize_request e ≡ ok bytes) × IsRequest e
unfolding deserialize_request framed
serialize-deserialize_request bytes {e} b h =
    let ((magic, n1), r1, h1) = >>=-eq-ok (read_u32 bytes 0) _ h in
    let (m1, h2) = require-eq-ok (magic == request_magic) _ _ h1 in
    let ((version, n2), r2, h3) = >>=-eq-ok (read_u32 bytes n1) _ h2 in
    let (m2, h4) = require-eq-ok (version == protocol_version) _ _ h3 in
    let ((id, n3), r3, h5) = >>=-eq-ok (read_u64 bytes n2) _ h4 in
    let ((code, n4), r4, h6) = >>=-eq-ok (read_u32 bytes n3) _ h5 in
    let (method, k, h7) = >>=-eq-ok (known (to_method code) _) _ h6 in
    let ((payload, n5), r5, h8) = >>=-eq-ok (read_string bytes n4) _ h7 in
    let (m3, h9) = require-eq-ok (n5 == length bytes) _ _ h8 in
    let is = ok-injective h9 in
    let (whole, fits, at) =
      header_of bytes b magic version id code n1 n2 n3 n4 r1 r2 (==→eq _ _ m2) r3 r4 in
    let (split, small, room, bytes_are) = read_string-inv bytes n4 b r5 in
    let done = drop_all bytes n5 (==→eq _ _ m3) in
    rw (← is) (
      serialize_request-eq-header _ small
          ∙ ap ok (
              sym (
                whole
                ∙ ap₂ (λ m c. header m id c (drop n4 bytes)) (==→eq _ _ m1)
                    (sym (method_code-to_method code (known-eq-ok (to_method code) _ k)))
                ∙ ap (header request_magic id (method_code method))
                    (split ∙ ap (λ r. framed payload r) done))),
      record { id_fits = fits; payload_bytes = bytes_are; payload_fits = small },
    )

-- Every byte string that parses as a response is the serialisation of the response that it gives.
pub serialize-deserialize_response :
    (bytes : List ℕ) {e : ResponseEnvelope}
    → All IsByte bytes
    → deserialize_response bytes ≡ ok e
    → (serialize_response e ≡ ok bytes) × IsResponse e
unfolding deserialize_response framed
serialize-deserialize_response bytes {e} b h =
    let ((magic, n1), r1, h1) = >>=-eq-ok (read_u32 bytes 0) _ h in
    let (m1, h2) = require-eq-ok (magic == response_magic) _ _ h1 in
    let ((version, n2), r2, h3) = >>=-eq-ok (read_u32 bytes n1) _ h2 in
    let (m2, h4) = require-eq-ok (version == protocol_version) _ _ h3 in
    let ((id, n3), r3, h5) = >>=-eq-ok (read_u64 bytes n2) _ h4 in
    let ((code, n4), r4, h6) = >>=-eq-ok (read_u32 bytes n3) _ h5 in
    let (status, k, h7) = >>=-eq-ok (known (to_status code) _) _ h6 in
    let ((payload, n5), r5, h8) = >>=-eq-ok (read_string bytes n4) _ h7 in
    let ((message, n6), r6, h9) = >>=-eq-ok (read_string bytes n5) _ h8 in
    let (m3, h10) = require-eq-ok (n6 == length bytes) _ _ h9 in
    let is = ok-injective h10 in
    let (whole, fits, at) =
      header_of bytes b magic version id code n1 n2 n3 n4 r1 r2 (==→eq _ _ m2) r3 r4 in
    let (split, small, room, bytes_are) = read_string-inv bytes n4 b r5 in
    let (split', small', room', bytes_are') = read_string-inv bytes n5 b r6 in
    let done = drop_all bytes n6 (==→eq _ _ m3) in
    rw (← is) (
      serialize_response-eq-header _ small small'
          ∙ ap ok (
              sym (
                whole
                ∙ ap₂ (λ m c. header m id c (drop n4 bytes)) (==→eq _ _ m1)
                    (sym (status_code-to_status code (known-eq-ok (to_status code) _ k)))
                ∙ ap (header response_magic id (status_code status))
                    (split ∙ ap (framed payload) (split' ∙ ap (framed message) done)))),
      record {
        id_fits = fits;
        payload_bytes = bytes_are;
        payload_fits = small;
        error_bytes = bytes_are';
        error_fits = small';
      },
    )

header-append :
    (magic id code : ℕ) (payload more : List ℕ)
    → header magic id code (framed payload []) ++ more ≡ header magic id code (framed payload more)
unfolding header framed
header-append magic id code payload more = simp (append_assoc, append-nil)

-- A byte string that parses as a request is refused for its trailing bytes, as soon as one byte or
-- more stands behind it; so no request is a strict prefix of another.
pub request_trailing :
    (bytes : List ℕ) (b : ℕ) (more : List ℕ) {e : RequestEnvelope}
    → All IsByte bytes
    → deserialize_request bytes ≡ ok e
    → deserialize_request (bytes ++ (b ∷ more)) ≡ err "Request envelope contains trailing bytes."
request_trailing bytes b more {e} bytes_are h =
    let (is, v) = serialize-deserialize_request bytes bytes_are h in
    let at : header request_magic e.request_id (method_code e.method) (framed e.payload [])
        ≡ bytes =
      ok-injective (sym (serialize_request-eq-header e v.payload_fits) ∙ is) in
    deserialize_request-header_trailing e b more (bytes ++ (b ∷ more))
      (ap (λ t. t ++ (b ∷ more)) (sym at)
        ∙ header-append request_magic e.request_id (method_code e.method) e.payload (b ∷ more))
      v
