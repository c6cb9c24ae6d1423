-- ===== src/Pipe/Protocol/RoundTrip.antt =====
-- Parsing after serialising, for both envelopes.
use librova.Pipe.Protocol.{
  method_code, to_method, to_status, status_code, PipeMethod, ResponseStatus, start_import,
  status_ok, serialize_request, serialize_response, deserialize_request, deserialize_response,
  RequestEnvelope, ResponseEnvelope, request_magic, response_magic, IsRequest, IsResponse,
  protocol_version,
}
use librova.Base.{
  ◌≡◌, some, ℕ, refl, arith, List, [], ◌≤◌, ◌++◌, length, eq→==, ◌+◌, ◌<◌, ◌^◌, drop, le→leb,
  append_assoc, append-nil, ◌∷◌, ◌==◌, false, ap, length-drop,
}
use librova.Base.Outcome.{ok, ◌>>=◌, err}
use librova.Pipe.Wire.{append_string, append_u32, append_u64, le_bytes, max_u32, read_u32, read_u64}
use librova.Pipe.Wire.Laws.{read_string_at, at_end, read_u32_at, read_u64_at}

pub to_method-method_code : (m : PipeMethod) → to_method (method_code m) ≡ some m
unfolding to_method method_code
to_method-method_code start_import = refl
to_method-method_code _ = refl

pub to_status-status_code : (s : ResponseStatus) → to_status (status_code s) ≡ some s
unfolding to_status status_code
to_status-status_code status_ok = refl
to_status-status_code _ = refl

pub method_code-to_method : (v : ℕ) {m : PipeMethod} → to_method v ≡ some m → method_code m ≡ v
unfolding to_method method_code
method_code-to_method v h = ground arith

pub status_code-to_status : (v : ℕ) {s : ResponseStatus} → to_status v ≡ some s → status_code s ≡ v
unfolding to_status status_code
status_code-to_status v h = ground arith

method_code-le : (m : PipeMethod) → method_code m ≤ 12
unfolding method_code
method_code-le m = ground arith

status_code-le : (s : ResponseStatus) → status_code s ≤ 3
unfolding status_code
status_code-le s = ground arith

-- The 20 bytes before the texts, and what follows them.
unfoldable pub header : ℕ → ℕ → ℕ → List ℕ → List ℕ
header magic request_id code rest =
    le_bytes 4 magic
    ++ (le_bytes 4 protocol_version ++ (le_bytes 8 request_id ++ (le_bytes 4 code ++ rest)))

-- A text with its length in front, and what follows it.
unfoldable pub framed : List ℕ → List ℕ → List ℕ
framed text rest = le_bytes 4 (length text) ++ (text ++ rest)

pub serialize_request-eq-header :
    (e : RequestEnvelope)
    → length e.payload ≤ max_u32
    → serialize_request e
      ≡ ok (header request_magic e.request_id (method_code e.method) (framed e.payload []))
unfolding serialize_request header framed append_string append_u32 append_u64
serialize_request-eq-header e h = rw (le→leb _ _ h) (simp (append_assoc, append-nil))

pub serialize_response-eq-header :
    (e : ResponseEnvelope)
    → length e.payload ≤ max_u32
    → length e.error_message ≤ max_u32
    → serialize_response e
      ≡ ok (
          header response_magic e.request_id
            (status_code e.status)
            (framed e.payload (framed e.error_message [])))
unfolding serialize_response header framed append_string append_u32 append_u64
serialize_response-eq-header e h k =
    rw (le→leb _ _ h, le→leb _ _ k) (simp (append_assoc, append-nil))

-- The four reads of a header.
module _ (magic request_id code : ℕ) (rest bytes : List ℕ)
    (is : bytes ≡ header magic request_id code rest) (magic_fits : magic ≤ max_u32)
    (id_fits : request_id < 2 ^ 64) (code_fits : code ≤ max_u32) where
  header_read :
      (read_u32 bytes 0 ≡ ok (magic, 4))
      × (read_u32 bytes 4 ≡ ok (protocol_version, 8))
      × (read_u64 bytes 8 ≡ ok (request_id, 16))
      × (read_u32 bytes 16 ≡ ok (code, 20))
      × (drop 20 bytes ≡ rest)
  unfolding header
  header_read =
      let (r1, d1, _) = read_u32_at magic bytes _ 0 magic_fits is in
      let (r2, d2, _) = read_u32_at protocol_version bytes _ 4 (omega arith) d1 in
      let (r3, d3) = read_u64_at request_id bytes _ 8 id_fits d2 in
      let (r4, d4, _) = read_u32_at code bytes _ 16 code_fits d3 in (r1, r2, r3, r4, d4)

deserialize_request-header :
    (e : RequestEnvelope) (bytes : List ℕ)
    → bytes ≡ header request_magic e.request_id (method_code e.method) (framed e.payload [])
    → IsRequest e
    → deserialize_request bytes ≡ ok e
unfolding deserialize_request framed
deserialize_request-header e bytes is v =
    let (r1, r2, r3, r4, d) =
      header_read request_magic e.request_id (method_code e.method) (framed e.payload []) bytes is
        (omega arith) v.id_fits (omega (arith, method_code-le e.method)) in
    let (r5, d5, h5) = read_string_at e.payload bytes [] 20 v.payload_fits d in
    rw (r1, r2, r3, r4, to_method-method_code e.method, r5, eq→== _ _ (at_end bytes _ d5 h5))

-- The parser on a request with bytes behind it.
pub deserialize_request-header_trailing :
    (e : RequestEnvelope) (b : ℕ) (more bytes : List ℕ)
    → bytes ≡ header request_magic e.request_id (method_code e.method) (framed e.payload (b ∷ more))
    → IsRequest e
    → deserialize_request bytes ≡ err "Request envelope contains trailing bytes."
unfolding deserialize_request framed
deserialize_request-header_trailing e b more bytes is v =
    let rest = framed e.payload (b ∷ more) in
    let (r1, r2, r3, r4, d) =
      header_read request_magic e.request_id (method_code e.method) rest bytes is (omega arith)
        v.id_fits (omega (arith, method_code-le e.method)) in
    let (r5, d5, h5) = read_string_at e.payload bytes (b ∷ more) 20 v.payload_fits d in
    let last = 20 + 4 + length e.payload in
    let early : (last == length bytes) ≡ false =
      ground (arith, ap length d5, length-drop last bytes) in
    rw (r1, r2, r3, r4, to_method-method_code e.method, r5, early)

deserialize_response-header :
    (e : ResponseEnvelope) (bytes : List ℕ)
    → bytes
      ≡ header response_magic e.request_id
          (status_code e.status)
          (framed e.payload (framed e.error_message []))
    → IsResponse e
    → deserialize_response bytes ≡ ok e
unfolding deserialize_response framed
deserialize_response-header e bytes is v =
    let (r1, r2, r3, r4, d) =
      header_read response_magic e.request_id (status_code e.status)
        (framed e.payload (framed e.error_message [])) bytes is (omega arith) v.id_fits
        (omega (arith, status_code-le e.status)) in
    let (r5, d5, h5) =
      read_string_at e.payload bytes (framed e.error_message []) 20 v.payload_fits d in
    let (r6, d6, h6) =
      read_string_at e.error_message bytes [] (20 + 4 + length e.payload) v.error_fits d5 in
    rw (r1, r2, r3, r4, to_status-status_code e.status, r5, r6, eq→== _ _ (at_end bytes _ d6 h6))

-- A request whose id has 64 bits and whose payload is a byte string of at most 2^32 - 1 bytes is
-- serialised, and the parser gives it back from the bytes.
pub deserialize-serialize_request :
    (e : RequestEnvelope) → IsRequest e → (serialize_request e >>= deserialize_request) ≡ ok e
deserialize-serialize_request e v =
    rw (serialize_request-eq-header e v.payload_fits) (deserialize_request-header e _ refl v)

-- A response whose id has 64 bits and whose two texts are byte strings of at most 2^32 - 1 bytes is
-- serialised, and the parser gives it back from the bytes.
pub deserialize-serialize_response :
    (e : ResponseEnvelope) → IsResponse e → (serialize_response e >>= deserialize_response) ≡ ok e
deserialize-serialize_response e v =
    rw (serialize_response-eq-header e v.payload_fits v.error_fits)
      (deserialize_response-header e _ refl v)
