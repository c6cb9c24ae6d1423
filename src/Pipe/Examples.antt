-- ===== src/Pipe/Examples.antt =====
-- Tests of the framing, and its theorems at concrete messages.
use librova.Pipe.Protocol.{
  RequestEnvelope, IsRequest, serialize_request, deserialize_request, ResponseEnvelope, IsResponse,
  deserialize_response, serialize_response, list_books, method_code, internal_error, to_method,
  to_status,
}
use librova.Base.{List, ◌≡◌, ℕ, arith, ◌∷◌, [], ◌++◌, refl}
use librova.Pipe.Wire.{
  read_u32, append_u32, read_u64, append_u64, read_string, append_string, from_le, le_bytes,
}
use librova.Base.Outcome.{◌>>=◌, ok, err}
use librova.Pipe.Protocol.RoundTrip.{deserialize-serialize_request, deserialize-serialize_response}
use librova.Pipe.Protocol.Canonical.{
  serialize-deserialize_request, serialize-deserialize_response, request_trailing,
}

abbrev list_request : RequestEnvelope
list_request = record { request_id = 7; method = list_books; payload = 10 ∷ 255 ∷ [] }

abbrev list_request_bytes : List ℕ
list_request_bytes =
    0x50 ∷ 0x52 ∷ 0x46 ∷ 0x4C ∷ 1 ∷ 0 ∷ 0 ∷ 0 ∷ 7 ∷ 0 ∷ 0 ∷ 0 ∷ 0 ∷ 0 ∷ 0 ∷ 0 ∷ 2 ∷ 0 ∷ 0 ∷ 0 ∷ 2
    ∷ 0 ∷ 0 ∷ 0 ∷ 10 ∷ 255 ∷ []

list_request-IsRequest : IsRequest list_request
list_request-IsRequest = record {
  id_fits = omega arith;
  payload_bytes = omega arith;
  payload_fits = omega arith;
}

serialize_list_request : serialize_request list_request ≡ ok list_request_bytes
unfolding serialize_request method_code append_u32 append_u64 append_string le_bytes
serialize_list_request = refl

deserialize_list_request : deserialize_request list_request_bytes ≡ ok list_request
unfolding deserialize_request read_u32 read_u64 read_string from_le to_method
deserialize_list_request = refl

abbrev error_response : ResponseEnvelope
error_response = record {
  request_id = 9;
  status = internal_error;
  payload = [];
  error_message = b'n' ∷ b'o' ∷ [];
}

abbrev error_response_bytes : List ℕ
error_response_bytes =
    0x53 ∷ 0x52 ∷ 0x46 ∷ 0x4C ∷ 1 ∷ 0 ∷ 0 ∷ 0 ∷ 9 ∷ 0 ∷ 0 ∷ 0 ∷ 0 ∷ 0 ∷ 0 ∷ 0 ∷ 3 ∷ 0 ∷ 0 ∷ 0 ∷ 0
    ∷ 0 ∷ 0 ∷ 0 ∷ 2 ∷ 0 ∷ 0 ∷ 0 ∷ b'n' ∷ b'o' ∷ []

error_response-IsResponse : IsResponse error_response
error_response-IsResponse = record {
  id_fits = omega arith;
  payload_bytes = tt;
  payload_fits = omega arith;
  error_bytes = omega arith;
  error_fits = omega arith;
}

deserialize_error_response : deserialize_response error_response_bytes ≡ ok error_response
unfolding deserialize_response read_u32 read_u64 read_string from_le to_status
deserialize_error_response = refl

deserialize-serialize_request_example :
    (serialize_request list_request >>= deserialize_request) ≡ ok list_request
deserialize-serialize_request_example =
    deserialize-serialize_request list_request list_request-IsRequest

deserialize-serialize_response_example :
    (serialize_response error_response >>= deserialize_response) ≡ ok error_response
deserialize-serialize_response_example =
    deserialize-serialize_response error_response error_response-IsResponse

serialize-deserialize_request_example :
    (serialize_request list_request ≡ ok list_request_bytes) × IsRequest list_request
serialize-deserialize_request_example =
    serialize-deserialize_request list_request_bytes (omega arith) deserialize_list_request

serialize-deserialize_response_example :
    (serialize_response error_response ≡ ok error_response_bytes) × IsResponse error_response
serialize-deserialize_response_example =
    serialize-deserialize_response error_response_bytes (omega arith) deserialize_error_response

request_trailing_example :
    deserialize_request (list_request_bytes ++ (0 ∷ []))
    ≡ err "Request envelope contains trailing bytes."
request_trailing_example =
    request_trailing list_request_bytes 0 [] (omega arith) deserialize_list_request
