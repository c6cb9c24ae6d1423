-- ===== src/Pipe/Protocol.antt =====
-- libs/Transport/PipeProtocol.hpp and PipeProtocol.cpp: the request and response envelopes.
-- `TPipeParseResult` holds a value or an error text, as `Outcome` does.
pub mod RoundTrip
pub mod Canonical
use librova.Base.{
  ℕ, ◌+◌, ◌*◌, ◌==◌, ◌≤◌, ◌<◌, ◌^◌, List, [], Option, none, some, if◌then◌else◌, length, All,
  String,
}
use librova.Base.Outcome.{Outcome, ok, err, ◌>>=◌, ◌>>◌, require}
use librova.Pipe.Wire.{
  IsByte, max_u32, append_u32, append_u64, append_string, read_u32, read_u64, read_string,
}

pub data PipeMethod : Type 0 where
  start_import list_books get_book_details export_book move_book_to_trash : PipeMethod
  get_import_job_snapshot get_import_job_result wait_import_job : PipeMethod
  cancel_import_job remove_import_job validate_import_sources : PipeMethod

pub data ResponseStatus : Type 0 where
  status_ok invalid_request unknown_method internal_error : ResponseStatus

unfoldable pub method_code : PipeMethod → ℕ
method_code start_import = 1
method_code list_books = 2
method_code get_book_details = 3
method_code export_book = 4
method_code move_book_to_trash = 5
method_code get_import_job_snapshot = 6
method_code get_import_job_result = 7
method_code wait_import_job = 8
method_code cancel_import_job = 9
method_code remove_import_job = 10
method_code validate_import_sources = 12

unfoldable pub status_code : ResponseStatus → ℕ
status_code status_ok = 0
status_code invalid_request = 1
status_code unknown_method = 2
status_code internal_error = 3

-- IsKnownEnumValue<EPipeMethod>, with the cast of a known value.
unfoldable pub to_method : ℕ → Option PipeMethod
to_method v =
    if v == 1
    then some start_import
    else if v == 2
    then some list_books
    else if v == 3
    then some get_book_details
    else if v == 4
    then some export_book
    else if v == 5
    then some move_book_to_trash
    else if v == 6
    then some get_import_job_snapshot
    else if v == 7
    then some get_import_job_result
    else if v == 8
    then some wait_import_job
    else if v == 9
    then some cancel_import_job
    else if v == 10
    then some remove_import_job
    else if v == 12
    then some validate_import_sources
    else none

-- IsKnownEnumValue<EPipeResponseStatus>, with the cast of a known value.
unfoldable pub to_status : ℕ → Option ResponseStatus
to_status v =
    if v == 0
    then some status_ok
    else if v == 1
    then some invalid_request
    else if v == 2
    then some unknown_method
    else if v == 3
    then some internal_error
    else none

pub record RequestEnvelope : Type 0 where
  pub request_id : ℕ
  pub method : PipeMethod
  pub payload : List ℕ

pub record ResponseEnvelope : Type 0 where
  pub request_id : ℕ
  pub status : ResponseStatus
  pub payload : List ℕ
  pub error_message : List ℕ

abbrev pub request_magic : ℕ
request_magic = 0x4C465250

abbrev pub response_magic : ℕ
response_magic = 0x4C465253

abbrev pub protocol_version : ℕ
protocol_version = 1

pub known {ℓ} : {A : Type ℓ} → Option A → String → Outcome A
known none message = err message
known (some a) message = ok a

unfoldable pub serialize_request : RequestEnvelope → Outcome (List ℕ)
serialize_request envelope =
    let magic = append_u32 [] request_magic in
    let version = append_u32 magic protocol_version in
    let request_id = append_u64 version envelope.request_id in
    let method = append_u32 request_id (method_code envelope.method) in
    append_string method envelope.payload

unfoldable pub serialize_response : ResponseEnvelope → Outcome (List ℕ)
serialize_response envelope =
    let magic = append_u32 [] response_magic in
    let version = append_u32 magic protocol_version in
    let request_id = append_u64 version envelope.request_id in
    let status = append_u32 request_id (status_code envelope.status) in
    do payload ← append_string status envelope.payload; append_string payload envelope.error_message

unfoldable pub deserialize_request : List ℕ → Outcome RequestEnvelope
unfolding known
deserialize_request bytes = do
  (magic, at_version) ← read_u32 bytes 0
  require (magic == request_magic) "Unsupported request envelope magic."
  (version, at_id) ← read_u32 bytes at_version
  require (version == protocol_version) "Unsupported request envelope version."
  (request_id, at_method) ← read_u64 bytes at_id
  (code, at_payload) ← read_u32 bytes at_method
  method ← known (to_method code) "Unknown pipe method."
  (payload, end) ← read_string bytes at_payload
  require (end == length bytes) "Request envelope contains trailing bytes."
  ok (record { request_id = request_id; method = method; payload = payload })

unfoldable pub deserialize_response : List ℕ → Outcome ResponseEnvelope
unfolding known
deserialize_response bytes = do
  (magic, at_version) ← read_u32 bytes 0
  require (magic == response_magic) "Unsupported response envelope magic."
  (version, at_id) ← read_u32 bytes at_version
  require (version == protocol_version) "Unsupported response envelope version."
  (request_id, at_status) ← read_u64 bytes at_id
  (code, at_payload) ← read_u32 bytes at_status
  status ← known (to_status code) "Unknown response status."
  (payload, at_error) ← read_string bytes at_payload
  (error_message, end) ← read_string bytes at_error
  require (end == length bytes) "Response envelope contains trailing bytes."
  ok (record {
    request_id = request_id;
    status = status;
    payload = payload;
    error_message = error_message;
  })

-- What the C++ types guarantee of a value: 64-bit ids, byte strings. The length limit is the one
-- that AppendString checks.
pub record IsRequest (e : RequestEnvelope) : Type 0 where
  pub id_fits : e.request_id < 2 ^ 64
  pub payload_bytes : All IsByte e.payload
  pub payload_fits : length e.payload ≤ max_u32

pub record IsResponse (e : ResponseEnvelope) : Type 0 where
  pub id_fits : e.request_id < 2 ^ 64
  pub payload_bytes : All IsByte e.payload
  pub payload_fits : length e.payload ≤ max_u32
  pub error_bytes : All IsByte e.error_message
  pub error_fits : length e.error_message ≤ max_u32
