-- ===== src/Storage/Http.antt =====
-- What internal/storage/seaweed_filer_http.go and http_volume_client.go use of net/http: requests and
-- responses as values. The client, with its timeout, is a parameter, and so is the parser of a URL,
-- which NewRequestWithContext calls.
pub mod Volume
pub mod Filer
pub mod Stored
use record_storage.Common.{
  ℕ, Option, none, some, List, [], ◌∷◌, ◌++◌, Bytes, starts_with, codes, Result, ok, err,
  if◌then◌else◌,
}
use record_storage.Common.Decimal.{decimal, signed_decimal}
use record_storage.Common.Words.{add64, sub64}
use record_storage.Playback.Request.Text.{trim_prefix}
use record_storage.Storage.{StorageError}
use record_storage.Storage.Hybrid.State.{Call}
use mathlib.Core.List.{reverse}

pub record Request : Type 0 where
  pub method : Bytes
  pub url : Bytes
  pub headers : List (Bytes × Bytes)
  pub body : Bytes

-- The error of reading the body comes behind the bytes that were read.
pub record Response : Type 0 where
  pub status : ℕ
  pub body : Bytes
  pub read_error : Option StorageError

pub record HttpClient (W : Type 0) : Type 0 where
  pub invalid_url : Bytes → Option StorageError
  pub do_request : Request → Call W Response

-- http.NewRequestWithContext, the headers, and client.Do
unfoldable pub send_request : {W : Type 0} → HttpClient W → Request → Call W Response
send_request http request w = elim (http.invalid_url request.url) [
  | none ↦ http.do_request request w
  | some e ↦ (err e, w)
]

-- io.ReadAll(resp.Body)
unfoldable pub read_all : Response → Result StorageError Bytes
read_all response = elim response.read_error [ none ↦ ok response.body | some e ↦ err e ]

-- fmt.Sprintf("bytes=%d-%d", offset, offset+length-1) of two int64 patterns
unfoldable pub range_text : ℕ → ℕ → Bytes
range_text offset length =
    codes "bytes="
    ++ (signed_decimal offset ++ (b'-' ∷ signed_decimal (sub64 (add64 offset length) 1)))

-- The text of an error with the status, and the one with the body behind it
unfoldable pub status_text : Bytes → Response → Bytes
status_text what response = what ++ decimal response.status

unfoldable pub body_text : Bytes → Response → Bytes
unfolding status_text
body_text what response = status_text what response ++ (b' ' ∷ response.body)
