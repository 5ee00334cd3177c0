-- ===== src/Storage/Http/Filer.antt =====
-- FilerHTTPStorage of internal/storage/seaweed_filer_http.go. The decoder of a listing and path.Join
-- are parameters.
use record_storage.Common.{
  ℕ, ◌==◌, ◌||◌, List, [], ◌∷◌, ◌++◌, Bytes, codes, length, Result, ok, err, if◌then◌else◌,
}
use record_storage.Playback.Request.Text.{trim_prefix}
use record_storage.Storage.{StorageError, not_found, other_error}
use record_storage.Storage.Hybrid.State.{Call}
use record_storage.Storage.Http.{
  Request, Response, HttpClient, send_request, read_all, range_text, status_text, body_text,
}
use record_storage.Storage.Filer.{trim_slash}

unfoldable pub put_answer : Result StorageError Response → Result StorageError (Unit {0})
unfolding body_text
put_answer (err e) = err e
put_answer (ok response) =
    if (response.status == 200) || (response.status == 201)
    then ok tt
    else err (other_error (body_text (codes "put failed: ") response))

unfoldable pub get_answer : Result StorageError Response → Result StorageError Bytes
unfolding read_all status_text
get_answer (err e) = err e
get_answer (ok response) =
    if response.status == 404
    then err not_found
    else if response.status == 200
    then read_all response
    else err (other_error (status_text (codes "get failed: ") response))

unfoldable pub get_range_answer : Result StorageError Response → Result StorageError Bytes
unfolding read_all status_text
get_range_answer (err e) = err e
get_range_answer (ok response) =
    if response.status == 404
    then err not_found
    else if (response.status == 200) || (response.status == 206)
    then read_all response
    else err (other_error (status_text (codes "get range failed: ") response))

unfoldable pub delete_answer : Result StorageError Response → Result StorageError (Unit {0})
unfolding status_text
delete_answer (err e) = err e
delete_answer (ok response) =
    if (response.status == 200) || (response.status == 204)
    then ok tt
    else err (other_error (status_text (codes "delete failed: ") response))

-- NewFilerHTTPStorage
unfoldable pub new_filer_http : Bytes → Bytes
unfolding trim_slash
new_filer_http filer_url = trim_slash filer_url

unfoldable pub object_url : Bytes → Bytes → Bytes
object_url filer_url key = filer_url ++ (b'/' ∷ trim_prefix key (codes "/"))

-- A request without a body
unfoldable pub plain : Bytes → Bytes → List (Bytes × Bytes) → Request
plain method url headers = record { method = method; url = url; headers = headers; body = [] }

module _ {W : Type 0} (http : HttpClient W) (filer_url : Bytes) where
  unfoldable pub put : Bytes → Bytes → Call W (Unit {0})
  unfolding object_url put_answer send_request
  put key data_ w =
      let (r, w') =
        send_request http
          (record {
            method = codes "PUT";
            url = object_url filer_url key;
            headers = (codes "Content-Type", codes "application/octet-stream") ∷ [];
            body = data_;
          })
          w in
      (put_answer r, w')

  unfoldable pub get : Bytes → Call W Bytes
  unfolding object_url get_answer send_request plain
  get key w =
      let (r, w') = send_request http (plain (codes "GET") (object_url filer_url key) []) w in
      (get_answer r, w')

  unfoldable pub get_range : Bytes → ℕ → ℕ → Call W Bytes
  unfolding object_url get_range_answer send_request plain range_text
  get_range key offset length w =
      let range = (codes "Range", range_text offset length) ∷ [] in
      let (r, w') = send_request http (plain (codes "GET") (object_url filer_url key) range) w in
      (get_range_answer r, w')

  unfoldable pub delete : Bytes → Call W (Unit {0})
  unfolding object_url delete_answer send_request plain
  delete key w =
      let (r, w') = send_request http (plain (codes "DELETE") (object_url filer_url key) []) w in
      (delete_answer r, w')

-- List, on the names that the decoder reads from the response's body
module _ (join : Bytes → Bytes → Bytes) (decode : Response → Result StorageError (List Bytes)) where
  unfoldable pub join_all : Bytes → List Bytes → List Bytes
  join_all dir [] = []
  join_all dir (name ∷ names) = join dir name ∷ join_all dir names

  unfoldable pub names_answer :
      Bytes → Result StorageError (List Bytes) → Result StorageError (List Bytes)
  unfolding join_all
  names_answer dir (err e) = err e
  names_answer dir (ok names) = ok (join_all (trim_prefix dir (codes "/")) names)

  unfoldable pub list_answer :
      Bytes → Result StorageError Response → Result StorageError (List Bytes)
  unfolding names_answer body_text
  list_answer dir (err e) = err e
  list_answer dir (ok response) =
      if response.status == 404
      then err not_found
      else if response.status == 200
      then names_answer dir (decode response)
      else err (other_error (body_text (codes "list failed: ") response))

  unfoldable pub list : {W : Type 0} → HttpClient W → Bytes → Bytes → Call W (List Bytes)
  unfolding list_answer trim_slash send_request plain
  list http filer_url prefix w =
      let trimmed = trim_slash prefix in
      let dir = if length trimmed == 0 then codes "/" else trimmed in
      let url = filer_url ++ (b'/' ∷ (trim_prefix dir (codes "/") ++ codes "?limit=1000")) in
      let accept = (codes "Accept", codes "application/json") ∷ [] in
      let (r, w') = send_request http (plain (codes "GET") url accept) w in (list_answer dir r, w')
