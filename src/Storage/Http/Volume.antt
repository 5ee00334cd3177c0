-- ===== src/Storage/Http/Volume.antt =====
-- HTTPVolumeClient of internal/storage/http_volume_client.go.
use record_storage.Common.{
  ℕ, ◌==◌, ◌||◌, [], ◌∷◌, ◌++◌, Bytes, codes, length, Result, ok, err, if◌then◌else◌,
}
use record_storage.Playback.Request.Text.{trim_prefix}
use record_storage.Storage.{StorageError, not_found, other_error}
use record_storage.Storage.Hybrid.State.{Call}
use record_storage.Storage.Http.{
  Response, HttpClient, send_request, read_all, range_text, body_text,
}
use record_storage.Storage.Filer.{trim_slash}

unfoldable pub build_volume_object_url : Bytes → Bytes → Bytes
unfolding trim_slash
build_volume_object_url volume_url file_id =
    trim_slash volume_url ++ (b'/' ∷ trim_prefix file_id (codes "/"))

unfoldable pub put_answer : Result StorageError Response → Result StorageError (Unit {0})
unfolding body_text
put_answer (err e) = err e
put_answer (ok response) =
    if (response.status == 201) || (response.status == 200)
    then ok tt
    else err (other_error (body_text (codes "volume put failed: ") response))

unfoldable pub get_answer : Result StorageError Response → Result StorageError Bytes
unfolding read_all body_text
get_answer (err e) = err e
get_answer (ok response) =
    if response.status == 404
    then err not_found
    else if (response.status == 200) || (response.status == 206)
    then read_all response
    else err (other_error (body_text (codes "volume get failed: ") response))

module _ {W : Type 0} (http : HttpClient W) where
  unfoldable pub put : Bytes → Bytes → Bytes → Bytes → Call W (Unit {0})
  unfolding build_volume_object_url put_answer send_request
  put volume_url file_id data_ auth_token w =
      let authorization =
        if length auth_token == 0
        then []
        else (codes "Authorization", codes "Bearer " ++ auth_token) ∷ [] in
      let (r, w') =
        send_request http
          (record {
            method = codes "PUT";
            url = build_volume_object_url volume_url file_id;
            headers = (codes "Content-Type", codes "application/octet-stream") ∷ authorization;
            body = data_;
          })
          w in
      (put_answer r, w')

  unfoldable pub do_get : Bytes → Bytes → Bytes → Call W Bytes
  unfolding build_volume_object_url get_answer send_request
  do_get volume_url file_id range_header w =
      let (r, w') =
        send_request http
          (record {
            method = codes "GET";
            url = build_volume_object_url volume_url file_id;
            headers = if length range_header == 0 then [] else (codes "Range", range_header) ∷ [];
            body = [];
          })
          w in
      (get_answer r, w')

  unfoldable pub get : Bytes → Bytes → Call W Bytes
  unfolding do_get
  get volume_url file_id = do_get volume_url file_id []

  unfoldable pub get_range : Bytes → Bytes → ℕ → ℕ → Call W Bytes
  unfolding do_get range_text
  get_range volume_url file_id offset length = do_get volume_url file_id (range_text offset length)
