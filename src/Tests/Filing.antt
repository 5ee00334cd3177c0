-- ===== src/Tests/Filing.antt =====
-- internal/storage/grpc_filer_client.go and seaweed_filer_http.go at concrete clients.
use record_storage.Common.{
  ◌≡◌, refl, sym, ap, Bool, true, false, Option, none, some, [], ◌∷◌, Bytes, bytes_eq, codes,
  Result, ok,
}
use record_storage.Storage.{EntryMeta}
use record_storage.Storage.Hybrid.State.{Call}
use record_storage.Storage.Hybrid.Objects.{parse_volume_id}
use record_storage.Storage.Filer.{
  PathLibrary, FilerStub, Entry, create_entry, lookup_entry, split_object_key, answered,
  from_seconds, to_seconds,
}
use record_storage.Storage.Filer.Lookup.{IsFiler, kept, lookup_entry-create_entry}
use record_storage.Storage.Http.{Request, Response, HttpClient, send_request}
use record_storage.Storage.Http.Filer.{put, get, put_answer, plain}
use record_storage.Storage.Http.Stored.{IsServer, put-get_object}

abbrev paths : PathLibrary
paths = record {
  dir = λ path. codes "/recordings/cam";
  base = λ path. codes "7.mp4";
  join = λ dir name. name;
}

-- A filer of one entry
abbrev stub : FilerStub (Option Entry)
stub = record {
  create_entry = λ dir entry skip w. (ok tt, some entry);
  lookup_directory_entry = λ dir name w. (ok w, w);
  delete_entry = λ dir name data_ recursive w. (ok tt, none);
  list_entries = λ dir prefix start limit w. (ok (ok w ∷ []), w);
  ping = λ w. (ok tt, w);
}

abbrev meta : EntryMeta
meta = record {
  key = codes "recordings/cam/7.mp4";
  file_id = codes "3,01ab";
  volume_id = [];
  size = 1200;
  mime_type = codes "video/mp4";
  created_at = 5500000000;
  modified_at = 7250000000;
  etag = codes "e";
}

stub-IsFiler : IsFiler stub
stub-IsFiler = record { found = λ dir entry w h. refl }

created : (create_entry paths stub meta none).0 ≡ ok tt
unfolding create_entry split_object_key answered
created = refl

lookup_entry-create_entry_example :
    (lookup_entry paths stub meta.key (create_entry paths stub meta none).1).0 ≡ ok (kept meta)
lookup_entry-create_entry_example =
    lookup_entry-create_entry paths stub stub-IsFiler meta none created

kept_meta :
    kept meta
    ≡ record meta { volume_id = codes "3"; created_at = 5000000000; modified_at = 7000000000 }
unfolding kept parse_volume_id from_seconds to_seconds
kept_meta = refl

-- A server of one object
by_method : Bool → Bytes → Call Bytes Response
by_method true body w = (ok (record { status = 201; body = []; read_error = none }), body)
by_method false body w = (ok (record { status = 200; body = w; read_error = none }), w)

answer_to : Request → Call Bytes Response
unfolding by_method
answer_to request = by_method (bytes_eq request.method (codes "PUT")) request.body

abbrev http : HttpClient Bytes
http = record { invalid_url = λ url. none; do_request = answer_to }

http-IsServer : IsServer http
unfolding answer_to by_method bytes_eq plain
http-IsServer = record {
  found = λ url body headers w w' response h accepted.
      ap
        (λ (r : Result _ Response × Bytes).
          ok (record { status = 200; body = r.1; read_error = none }))
        (sym h);
}

stored : (put http (codes "http://filer") (codes "/a.mp4") (codes "data") []).0 ≡ ok tt
unfolding put send_request put_answer answer_to by_method bytes_eq
stored = refl

put-get_object_example :
    (get http
      (codes "http://filer")
      (codes "/a.mp4")
      (put http (codes "http://filer") (codes "/a.mp4") (codes "data") []).1).0
    ≡ ok (codes "data")
put-get_object_example =
    put-get_object http http-IsServer (codes "http://filer") (codes "/a.mp4") (codes "data") []
      stored
