-- ===== src/Storage/Http/Stored.antt =====
-- Put and Get of internal/storage/seaweed_filer_http.go against a server.
use record_storage.Common.{
  ◌==◌, ◌≡◌, refl, sym, ap, ◌∙◌, inl, inr, true, ◌||◌, none, some, List, [], ◌∷◌, Bytes, codes,
  Result, ok, err, Bool-cases, Option-cases, arith,
}
use record_storage.Storage.{StorageError}
use record_storage.Storage.Http.{Request, Response, HttpClient, send_request, read_all}
use record_storage.Storage.Http.Filer.{put_answer, get_answer, put, get, plain, object_url}

-- A server that answers a PUT with 200 or 201 answers the next GET of the URL with the body.
pub record IsServer {W : Type 0} (http : HttpClient W) : Type 0 where
  pub found :
      (url body : Bytes) (headers : List (Bytes × Bytes)) (w w' : W) (response : Response)
      → http.do_request
          (record { method = codes "PUT"; url = url; headers = headers; body = body })
          w
        ≡ (ok response, w')
      → ((response.status == 200) || (response.status == 201)) ≡ true
      → (http.do_request (plain (codes "GET") url []) w').0
        ≡ ok (record { status = 200; body = body; read_error = none })

put_answer-ok :
    (r : Result StorageError Response)
    → put_answer r ≡ ok tt
    → (response : Response) × (r ≡ ok response)
      × (((response.status == 200) || (response.status == 201)) ≡ true)
unfolding put_answer
put_answer-ok (err e) h = absurd (ground (arith, h))
put_answer-ok (ok response) h =
    elim (Bool-cases ((response.status == 200) || (response.status == 201))) [
      | inl t ↦ (response, refl, t)
      | inr t ↦ absurd (ground (arith, rw t at h))
    ]

get_answer-ok :
    (body : Bytes)
    → get_answer (ok (record { status = 200; body = body; read_error = none })) ≡ ok body
unfolding get_answer read_all
get_answer-ok body = refl

abbrev put_request : Bytes → Bytes → Request
put_request url body = record {
  method = codes "PUT";
  url = url;
  headers = (codes "Content-Type", codes "application/octet-stream") ∷ [];
  body = body;
}

module _ {W : Type 0} (http : HttpClient W) where
  send-valid :
      (request : Request) (w : W)
      → http.invalid_url request.url ≡ none
      → send_request http request w ≡ http.do_request request w
  unfolding send_request
  send-valid request w h = rw (h, send_request) refl

  send-invalid :
      (request : Request) (e : StorageError) (w : W)
      → http.invalid_url request.url ≡ some e
      → send_request http request w ≡ (err e, w)
  unfolding send_request
  send-invalid request e w h = rw (h, send_request) refl

  sent-valid :
      (request : Request) (w : W)
      → put_answer (send_request http request w).0 ≡ ok tt
      → http.invalid_url request.url ≡ none
  sent-valid request w h = elim (Option-cases (http.invalid_url request.url)) [
    | inl valid ↦ valid
    | inr (e, invalid) ↦
        let (response, same, accepted) =
          put_answer-ok (err e)
            (ap (λ r. put_answer r.0) (sym (send-invalid request e w invalid)) ∙ h) in
        absurd (ground (arith, same))
  ]

  -- The object that a successful Put has stored is what Get gives back, given a server that answers
  -- the GET of a URL whose PUT it has accepted with that body.
  pub put-get_object :
      (laws : IsServer http) (filer_url key data_ : Bytes) (w : W)
      → (put http filer_url key data_ w).0 ≡ ok tt
      → (get http filer_url key (put http filer_url key data_ w).1).0 ≡ ok data_
  unfolding put get
  put-get_object laws filer_url key data_ w h =
      let url = object_url filer_url key in
      let request = put_request url data_ in
      let w' = (send_request http request w).1 in
      let valid = sent-valid request w h in
      let (response, same, accepted) = put_answer-ok (send_request http request w).0 h in
      ap (λ (r : Result StorageError Response × W). get_answer r.0)
        (send-valid (plain (codes "GET") url []) w' valid)
      ∙ ap get_answer (
          laws.found url data_ request.headers w w' response
            (sym (send-valid request w valid)
              ∙ ap (λ (r : Result StorageError Response). (r, w')) same)
            accepted)
      ∙ get_answer-ok data_
