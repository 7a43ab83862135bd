-- ===== src/HttpClient/Tests.antt =====
-- App/src/teep_http_client.cpp: a POST at a concrete response.
use taws.Base.{ℤ, ◌≡◌, ◌≤◌, refl, true, some, [], ◌∷◌, length}
use taws.HttpClient.{CurlCalls, teep_send_http_post}
use taws.HttpClient.Receive.{teep_send_http_post-body}

abbrev curl : CurlCalls
curl = record {
  easy_init = true;
  chunks = (1 ∷ 2 ∷ []) ∷ (3 ∷ 4 ∷ []) ∷ [];
  perform = true;
  response_code = some (ℤ.pos 200);
}

teep_send_http_post-body_example :
    ((teep_send_http_post curl 3).1 ≡ (1 ∷ 2 ∷ 3 ∷ []))
    × (length (teep_send_http_post curl 3).1 ≤ 3)
teep_send_http_post-body_example = teep_send_http_post-body curl 3 refl
