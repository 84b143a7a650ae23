-- ===== src/Http.antt =====
-- api_http.go: the two requests to the API. The HTTP client, the making of requests and JSON are
-- outside.
pub mod Requests
use urnetwork_client.Base.{
  ℕ, ltb, leb, Bool, true, false, not, ◌&&◌, ◌||◌, List, [], ◌∷◌, ◌++◌, Option, none, some, Bytes,
  codes, if◌then◌else◌,
}
use urnetwork_client.Text.{is_empty, trim_space, trim_right_byte}
use urnetwork_client.Specs.{Found}

pub data Method : Type 0 where
  get post : Method

pub record Request : Type 0 where
  pub method : Method
  pub url : Bytes
  pub content_type : Option Bytes
  pub authorization : Option Bytes
  pub body : Bytes

-- The status, the body, and what decoding the body gives.
pub record Response (S : Type 0) : Type 0 where
  pub status : ℕ
  pub text : Bytes
  pub decoded : Option (Found S)

pub data HttpError : Type 0 where
  bad_request no_answer undecoded : HttpError
  bad_status : ℕ → Bytes → HttpError

pub data Fetched (S : Type 0) : Type 0 where
  failed : HttpError → Fetched S
  fetched : Found S → Fetched S

-- Whether `http.NewRequest` takes a URL, `json.Marshal` of the arguments with a query, and
-- `defaultHTTPClient.Do`.
pub record Client (S : Type 0) : Type 0 where
  pub is_url : Bytes → Bool
  pub marshal : Bytes → Bytes
  pub do_request : Request → Option (Response S)

abbrev bearer : Bytes → Option Bytes
bearer jwt = if is_empty (trim_space jwt) then none else some (codes "Bearer " ++ jwt)

module _ {S : Type 0} (client : Client S) where
  -- The rest of both functions, from the request.
  unfoldable pub send : Request → Fetched S
  send request =
      if client.is_url request.url
      then elim (client.do_request request) [
        | none ↦ failed no_answer
        | some r ↦
            (if ltb r.status 200 || leb 300 r.status
              then failed (bad_status r.status r.text)
              else elim r.decoded [ none ↦ failed undecoded | some found ↦ fetched found ])
      ]
      else failed bad_request

  -- `httpFindLocations`
  unfoldable pub http_find_locations : Bytes → Bytes → Bytes → Fetched S
  unfolding send
  http_find_locations api_url jwt q = send (record {
    method = post;
    url = trim_right_byte api_url b'/' ++ codes "/network/find-locations";
    content_type = some (codes "application/json");
    authorization = bearer jwt;
    body = client.marshal q;
  })

  -- `httpProviderLocations`
  unfoldable pub http_provider_locations : Bytes → Bytes → Fetched S
  unfolding send
  http_provider_locations api_url jwt = send (record {
    method = get;
    url = trim_right_byte api_url b'/' ++ codes "/network/provider-locations";
    content_type = none;
    authorization = bearer jwt;
    body = [];
  })
