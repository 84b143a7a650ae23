-- ===== src/Http/Requests.antt =====
-- api_http.go: the requests that are made and the answers that are taken.
use urnetwork_client.Base.{
  ℕ, zero, suc, ◌≤◌, ◌<◌, ◌≡◌, refl, sym, ap, ◌∙◌, ◌↔◌, inl, inr, true, false, [], ◌∷◌, ◌++◌,
  Option, none, some, arith, Bytes, codes, if◌then◌else◌, Bool-cases, Option-cases,
}
use urnetwork_client.Text.{is_empty, trim_space, trim_right_byte}
use urnetwork_client.Specs.{Found}
use urnetwork_client.Http.{
  Method, Request, Response, fetched, Client, get, post, send, http_find_locations,
  http_provider_locations,
}

-- A status of success.
abbrev pub IsSuccess : ℕ → Type 0
IsSuccess status = (200 ≤ status) × (status < 300)

-- The header for a token.
pub data Authorized (jwt : Bytes) : Option Bytes → Type 0 where
  without : is_empty (trim_space jwt) ≡ true → Authorized jwt none
  with_token : is_empty (trim_space jwt) ≡ false → Authorized jwt (some (codes "Bearer " ++ jwt))

-- What an answer takes: a URL that a request is made for, and a response of success that is decoded.
pub record Answered {S : Type 0} (client : Client S) (request : Request) (found : Found S)
    : Type 0 where
  pub response : Response S
  pub made : client.is_url request.url ≡ true
  pub sent : client.do_request request ≡ some response
  pub success : IsSuccess response.status
  pub decodes : response.decoded ≡ some found

module _ {S : Type 0} (client : Client S) where
  send-Answered :
      (request : Request) (found : Found S)
      → send client request ≡ fetched found
      → Answered client request found
  unfolding send
  send-Answered request found h = elim (Option-cases (client.do_request request)) [
    | inl e ↦ ground (arith, e, h)
    | inr (r, e) ↦ record {
      response = r;
      made = ground (arith, e, h);
      sent = e;
      success = (ground (arith, e, h), ground (arith, e, h));
      decodes = ground (arith, e, h);
    }
  ]

  send-of_Answered :
      (request : Request) (found : Found S)
      → Answered client request found
      → send client request ≡ fetched found
  unfolding send
  send-of_Answered request found a =
      ground (arith, a.made, a.sent, a.success.0, a.success.1, a.decodes)

bearer_lem :
    (jwt : Bytes)
    → Authorized jwt (if is_empty (trim_space jwt) then none else some (codes "Bearer " ++ jwt))
bearer_lem jwt = elim (Bool-cases (is_empty (trim_space jwt))) [
  | inl e ↦ rw e (without e)
  | inr e ↦ rw e (with_token e)
]

bearer_unique :
    (jwt : Bytes) (header : Option Bytes)
    → Authorized jwt header
    → header ≡ (if is_empty (trim_space jwt) then none else some (codes "Bearer " ++ jwt))
bearer_unique jwt _ (without e) = rw e refl
bearer_unique jwt _ (with_token e) = rw e refl

abbrev pub slashes : ℕ → Bytes
slashes zero = []
slashes (suc n) = b'/' ∷ slashes n

slashes_trimmed : (n : ℕ) → trim_right_byte (slashes n) b'/' ≡ []
unfolding trim_right_byte
slashes_trimmed zero = refl
slashes_trimmed (suc n) = rw (slashes_trimmed n) refl

trim_right_byte-append :
    (s : Bytes) (n : ℕ) → trim_right_byte (s ++ slashes n) b'/' ≡ trim_right_byte s b'/'
unfolding trim_right_byte
trim_right_byte-append [] n = slashes_trimmed n
trim_right_byte-append (x ∷ s) n = rw (trim_right_byte-append s n) refl

-- A request for a path below a base, with a token.
pub record Asks (method : Method) (base path_below jwt : Bytes) (content_type : Option Bytes)
    (body : Bytes) (request : Request) : Type 0 where
  pub method_lem : request.method ≡ method
  pub url_lem : request.url ≡ base ++ path_below
  pub content_lem : request.content_type ≡ content_type
  pub token_lem : Authorized jwt request.authorization
  pub body_lem : request.body ≡ body

-- The one request that asks so.
abbrev asking : Method → Bytes → Bytes → Bytes → Option Bytes → Bytes → Request
asking method base path_below jwt content_type body = record {
  method = method;
  url = base ++ path_below;
  content_type = content_type;
  authorization = if is_empty (trim_space jwt) then none else some (codes "Bearer " ++ jwt);
  body = body;
}

asking_unique :
    (method : Method) (base path_below jwt : Bytes) (content_type : Option Bytes) (body : Bytes)
    (request : Request)
    → Asks method base path_below jwt content_type body request
    → request ≡ asking method base path_below jwt content_type body
asking_unique method base path_below jwt content_type body request a = λ i. record {
  method = a.method_lem i;
  url = a.url_lem i;
  content_type = a.content_lem i;
  authorization = bearer_unique jwt request.authorization a.token_lem i;
  body = a.body_lem i;
}

-- A found answer of the one request.
abbrev pub IsFound :
    {S : Type 0}
    → Client S
    → Method
    → Bytes
    → Bytes
    → Bytes
    → Option Bytes
    → Bytes
    → Found S
    → Type 0
IsFound client method base path_below jwt content_type body found =
    (request : Request) × Asks method base path_below jwt content_type body request
    × Answered client request found

module _ {S : Type 0} (client : Client S) where
  asking_iff :
      (method : Method) (base path_below jwt : Bytes) (content_type : Option Bytes) (body : Bytes)
      (found : Found S)
      → (send client (asking method base path_below jwt content_type body) ≡ fetched found)
        ↔ IsFound client method base path_below jwt content_type body found
  asking_iff method base path_below jwt content_type body found = (
    λ h. (
      asking method base path_below jwt content_type body,
      record {
        method_lem = refl;
        url_lem = refl;
        content_lem = refl;
        token_lem = bearer_lem jwt;
        body_lem = refl;
      },
      send-Answered client _ found h,
    ),
    λ k.
        ap (send client) (sym (asking_unique method base path_below jwt content_type body k.0 k.1))
        ∙ send-of_Answered client k.0 found k.2,
  )

  -- Locations are found exactly when the one request that is due gets a response between 200 and 299
  -- that is decoded: a POST with the query, or a GET, to the path below the API's URL, whatever slashes
  -- that ends with, and with the header for the token exactly when the token is not blank.
  pub fetched_iff :
      (base jwt q : Bytes) (n : ℕ) (found : Found S)
      → trim_right_byte base b'/' ≡ base
      → ((http_find_locations client (base ++ slashes n) jwt q ≡ fetched found)
          ↔ IsFound client post base
              (codes "/network/find-locations")
              jwt
              (some (codes "application/json"))
              (client.marshal q)
              found)
        × ((http_provider_locations client (base ++ slashes n) jwt ≡ fetched found)
            ↔ IsFound client get base (codes "/network/provider-locations") jwt none [] found)
  unfolding http_find_locations http_provider_locations
  fetched_iff base jwt q n found h =
      rw (trim_right_byte-append base n, h)
        (
          asking_iff post base (codes "/network/find-locations") jwt
              (some (codes "application/json")) (client.marshal q) found,
          asking_iff get base (codes "/network/provider-locations") jwt none [] found,
        )
