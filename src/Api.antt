-- ===== src/Api.antt =====
-- `api`, `invalidate` and `wsUrl` of web/lib/api.ts. JSON values, their parser, the text of a value's
-- "error" field ("" without one) and `encodeURIComponent` are parameters.
mod Tests
use app_dockhand.Base.{
  none, some, refl, ℕ, Bool, Text, Option, leb, ◌&&◌, ◌==◌, List, if◌then◌else◌, [], txt, is_empty,
  ◌≡◌, not, ◌∷◌, ◌++◌, false, filter, starts_with, text_eq, ◌≢◌, drop, ◌||◌, true, ◌⊎◌, inl, arith,
  inr, Bool-cases,
}

pub data Method : Type 0 where
  get post put patch delete : Method

pub record Response : Type 0 where
  pub status : ℕ
  pub status_text : Text
  pub text : Text

-- `window.location`
pub record Location : Type 0 where
  pub pathname : Text
  pub search : Text

pub data Data (Json : Type 0) : Type 0 where
  nothing : Data Json
  json : Json → Data Json
  text : Text → Data Json

-- What the promise is settled with.
pub data Outcome (Json : Type 0) : Type 0 where
  value : Data Json → Outcome Json
  api_error : ℕ → Text → Outcome Json

pub record Settled (Json : Type 0) : Type 0 where
  pub outcome : Outcome Json
  pub go_to : Option Text

-- `res.ok`
abbrev pub is_ok : ℕ → Bool
is_ok status = leb 200 status && leb status 299

abbrev pub needs_login : Text → Response → Location → Bool
needs_login path res here =
    res.status == 401
    && not (starts_with path (txt "/api/auth/"))
    && not (text_eq here.pathname (txt "/login"))
    && not (text_eq here.pathname (txt "/setup"))

unfoldable pub headers : Option Text → List (Text × Text)
headers body =
    (txt "Accept", txt "application/json")
    ∷ (txt "X-Requested-With", txt "dockhand")
    ∷ (elim body [ none ↦ [] | some b ↦ (txt "Content-Type", txt "application/json") ∷ [] ])

module _ {Json : Type 0} (parse : Text → Option Json) (error_field : Json → Text)
    (encode_uri_component : Text → Text) where
  abbrev pub parsed : Text → Option Json → Data Json
  parsed s none = text s
  parsed s (some j) = json j

  unfoldable pub data_of : Text → Data Json
  data_of s = if is_empty s then nothing else parsed s (parse s)

  abbrev pub or_else : Text → Text → Text
  or_else s t = if is_empty s then t else s

  abbrev pub given_error : Data Json → Text
  given_error (json j) = error_field j
  given_error _ = []

  unfoldable pub message : Response → Text
  message res =
      or_else (given_error (data_of res.text)) (or_else res.status_text (txt "Request failed"))

  unfoldable pub login_page : Location → Text
  login_page here = txt "/login?next=" ++ encode_uri_component (here.pathname ++ here.search)

  -- The answer of `fetch` to a request to the path, on a page.
  unfoldable pub api : Text → Response → Location → Settled Json
  api path res here = record {
    outcome =
        if is_ok res.status then value (data_of res.text) else api_error res.status (message res);
    go_to = if needs_login path res here then some (login_page here) else none;
  }

  or_else-non_empty : (s t : Text) → is_empty t ≡ false → is_empty (or_else s t) ≡ false
  or_else-non_empty [] t h = h
  or_else-non_empty (c ∷ s) t h = refl

  message-non_empty : (res : Response) → is_empty (message res) ≡ false
  unfolding message
  message-non_empty res =
      or_else-non_empty _ _ (or_else-non_empty res.status_text (txt "Request failed") refl)

  -- The user is sent away, and what is thrown says so.
  abbrev pub IsFailure : Response → Outcome Json → Type 0
  IsFailure res (value d) = ⊥
  IsFailure res (api_error status m) = (status ≡ res.status) × (is_empty m ≡ false)

  -- A response without success always throws an error with its status and a message that is not
  -- empty, and nobody is sent to the login page without that. On the login and the setup page, and by
  -- requests of the authentication, nobody is sent there at all.
  pub api-IsFailure :
      (path : Text) (res : Response) (here : Location)
      → (is_ok res.status ≡ false → IsFailure res (api path res here).outcome)
        × ((api path res here).go_to ≢ none → IsFailure res (api path res here).outcome)
        × ((starts_with path (txt "/api/auth/")
                || text_eq here.pathname (txt "/login")
                || text_eq here.pathname (txt "/setup"))
              ≡ true
            → (api path res here).go_to ≡ none)
  unfolding api
  api-IsFailure path res here = (
    λ h. rw h (refl, message-non_empty res),
    λ h. away (Bool-cases (needs_login path res here)) h,
    λ h. home (ground arith),
  )
    where
      home :
          needs_login path res here ≡ false
          → (if needs_login path res here then some (login_page here) else none) ≡ none
      home h = rw h refl

      away :
          (needs_login path res here ≡ true) ⊎ (needs_login path res here ≡ false)
          → (if needs_login path res here then some (login_page here) else none) ≢ none
          → IsFailure res (
              if is_ok res.status
              then value (data_of res.text)
              else api_error res.status (message res))
      away (inl y) h =
          let e : is_ok res.status ≡ false = ground arith in rw e (refl, message-non_empty res)
      away (inr off) h = absurd (h (home off))

-- `e instanceof Error ? e.message : String(e)` for an error of `api`.
unfoldable pub err_msg : {Json : Type 0} → Outcome Json → Text
err_msg (api_error status m) = m
err_msg (value d) = []

-- The cached keys that `invalidate` reloads.
unfoldable pub invalidate : Text → List Text → List Text
invalidate prefix keys = filter (λ k. starts_with k prefix) keys

-- `replace(/^http/, "ws")`
abbrev pub to_ws : Text → Text
to_ws origin = if starts_with origin (txt "http") then txt "ws" ++ drop 4 origin else origin

unfoldable pub ws_url : Option Text → Text → Text → Text → Text
ws_url dev_api protocol host path = url (dev_origin dev_api)
  where
    dev_origin : Option Text → Text
    dev_origin none = []
    dev_origin (some s) = s

    url : Text → Text
    url [] =
        (if text_eq protocol (txt "https:") then txt "wss:" else txt "ws:")
        ++ (txt "//" ++ (host ++ path))
    url (c ∷ s) = to_ws (c ∷ s) ++ path
